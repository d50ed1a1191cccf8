-- ===== src/Watch.antt =====
-- internal/transport/watch/publisher.go: subscriptions to changes of configs. Each call is one step:
-- the publisher's mutex excludes all but notifications of each other, which are taken here one after the
-- other. The number of the last subscription, an int of the source, is a natural number here.
pub mod Notify
pub mod Close
pub mod WellFormed
pub mod Reach
pub mod Delivery
use elara.Prelude.{
  ℕ, ◌+◌, Bytes, bytes_eq, has_prefix, ◌==◌, ltb, not, Bool, true, false, ◌&&◌, Option, none, some,
  List, [], ◌∷◌, ◌++◌, length, if◌then◌else◌,
}
use elara.Prelude.Outcome.{Outcome, ok, err}
use elara.Domain.Config.{
  Config, EventType, event_created, event_updated, event_deleted, event_locked, event_unlocked,
  event_namespace_locked, event_namespace_unlocked,
}

-- domain.WatchEvent
pub record WatchEvent : Type 0 where
  pub kind : EventType
  pub path : Bytes
  pub namespace : Bytes
  pub revision : ℕ
  pub config : Option Config
  pub timestamp : ℕ

abbrev pub default_buffer_size : ℕ
default_buffer_size = 100

-- A channel of events: what waits in its buffer, and whether it is closed.
pub record Channel : Type 0 where
  pub queue : List WatchEvent
  pub closed : Bool

-- The filter of a subscription; its channel is the one of its number.
pub record Subscription : Type 0 where
  pub path_prefix : Bytes
  pub namespace : Bytes

abbrev pub Subscriptions : Type 0
Subscriptions = List (ℕ × Subscription)

abbrev pub Channels : Type 0
Channels = ℕ → Channel

-- The map of the subscriptions by number, the channels that have been handed out, and the cleanup
-- functions that have been called (sync.Once).
pub record Publisher : Type 0 where
  pub subscriptions : Subscriptions
  pub next_id : ℕ
  pub channels : Channels
  pub cleaned : ℕ → Bool

-- What the runtime panics on.
pub data Panic : Type 0 where
  send_on_closed close_of_closed : Panic

abbrev pub open_channel : Channel
open_channel = record { queue = []; closed = false }

abbrev pub new_publisher : Publisher
new_publisher = record {
  subscriptions = [];
  next_id = 0;
  channels = λ id. open_channel;
  cleaned = λ id. false;
}

abbrev pub at_id : {A : Type 0} → ℕ → A → (ℕ → A) → ℕ → A
at_id id a f j = if id == j then a else f j

unfoldable pub lookup : ℕ → Subscriptions → Option Subscription
lookup id [] = none
lookup id ((j, sub) ∷ subs) = if j == id then some sub else lookup id subs

unfoldable pub delete : ℕ → Subscriptions → Subscriptions
delete id [] = []
delete id ((j, sub) ∷ subs) = let rest = delete id subs in if j == id then rest else (j, sub) ∷ rest

unfoldable pub matches : Subscription → WatchEvent → Bool
unfolding bytes_eq has_prefix
matches sub event =
    if not (bytes_eq sub.namespace []) && not (bytes_eq sub.namespace event.namespace)
    then false
    else if bytes_eq event.path []
    then true
    else if not (bytes_eq sub.path_prefix []) && not (has_prefix event.path sub.path_prefix)
    then false
    else true

-- select { case events <- event: default: }
unfoldable pub offer : WatchEvent → Channel → Outcome Panic Channel
offer event c =
    if c.closed
    then err send_on_closed
    else if ltb (length c.queue) default_buffer_size
    then ok (record c { queue = c.queue ++ event ∷ [] })
    else ok c

unfoldable pub close : Channel → Outcome Panic Channel
close c = if c.closed then err close_of_closed else ok (record c { closed = true })

-- Subscribe hands out the number of the subscription, for its channel and its cleanup function.
unfoldable pub subscribe : Bytes → Bytes → Publisher → ℕ × Publisher
subscribe path_prefix namespace p =
    let id = p.next_id + 1 in
    (
      id,
      record {
        subscriptions =
            (id, record { path_prefix = path_prefix; namespace = namespace }) ∷ p.subscriptions;
        next_id = id;
        channels = at_id id open_channel p.channels;
        cleaned = p.cleaned;
      },
    )

abbrev set_channel : ℕ → Channels → Outcome Panic Channel → Outcome Panic Channels
set_channel id channels (ok c) = ok (at_id id c channels)
set_channel id channels (err e) = err e

abbrev with_channels : Publisher → Outcome Panic Channels → Outcome Panic Publisher
with_channels p (ok channels) = ok (record p { channels = channels })
with_channels p (err e) = err e

-- The cleanup function of a subscription.
unfoldable pub cleanup : ℕ → Publisher → Outcome Panic Publisher
unfolding lookup close delete
cleanup id p =
    if p.cleaned id
    then ok p
    else let done = record p { cleaned = at_id id true p.cleaned } in
      elim (lookup id p.subscriptions) [
        | none ↦ ok done
        | some sub ↦
            with_channels (record done { subscriptions = delete id p.subscriptions })
              (set_channel id p.channels (close (p.channels id)))
      ]

-- A map is iterated in some order, here that of the list.
unfoldable pub notify_loop : WatchEvent → Subscriptions → Channels → Outcome Panic Channels
unfolding matches offer
notify_loop event [] channels = ok channels
notify_loop event ((id, sub) ∷ subs) channels = elim (matches sub event) [
  | false ↦ notify_loop event subs channels
  | true ↦ elim (offer event (channels id)) [
    | err e ↦ err e
    | ok c ↦ notify_loop event subs (at_id id c channels)
  ]
]

unfoldable pub notify : WatchEvent → Publisher → Outcome Panic Publisher
unfolding notify_loop
notify event p = with_channels p (notify_loop event p.subscriptions p.channels)

abbrev pub config_event : EventType → ℕ → Config → WatchEvent
config_event kind now cfg = record {
  kind = kind;
  path = cfg.path;
  namespace = cfg.namespace;
  revision = cfg.revision;
  config = some cfg;
  timestamp = now;
}

abbrev pub namespace_event : EventType → ℕ → Bytes → WatchEvent
namespace_event kind now namespace = record {
  kind = kind;
  path = [];
  namespace = namespace;
  revision = 0;
  config = none;
  timestamp = now;
}

abbrev pub removal_event : ℕ → Bytes → Bytes → ℕ → WatchEvent
removal_event now path namespace revision = record {
  kind = event_deleted;
  path = path;
  namespace = namespace;
  revision = revision;
  config = none;
  timestamp = now;
}

-- The calls Notify… of the publisher.
pub data Call : Type 0 where
  created updated config_locked config_unlocked : Config → Call
  deleted : Bytes → Bytes → ℕ → Call
  namespace_locked namespace_unlocked : Bytes → Call

unfoldable pub event_of : ℕ → Call → WatchEvent
event_of now (created cfg) = config_event event_created now cfg
event_of now (updated cfg) = config_event event_updated now cfg
event_of now (config_locked cfg) = config_event event_locked now cfg
event_of now (config_unlocked cfg) = config_event event_unlocked now cfg
event_of now (deleted path namespace revision) = removal_event now path namespace revision
event_of now (namespace_locked namespace) = namespace_event event_namespace_locked now namespace
event_of now (namespace_unlocked namespace) = namespace_event event_namespace_unlocked now namespace

-- NotifyCreated, NotifyUpdated, NotifyDeleted, NotifyConfigLocked and the others
unfoldable pub notify_call : ℕ → Call → Publisher → Outcome Panic Publisher
unfolding event_of notify
notify_call now call p = notify (event_of now call) p

unfoldable pub close_all : Subscriptions → Channels → Outcome Panic Channels
unfolding close
close_all [] channels = ok channels
close_all ((id, sub) ∷ subs) channels = elim (close (channels id)) [
  | err e ↦ err e
  | ok c ↦ close_all subs (at_id id c channels)
]

unfoldable pub shutdown : Publisher → Outcome Panic Publisher
unfolding close_all
shutdown p = with_channels (record p { subscriptions = [] }) (close_all p.subscriptions p.channels)

abbrev taken : List WatchEvent → Channel → Channel × Option WatchEvent
taken [] c = (c, none)
taken (e ∷ q) c = (record c { queue = q }, some e)

-- The holder of a channel takes what is in front of its buffer.
unfoldable pub receive : ℕ → Publisher → Publisher × Option WatchEvent
receive id p =
    let (c, e) = taken (p.channels id).queue (p.channels id) in
    (record p { channels = at_id id c p.channels }, e)
