-- ===== src/Watch/Notify.antt =====
-- internal/transport/watch/publisher.go: what a notification does to each channel, in every state that
-- calls lead to.
use elara.Prelude.{
  ℕ, ◌==◌, ltb, ◌≡◌, refl, ap, ◌∙◌, subst, Bool, true, false, Option, none, some, [], ◌∷◌, ◌++◌,
  length, if◌then◌else◌, arith, Bool-cases, Option-cases, inl, inr, if_true, if_false,
}
use elara.Prelude.Outcome.{ok}
use elara.Watch.{
  WatchEvent, Channel, Channels, Subscription, Subscriptions, at_id, lookup, matches, offer,
  notify_loop, default_buffer_size,
}

-- What an event does to an open channel with this subscription.
abbrev pub delivered : WatchEvent → Channel → Channel
delivered event c =
    if ltb (length c.queue) default_buffer_size
    then record c { queue = c.queue ++ event ∷ [] }
    else c

-- What it does to the channel of a number.
unfoldable pub after_notify : WatchEvent → Option Subscription → Channel → Channel
after_notify event none c = c
after_notify event (some sub) c = if matches sub event then delivered event c else c

-- No number has two subscriptions.
unfoldable pub distinct : Subscriptions → Bool
unfolding lookup
distinct [] = true
distinct ((id, sub) ∷ subs) = elim (lookup id subs) [ none ↦ distinct subs | some s ↦ false ]

-- The channel of each subscription is open.
abbrev pub AllOpen : Subscriptions → Channels → Type 0
AllOpen subs channels =
    (id : ℕ) (sub : Subscription) → lookup id subs ≡ some sub → (channels id).closed ≡ false

pub delivered-open :
    (event : WatchEvent) (c : Channel) → c.closed ≡ false → (delivered event c).closed ≡ false
delivered-open event c open' = ground (arith, open')

offer_open :
    (event : WatchEvent) (c : Channel) → c.closed ≡ false → offer event c ≡ ok (delivered event c)
unfolding offer
offer_open event c open' = ground (arith, open')

pub distinct_head :
    (id : ℕ) (sub : Subscription) (subs : Subscriptions)
    → distinct ((id, sub) ∷ subs) ≡ true
    → (lookup id subs ≡ none) × (distinct subs ≡ true)
unfolding distinct
distinct_head id sub subs d = elim (Option-cases (lookup id subs)) [
  | inl e ↦ (e, ground arith)
  | inr (s, e) ↦ absurd (ground arith)
]

pub lookup_here :
    (id : ℕ) (sub : Subscription) (subs : Subscriptions) → lookup id ((id, sub) ∷ subs) ≡ some sub
unfolding lookup
lookup_here id sub subs = ground arith

pub lookup_there :
    (id j : ℕ) (sub : Subscription) (subs : Subscriptions)
    → (j == id) ≡ false
    → lookup id ((j, sub) ∷ subs) ≡ lookup id subs
unfolding lookup
lookup_there id j sub subs h = ground arith

pub tail_open :
    (j : ℕ) (sub : Subscription) (subs : Subscriptions) (channels : Channels)
    → lookup j subs ≡ none
    → AllOpen ((j, sub) ∷ subs) channels
    → AllOpen subs channels
tail_open j sub subs channels gone open' id s at = elim (Bool-cases (j == id)) [
  | inl here ↦
      let same : j ≡ id = ground arith in
      absurd (cc (subst (λ i. lookup i subs ≡ none) same gone, at))
  | inr there ↦ open' id s (lookup_there id j sub subs there ∙ at)
]

-- Where no number has two subscriptions and their channels are open, an event goes to each channel on
-- its own.
pub notify_loop_lem :
    (event : WatchEvent) (subs : Subscriptions) (channels : Channels)
    → distinct subs ≡ true
    → AllOpen subs channels
    → (channels' : Channels) × (notify_loop event subs channels ≡ ok channels')
      × ((id : ℕ) → channels' id ≡ after_notify event (lookup id subs) (channels id))
unfolding notify_loop distinct lookup after_notify
notify_loop_lem event [] channels d open' = (channels, refl, λ id. refl)
notify_loop_lem event ((j, sub) ∷ subs) channels d open' = elim (Bool-cases (matches sub event)) [
  | inr skips ↦
      let (gone, d') = distinct_head j sub subs d in
      let (channels', ran, spec) =
        notify_loop_lem event subs channels d' (tail_open j sub subs channels gone open') in
      (
        channels',
        ground arith,
        λ id. elim (Bool-cases (j == id)) [
          | inl here ↦
              let same : j ≡ id = ground arith in
              let gone' : lookup id subs ≡ none = subst (λ i. lookup i subs ≡ none) same gone in
              ground (arith, spec id, gone')
          | inr there ↦ ground (arith, spec id)
        ],
      )
  | inl takes ↦
      let (gone, d') = distinct_head j sub subs d in
      let c = delivered event (channels j) in
      let mine = open' j sub (lookup_here j sub subs) in
      let (channels', ran, spec) = notify_loop_lem event subs (at_id j c channels) d' (λ id s at.
        elim (Bool-cases (j == id)) [
          | inl here ↦
              ap (λ c. c.closed) (if_true (j == id) c (channels id) here)
              ∙ delivered-open event (channels j) mine
          | inr there ↦
              ap (λ c. c.closed) (if_false (j == id) c (channels id) there)
              ∙ tail_open j sub subs channels gone open' id s at
        ]) in
      (
        channels',
        ground (arith, offer_open event (channels j) mine, ran),
        λ id. elim (Bool-cases (j == id)) [
          | inl here ↦
              let same : j ≡ id = ground arith in
              let gone' : lookup id subs ≡ none = subst (λ i. lookup i subs ≡ none) same gone in
              ground (arith, spec id, gone')
          | inr there ↦ ground (arith, spec id)
        ],
      )
]
