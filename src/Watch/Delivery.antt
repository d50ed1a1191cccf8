-- ===== src/Watch/Delivery.antt =====
-- internal/transport/watch/publisher.go: what the holder of a channel receives.
use elara.Prelude.{
  ℕ, Bytes, ◌+◌, ◌-◌, ◌==◌, ltb, ◌≡◌, refl, sym, ap, ◌∙◌, Bool, true, ◌&&◌, Option, none, some,
  List, [], ◌∷◌, ◌++◌, length, if◌then◌else◌, arith, Bool-cases, inl, inr, length-append,
}
use mathlib.Core.List.{append_assoc, append-nil}
use elara.Prelude.Outcome.{Outcome, ok, err}
use elara.Watch.{
  WatchEvent, Channel, Subscription, Publisher, Panic, lookup, matches, default_buffer_size,
  notify_call, event_of, Call, receive, taken, subscribe,
}
use elara.Watch.Notify.{after_notify}
use elara.Watch.WellFormed.{IsWellFormed, receive-IsWellFormed, subscribe-IsWellFormed, notify_lem}
use elara.Watch.Reach.{Reach, Reach-IsWellFormed, at_same}

-- What happens while a channel is held: a notification, a Subscribe, or the holder takes an event.
pub data Act : Type 0 where
  subscribes : Bytes → Bytes → Act
  publishes : ℕ → Call → Act
  takes : Act

abbrev received_more :
    Option WatchEvent
    → Outcome Panic (Publisher × List WatchEvent)
    → Outcome Panic (Publisher × List WatchEvent)
received_more none r = r
received_more (some e) (ok (p, l)) = ok (p, e ∷ l)
received_more (some e) (err x) = err x

-- The state after the acts, and what the holder of the channel has taken.
unfoldable pub run : ℕ → List Act → Publisher → Outcome Panic (Publisher × List WatchEvent)
unfolding notify_call receive subscribe
run id [] p = ok (p, [])
run id (publishes now call ∷ acts) p = elim (notify_call now call p) [
  | err e ↦ err e
  | ok q ↦ run id acts q
]
run id (subscribes path_prefix namespace ∷ acts) p =
    run id acts (subscribe path_prefix namespace p).1
run id (takes ∷ acts) p = received_more (receive id p).1 (run id acts (receive id p).0)

-- The events that match a subscription.
unfoldable pub matching : Subscription → List Act → List WatchEvent
unfolding matches event_of
matching sub [] = []
matching sub (publishes now call ∷ acts) =
    let rest = matching sub acts in
    if matches sub (event_of now call) then event_of now call ∷ rest else rest
matching sub (subscribes path_prefix namespace ∷ acts) = matching sub acts
matching sub (takes ∷ acts) = matching sub acts

-- Those of them that find room, when `n` events wait in the buffer.
unfoldable pub accepted : Subscription → List Act → ℕ → List WatchEvent
unfolding matches event_of
accepted sub [] n = []
accepted sub (publishes now call ∷ acts) n =
    let here = accepted sub acts (n + 1) in
    let on = accepted sub acts n in
    if matches sub (event_of now call) && ltb n default_buffer_size
    then event_of now call ∷ here
    else on
accepted sub (subscribes path_prefix namespace ∷ acts) n = accepted sub acts n
accepted sub (takes ∷ acts) n = accepted sub acts (n - 1)

-- Never do a hundred events wait when another one comes.
unfoldable pub keeps_up : Subscription → List Act → ℕ → Bool
unfolding matches event_of
keeps_up sub [] n = true
keeps_up sub (publishes now call ∷ acts) n =
    let here = keeps_up sub acts (n + 1) in
    let on = keeps_up sub acts n in
    if matches sub (event_of now call) then ltb n default_buffer_size && here else on
keeps_up sub (subscribes path_prefix namespace ∷ acts) n = keeps_up sub acts n
keeps_up sub (takes ∷ acts) n = keeps_up sub acts (n - 1)

-- One event, before what follows.
one_accepted :
    (event : WatchEvent) (sub : Subscription) (c : Channel) (f : ℕ → List WatchEvent)
    → (after_notify event (some sub) c).queue ++ f (length (after_notify event (some sub) c).queue)
      ≡ c.queue
        ++ (if matches sub event && ltb (length c.queue) default_buffer_size
            then event ∷ f (length c.queue + 1)
            else f (length c.queue))
unfolding after_notify
one_accepted event sub c f = elim (Bool-cases (matches sub event)) [
  | inr skips ↦ ground arith
  | inl fits ↦ elim (Bool-cases (ltb (length c.queue) default_buffer_size)) [
    | inr full ↦ ground arith
    | inl room ↦
        let grown : length (c.queue ++ event ∷ []) ≡ length c.queue + 1 =
          omega (arith, length-append c.queue (event ∷ [])) in
        rw (fits, room, grown) (append_assoc c.queue (event ∷ []) (f (length c.queue + 1)))
  ]
]

-- One event that is taken, before what follows.
one_taken :
    (w : List WatchEvent) (c : Channel) (f : ℕ → List WatchEvent) (q : Publisher)
    (l rest : List WatchEvent) (r : Outcome Panic (Publisher × List WatchEvent))
    → c.queue ≡ w
    → r ≡ ok (q, l)
    → l ++ rest ≡ (taken w c).0.queue ++ f (length (taken w c).0.queue)
    → (l' : List WatchEvent) × (received_more (taken w c).1 r ≡ ok (q, l'))
      × (l' ++ rest ≡ w ++ f (length w - 1))
one_taken [] c f q l rest r h ran eq = (l, ran, eq ∙ ap (λ w. w ++ f (length w)) h)
one_taken (e ∷ w) c f q l rest r h ran eq =
    let less : length w ≡ length (e ∷ w) - 1 = omega arith in
    (e ∷ l, ap (received_more (some e)) ran, ap (λ w. e ∷ w) eq ∙ ap (λ n. (e ∷ w) ++ f n) less)

-- The channel of a subscription holds what was there, and then what was accepted.
abbrev Delivers : ℕ → Subscription → List Act → Publisher → Type 0
Delivers id sub acts p =
    (q : Publisher) × (l : List WatchEvent) × (run id acts p ≡ ok (q, l))
    × (l ++ (q.channels id).queue
        ≡ (p.channels id).queue ++ accepted sub acts (length (p.channels id).queue))

-- A new subscription leaves the others and their channels.
subscribe-lookup :
    (path_prefix namespace : Bytes) (id : ℕ) (sub : Subscription) (p : Publisher)
    → IsWellFormed p
    → lookup id p.subscriptions ≡ some sub
    → (lookup id (subscribe path_prefix namespace p).1.subscriptions ≡ some sub)
      × ((subscribe path_prefix namespace p).1.channels id ≡ p.channels id)
unfolding subscribe lookup
subscribe-lookup path_prefix namespace id sub p wf at =
    let old = wf.known id sub at in
    elim (Bool-cases (p.next_id + 1 == id)) [
      | inl here ↦ absurd (ground (arith, old))
      | inr there ↦ (ground arith, ground arith)
    ]

pub run-accepted :
    (id : ℕ) (sub : Subscription) (acts : List Act) (p : Publisher)
    → IsWellFormed p
    → lookup id p.subscriptions ≡ some sub
    → Delivers id sub acts p
unfolding run accepted notify_call receive
run-accepted id sub [] p wf at = (p, [], refl, sym (append-nil (p.channels id).queue))
run-accepted id sub (publishes now call ∷ acts) p wf at =
    let (channels, ran, spec, wf') = notify_lem (event_of now call) p wf in
    let (q, l, ran', eq) = run-accepted id sub acts (record p { channels = channels }) wf' at in
    let c : channels id ≡ after_notify (event_of now call) (some sub) (p.channels id) =
      spec id ∙ ap (λ f. after_notify (event_of now call) f (p.channels id)) at in
    (
      q,
      l,
      ground (arith, ran, ran'),
      eq
          ∙ ap (λ c. c.queue ++ accepted sub acts (length c.queue)) c
          ∙ one_accepted (event_of now call) sub (p.channels id) (accepted sub acts),
    )
run-accepted id sub (subscribes path_prefix namespace ∷ acts) p wf at =
    let (at', same) = subscribe-lookup path_prefix namespace id sub p wf at in
    let (q, l, ran, eq) =
      run-accepted id sub acts (subscribe path_prefix namespace p).1
        (subscribe-IsWellFormed path_prefix namespace p wf) at' in
    (q, l, ran, eq ∙ ap (λ c. c.queue ++ accepted sub acts (length c.queue)) same)
run-accepted id sub (takes ∷ acts) p wf at =
    let c = p.channels id in
    let p1 = (receive id p).0 in
    let (q, l, ran, eq) = run-accepted id sub acts p1 (receive-IsWellFormed id p wf) at in
    let here = at_same id (taken c.queue c).0 p.channels in
    let (l', ran', eq') =
      one_taken c.queue c (accepted sub acts) q l (q.channels id).queue (run id acts p1) refl ran
        (eq ∙ ap (λ c. c.queue ++ accepted sub acts (length c.queue)) here) in
    (q, l', ran', eq')

accepted-keeps_up :
    (sub : Subscription) (acts : List Act) (n : ℕ)
    → keeps_up sub acts n ≡ true
    → accepted sub acts n ≡ matching sub acts
unfolding accepted keeps_up matching
accepted-keeps_up sub [] n h = refl
accepted-keeps_up sub (publishes now call ∷ acts) n h =
    ground (arith, accepted-keeps_up sub acts n, accepted-keeps_up sub acts (n + 1))
accepted-keeps_up sub (subscribes path_prefix namespace ∷ acts) n h = accepted-keeps_up sub acts n h
accepted-keeps_up sub (takes ∷ acts) n h = accepted-keeps_up sub acts (n - 1) h

-- From a state that calls lead to, all notifications that are mixed with new subscriptions and with
-- readings of one subscribed channel succeed; what is read, with what then waits in the buffer, is what
-- waited before, followed by those matching events that found fewer than 100 in the buffer, in order.
pub delivery :
    (id : ℕ) (sub : Subscription) (acts : List Act) (p : Publisher)
    → Reach p
    → lookup id p.subscriptions ≡ some sub
    → (q : Publisher) × (l : List WatchEvent) × (run id acts p ≡ ok (q, l))
      × (l ++ (q.channels id).queue
          ≡ (p.channels id).queue ++ accepted sub acts (length (p.channels id).queue))
delivery id sub acts p r at = run-accepted id sub acts p (Reach-IsWellFormed r) at

-- A holder who keeps up, so that never a hundred events wait when another one comes, gets every
-- matching event, once and in order, while notifications and new subscriptions are mixed with readings.
pub delivery_complete :
    (id : ℕ) (sub : Subscription) (acts : List Act) (p : Publisher)
    → Reach p
    → lookup id p.subscriptions ≡ some sub
    → keeps_up sub acts (length (p.channels id).queue) ≡ true
    → (q : Publisher) × (l : List WatchEvent) × (run id acts p ≡ ok (q, l))
      × (l ++ (q.channels id).queue ≡ (p.channels id).queue ++ matching sub acts)
delivery_complete id sub acts p r at up =
    let (q, l, ran, eq) = delivery id sub acts p r at in
    (
      q,
      l,
      ran,
      eq
          ∙ ap (λ l. (p.channels id).queue ++ l)
              (accepted-keeps_up sub acts (length (p.channels id).queue) up),
    )
