-- ===== src/Watch/Reach.antt =====
-- internal/transport/watch/publisher.go: what holds in every state that calls lead to.
use elara.Prelude.{
  ℕ, ◌≤◌, ◌==◌, ◌≡◌, refl, sym, ap, ◌∙◌, subst, true, false, none, some, length, Bytes, arith,
  Bool-cases, Option-cases, inl, inr, if_true, if_false,
}
use elara.Prelude.Outcome.{Outcome, ok}
use elara.Watch.{
  Subscription, Subscriptions, Publisher, Panic, at_id, lookup, delete, default_buffer_size,
  new_publisher, subscribe, cleanup, notify_call, event_of, Call, shutdown, receive,
}
use elara.Watch.Close.{
  closed_channel, close_open, lookup-delete_same, lookup-delete_other, distinct-delete,
}
use elara.Watch.WellFormed.{
  IsWellFormed, new-IsWellFormed, subscribe-IsWellFormed, receive-IsWellFormed, notify_lem,
  shutdown_lem,
}

-- One call of the publisher, or of the holder of a channel.
pub data Step : Publisher → Publisher → Type 0 where
  by_subscribe :
      (path_prefix namespace : Bytes) (p : Publisher) → Step p (subscribe path_prefix namespace p).1
  by_cleanup : (id : ℕ) (p p' : Publisher) → id ≤ p.next_id → cleanup id p ≡ ok p' → Step p p'
  by_notify :
      (now : ℕ) (call : Call) (p p' : Publisher) → notify_call now call p ≡ ok p' → Step p p'
  by_shutdown : (p p' : Publisher) → shutdown p ≡ ok p' → Step p p'
  by_receive : (id : ℕ) (p : Publisher) → Step p (receive id p).0

pub data Reach : Publisher → Type 0 where
  start : Reach new_publisher
  next : {p p' : Publisher} → Reach p → Step p p' → Reach p'

-- What a call of a cleanup function leaves: no subscription of that number, its channel closed, and all
-- else as it was.
pub record IsCleaned (id : ℕ) (p p' : Publisher) : Type 0 where
  pub gone : lookup id p'.subscriptions ≡ none
  pub closes : 1 ≤ id → (p'.channels id).closed ≡ true
  pub keeps : (p'.channels id).queue ≡ (p.channels id).queue
  pub others :
      (j : ℕ)
      → (id == j) ≡ false
      → (lookup j p'.subscriptions ≡ lookup j p.subscriptions) × (p'.channels j ≡ p.channels j)
  pub counter : p'.next_id ≡ p.next_id
  pub again : cleanup id p' ≡ ok p'

pub at_same : {A : Type 0} (id : ℕ) (a : A) (f : ℕ → A) → at_id id a f id ≡ a
at_same id a f = ground arith

pub at_other :
    {A : Type 0} (id j : ℕ) (a : A) (f : ℕ → A) → (id == j) ≡ false → at_id id a f j ≡ f j
at_other id j a f h = if_false (id == j) a (f j) h

-- The state after the subscription was found.
abbrev removed : ℕ → Publisher → Publisher
removed id p = record {
  subscriptions = delete id p.subscriptions;
  next_id = p.next_id;
  channels = at_id id (closed_channel (p.channels id)) p.channels;
  cleaned = at_id id true p.cleaned;
}

deleted : (id j : ℕ) (subs : Subscriptions) → (id == j) ≡ true → lookup j (delete id subs) ≡ none
deleted id j subs here =
    let same : id ≡ j = ground arith in
    subst (λ i. lookup i (delete id subs) ≡ none) same (lookup-delete_same id subs)

removed-IsWellFormed :
    (id : ℕ) (p : Publisher) → IsWellFormed p → id ≤ p.next_id → IsWellFormed (removed id p)
removed-IsWellFormed id p wf low = record {
  one_each = distinct-delete id p.subscriptions wf.one_each;
  known = λ j sub h. elim (Bool-cases (id == j)) [
    | inl here ↦ absurd (cc (deleted id j p.subscriptions here, h))
    | inr there ↦ wf.known j sub (sym (lookup-delete_other id j p.subscriptions there) ∙ h)
  ];
  opened = λ j sub h. elim (Bool-cases (id == j)) [
    | inl here ↦ absurd (cc (deleted id j p.subscriptions here, h))
    | inr there ↦
        ap (λ c. c.closed) (at_other id j (closed_channel (p.channels id)) p.channels there)
        ∙ wf.opened j sub (sym (lookup-delete_other id j p.subscriptions there) ∙ h)
  ];
  released = λ j lo hi h. elim (Bool-cases (id == j)) [
    | inl here ↦
        ap (λ c. c.closed) (if_true (id == j) (closed_channel (p.channels id)) (p.channels j) here)
    | inr there ↦
        ap (λ c. c.closed) (at_other id j (closed_channel (p.channels id)) p.channels there)
        ∙ wf.released j lo hi (sym (lookup-delete_other id j p.subscriptions there) ∙ h)
  ];
  once = λ j h. elim (Bool-cases (id == j)) [
    | inl here ↦ (ground (arith, low), deleted id j p.subscriptions here)
    | inr there ↦
        let (known, gone) = wf.once j (sym (at_other id j true p.cleaned there) ∙ h) in
        (known, lookup-delete_other id j p.subscriptions there ∙ gone)
  ];
  bounded = λ j. elim (Bool-cases (id == j)) [
    | inl here ↦
        subst (λ c. length c.queue ≤ default_buffer_size)
          (sym (if_true (id == j) (closed_channel (p.channels id)) (p.channels j) here))
          (wf.bounded id)
    | inr there ↦
        subst (λ c. length c.queue ≤ default_buffer_size)
          (sym (at_other id j (closed_channel (p.channels id)) p.channels there)) (wf.bounded j)
  ];
}

-- A cleanup function whose subscription is gone only notes that it has been called.
abbrev noted : ℕ → Publisher → Publisher
noted id p = record p { cleaned = at_id id true p.cleaned }

noted-IsWellFormed :
    (id : ℕ) (p : Publisher)
    → IsWellFormed p
    → id ≤ p.next_id
    → lookup id p.subscriptions ≡ none
    → IsWellFormed (noted id p)
noted-IsWellFormed id p wf low gone = record {
  one_each = wf.one_each;
  known = wf.known;
  opened = wf.opened;
  released = wf.released;
  once = λ j h. elim (Bool-cases (id == j)) [
    | inl here ↦
        let same : id ≡ j = ground arith in
        (ground (arith, low), subst (λ i. lookup i p.subscriptions ≡ none) same gone)
    | inr there ↦ wf.once j (sym (at_other id j true p.cleaned there) ∙ h)
  ];
  bounded = wf.bounded;
}

cleanup_again : (id : ℕ) (p : Publisher) → p.cleaned id ≡ true → cleanup id p ≡ ok p
unfolding cleanup
cleanup_again id p h = ground arith

cleanup-none :
    (id : ℕ) (p : Publisher)
    → p.cleaned id ≡ false
    → lookup id p.subscriptions ≡ none
    → cleanup id p ≡ ok (noted id p)
unfolding cleanup
cleanup-none id p h gone = ground arith

cleanup-some :
    (id : ℕ) (p : Publisher) (sub : Subscription)
    → p.cleaned id ≡ false
    → lookup id p.subscriptions ≡ some sub
    → (p.channels id).closed ≡ false
    → cleanup id p ≡ ok (removed id p)
unfolding cleanup
cleanup-some id p sub h at open' = ground (arith, close_open (p.channels id) open')

-- A cleanup function that has been handed out succeeds.
pub cleanup_lem :
    (id : ℕ) (p : Publisher)
    → IsWellFormed p
    → id ≤ p.next_id
    → (p' : Publisher) × (cleanup id p ≡ ok p') × IsCleaned id p p' × IsWellFormed p'
cleanup_lem id p wf low = elim (Bool-cases (p.cleaned id)) [
  | inl before ↦
      let (known, gone) = wf.once id before in
      (
        p,
        cleanup_again id p before,
        record {
          gone = gone;
          closes = λ lo. wf.released id lo low gone;
          keeps = refl;
          others = λ j h. (refl, refl);
          counter = refl;
          again = cleanup_again id p before;
        },
        wf,
      )
  | inr first ↦ elim (Option-cases (lookup id p.subscriptions)) [
    | inl gone ↦ (
      noted id p,
      cleanup-none id p first gone,
      record {
        gone = gone;
        closes = λ lo. wf.released id lo low gone;
        keeps = refl;
        others = λ j h. (refl, refl);
        counter = refl;
        again = cleanup_again id (noted id p) (at_same id true p.cleaned);
      },
      noted-IsWellFormed id p wf low gone,
    )
    | inr (sub, at) ↦ (
      removed id p,
      cleanup-some id p sub first at (wf.opened id sub at),
      record {
        gone = lookup-delete_same id p.subscriptions;
        closes = λ lo. ap (λ c. c.closed) (at_same id (closed_channel (p.channels id)) p.channels);
        keeps = ap (λ c. c.queue) (at_same id (closed_channel (p.channels id)) p.channels);
        others = λ j h. (
          lookup-delete_other id j p.subscriptions h,
          at_other id j (closed_channel (p.channels id)) p.channels h,
        );
        counter = refl;
        again = cleanup_again id (removed id p) (at_same id true p.cleaned);
      },
      removed-IsWellFormed id p wf low,
    )
  ]
]

ok_same :
    {A : Type 0} {r : Outcome Panic A} {a b : A} (P : A → Type 0) → r ≡ ok a → r ≡ ok b → P a → P b
ok_same {a = a} {b = b} P h k pa = let same : a ≡ b = cc (h, k) in subst P same pa

Step-IsWellFormed : {p p' : Publisher} → IsWellFormed p → Step p p' → IsWellFormed p'
unfolding notify_call
Step-IsWellFormed wf (by_subscribe path_prefix namespace p) =
    subscribe-IsWellFormed path_prefix namespace p wf
Step-IsWellFormed wf (by_cleanup id p p' low ran) =
    let (q, ran', cleaned, wf') = cleanup_lem id p wf low in ok_same IsWellFormed ran' ran wf'
Step-IsWellFormed wf (by_notify now call p p' ran) =
    let (channels, ran', spec, wf') = notify_lem (event_of now call) p wf in
    ok_same IsWellFormed ran' ran wf'
Step-IsWellFormed wf (by_shutdown p p' ran) =
    let (channels, ran', closes, keeps, wf') = shutdown_lem p wf in
    ok_same IsWellFormed ran' ran wf'
Step-IsWellFormed wf (by_receive id p) = receive-IsWellFormed id p wf

-- In every state that calls of the publisher and its channels lead to, each subscription has a number
-- of its own that has been given out, and an open channel; a channel that has been handed out and has
-- no subscription is closed; and no buffer holds more than 100 events.
pub Reach-IsWellFormed : {p : Publisher} → Reach p → IsWellFormed p
Reach-IsWellFormed start = new-IsWellFormed
Reach-IsWellFormed (next r step) = Step-IsWellFormed (Reach-IsWellFormed r) step

-- In every such state no call panics: a notification, a shutdown and each cleanup function that has
-- been handed out succeed, so no event is sent to a closed channel and no channel is closed twice.
pub never_panics :
    {p : Publisher} (now : ℕ) (call : Call) (id : ℕ)
    → Reach p
    → id ≤ p.next_id
    → ((q : Publisher) × (notify_call now call p ≡ ok q))
      × ((q : Publisher) × (shutdown p ≡ ok q))
      × ((q : Publisher) × (cleanup id p ≡ ok q))
unfolding notify_call
never_panics {p} now call id r low =
    let wf = Reach-IsWellFormed r in
    let n = notify_lem (event_of now call) p wf in
    let s = shutdown_lem p wf in let c = cleanup_lem id p wf low in ((_, n.1), (_, s.1), (c.0, c.1))
