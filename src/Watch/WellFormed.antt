-- ===== src/Watch/WellFormed.antt =====
-- internal/transport/watch/publisher.go: the states of the publisher, and what keeps them well formed.
use elara.Prelude.{
  ℕ, ◌+◌, ◌≤◌, ◌==◌, ltb, ◌≡◌, refl, sym, ap, ◌∙◌, subst, true, false, Option, none, some, List, [],
  ◌∷◌, length, Bytes, arith, Bool-cases, Option-cases, inl, inr, if_true, if_false, length-append,
}
use elara.Prelude.Outcome.{ok}
use elara.Watch.{
  WatchEvent, Channel, Channels, Subscription, Publisher, at_id, lookup, matches, notify,
  default_buffer_size, open_channel, new_publisher, subscribe, shutdown, receive, taken,
}
use elara.Watch.Notify.{distinct, AllOpen, notify_loop_lem, after_notify}
use elara.Watch.Close.{after_shutdown, close_all_lem}

-- Each subscription has a number of its own that has been given out, and an open channel; a channel
-- that has been handed out and has no subscription is closed; and no buffer is overfull.
pub record IsWellFormed (p : Publisher) : Type 0 where
  pub one_each : distinct p.subscriptions ≡ true
  pub known : (id : ℕ) (sub : Subscription) → lookup id p.subscriptions ≡ some sub → id ≤ p.next_id
  pub opened : AllOpen p.subscriptions p.channels
  pub released :
      (id : ℕ)
      → 1 ≤ id
      → id ≤ p.next_id
      → lookup id p.subscriptions ≡ none
      → (p.channels id).closed ≡ true
  pub once : (id : ℕ) → p.cleaned id ≡ true → (id ≤ p.next_id) × (lookup id p.subscriptions ≡ none)
  pub bounded : (id : ℕ) → length (p.channels id).queue ≤ default_buffer_size

pub new-IsWellFormed : IsWellFormed new_publisher
unfolding distinct lookup
new-IsWellFormed = record {
  one_each = refl;
  known = λ id sub h. absurd (cc h);
  opened = λ id sub h. refl;
  released = λ id lo hi h. absurd (omega (arith, lo, hi));
  once = λ id h. absurd (cc h);
  bounded = λ id. omega arith;
}

-- The next number has no subscription yet.
unknown : (p : Publisher) → IsWellFormed p → lookup (p.next_id + 1) p.subscriptions ≡ none
unknown p wf = elim (Option-cases (lookup (p.next_id + 1) p.subscriptions)) [
  | inl gone ↦ gone
  | inr (sub, at) ↦ absurd (omega (arith, wf.known (p.next_id + 1) sub at))
]

pub subscribe-IsWellFormed :
    (path_prefix namespace : Bytes) (p : Publisher)
    → IsWellFormed p
    → IsWellFormed (subscribe path_prefix namespace p).1
unfolding subscribe distinct lookup
subscribe-IsWellFormed path_prefix namespace p wf =
    let fresh = unknown p wf in
    record {
      one_each = ground (arith, fresh, wf.one_each);
      known = λ id sub h. elim (Bool-cases (p.next_id + 1 == id)) [
        | inl here ↦ ground arith
        | inr there ↦
            let old : lookup id p.subscriptions ≡ some sub = ground arith in
            omega (arith, wf.known id sub old)
      ];
      opened = λ id sub h. elim (Bool-cases (p.next_id + 1 == id)) [
        | inl here ↦
            ap (λ c. c.closed) (if_true (p.next_id + 1 == id) open_channel (p.channels id) here)
        | inr there ↦
            let old : lookup id p.subscriptions ≡ some sub = ground arith in
            ap (λ c. c.closed) (if_false (p.next_id + 1 == id) open_channel (p.channels id) there)
            ∙ wf.opened id sub old
      ];
      released = λ id lo hi h. elim (Bool-cases (p.next_id + 1 == id)) [
        | inl here ↦ absurd (ground arith)
        | inr there ↦
            let old : lookup id p.subscriptions ≡ none = ground arith in
            ap (λ c. c.closed) (if_false (p.next_id + 1 == id) open_channel (p.channels id) there)
            ∙ wf.released id lo (ground arith) old
      ];
      once = λ id h.
          let (low, gone) = wf.once id h in
          let other : (p.next_id + 1 == id) ≡ false = ground (arith, low) in
          (omega (arith, low), ground (arith, gone, other));
      bounded = λ id. elim (Bool-cases (p.next_id + 1 == id)) [
        | inl here ↦ ground arith
        | inr there ↦ ground (arith, wf.bounded id)
      ];
    }

-- New contents of the buffers.
refilled-IsWellFormed :
    (p : Publisher) (channels : Channels)
    → IsWellFormed p
    → ((id : ℕ)
        → ((channels id).closed ≡ (p.channels id).closed)
          × (length (channels id).queue ≤ default_buffer_size))
    → IsWellFormed (record p { channels = channels })
refilled-IsWellFormed p channels wf same = record {
  one_each = wf.one_each;
  known = wf.known;
  opened = λ id sub h. (same id).0 ∙ wf.opened id sub h;
  released = λ id lo hi h. (same id).0 ∙ wf.released id lo hi h;
  once = wf.once;
  bounded = λ id. (same id).1;
}

taken_keeps :
    (q : List WatchEvent) (c : Channel)
    → length q ≤ length c.queue
    → ((taken q c).0.closed ≡ c.closed) × (length (taken q c).0.queue ≤ length c.queue)
taken_keeps [] c h = (refl, omega arith)
taken_keeps (e ∷ q) c h = (refl, omega (arith, h))

pub receive-IsWellFormed : (id : ℕ) (p : Publisher) → IsWellFormed p → IsWellFormed (receive id p).0
unfolding receive
receive-IsWellFormed id p wf =
    let c = p.channels id in
    let (open', fewer) = taken_keeps c.queue c (omega arith) in
    refilled-IsWellFormed p (at_id id (taken c.queue c).0 p.channels) wf λ j.
      elim (Bool-cases (id == j)) [
        | inl here ↦
            let same : id ≡ j = ground arith in
            let there = if_true (id == j) (taken c.queue c).0 (p.channels j) here in
            (
              ap (λ c. c.closed) there ∙ open' ∙ ap (λ i. (p.channels i).closed) same,
              subst (λ c. length c.queue ≤ default_buffer_size) (sym there)
                  (omega (arith, fewer, wf.bounded id)),
            )
        | inr other ↦
            let there = if_false (id == j) (taken c.queue c).0 (p.channels j) other in
            (
              ap (λ c. c.closed) there,
              subst (λ c. length c.queue ≤ default_buffer_size) (sym there) (wf.bounded j),
            )
      ]

after_notify_keeps :
    (event : WatchEvent) (found : Option Subscription) (c : Channel)
    → length c.queue ≤ default_buffer_size
    → ((after_notify event found c).closed ≡ c.closed)
      × (length (after_notify event found c).queue ≤ default_buffer_size)
unfolding after_notify
after_notify_keeps event none c h = (refl, h)
after_notify_keeps event (some sub) c h = elim (Bool-cases (matches sub event)) [
  | inr skips ↦ (ground arith, ground (arith, h))
  | inl takes ↦ elim (Bool-cases (ltb (length c.queue) default_buffer_size)) [
    | inl room ↦ (ground arith, ground (arith, length-append c.queue (event ∷ [])))
    | inr full ↦ (ground arith, ground (arith, h))
  ]
]

-- In a well-formed state a notification succeeds, and each channel gets it on its own.
pub notify_lem :
    (event : WatchEvent) (p : Publisher)
    → IsWellFormed p
    → (channels : Channels) × (notify event p ≡ ok (record p { channels = channels }))
      × ((id : ℕ) → channels id ≡ after_notify event (lookup id p.subscriptions) (p.channels id))
      × IsWellFormed (record p { channels = channels })
unfolding notify
notify_lem event p wf =
    let (channels, ran, spec) =
      notify_loop_lem event p.subscriptions p.channels wf.one_each wf.opened in
    (
      channels,
      ground (arith, ran),
      spec,
      refilled-IsWellFormed p channels wf λ id.
          subst (λ c. (c.closed ≡ (p.channels id).closed) × (length c.queue ≤ default_buffer_size))
            (sym (spec id))
            (after_notify_keeps event (lookup id p.subscriptions) (p.channels id) (wf.bounded id)),
    )

after_shutdown_keeps :
    (found : Option Subscription) (c : Channel) → (after_shutdown found c).queue ≡ c.queue
unfolding after_shutdown
after_shutdown_keeps none c = refl
after_shutdown_keeps (some sub) c = refl

after_shutdown_closes :
    (found : Option Subscription) (c : Channel)
    → (found ≡ none → c.closed ≡ true)
    → (after_shutdown found c).closed ≡ true
unfolding after_shutdown
after_shutdown_closes none c h = h refl
after_shutdown_closes (some sub) c h = refl

-- In a well-formed state a shutdown succeeds; no subscription is left, each channel that has been handed
-- out is closed, and what waits in the buffers stays there.
pub shutdown_lem :
    (p : Publisher)
    → IsWellFormed p
    → (channels : Channels) × (shutdown p
        ≡ ok (record p { subscriptions = []; channels = channels }))
      × ((id : ℕ) → 1 ≤ id → id ≤ p.next_id → (channels id).closed ≡ true)
      × ((id : ℕ) → (channels id).queue ≡ (p.channels id).queue)
      × IsWellFormed (record p { subscriptions = []; channels = channels })
unfolding shutdown distinct lookup
shutdown_lem p wf =
    let (channels, ran, spec) = close_all_lem p.subscriptions p.channels wf.one_each wf.opened in
    let closes : (id : ℕ) → 1 ≤ id → id ≤ p.next_id → (channels id).closed ≡ true = λ id lo hi.
      ap (λ c. c.closed) (spec id)
      ∙ after_shutdown_closes (lookup id p.subscriptions) (p.channels id) (wf.released id lo hi) in
    let keeps : (id : ℕ) → (channels id).queue ≡ (p.channels id).queue = λ id.
      ap (λ c. c.queue) (spec id)
      ∙ after_shutdown_keeps (lookup id p.subscriptions) (p.channels id) in
    (
      channels,
      ground (arith, ran),
      closes,
      keeps,
      record {
        one_each = refl;
        known = λ id sub h. absurd (cc h);
        opened = λ id sub h. absurd (cc h);
        released = λ id lo hi h. closes id lo hi;
        once = λ id h. ((wf.once id h).0, refl);
        bounded =
            λ id. subst (λ q. length q ≤ default_buffer_size) (sym (keeps id)) (wf.bounded id);
      },
    )
