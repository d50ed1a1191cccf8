-- ===== src/Watch/Close.antt =====
-- internal/transport/watch/publisher.go: what the cleanup functions and Shutdown close.
use elara.Prelude.{
  ℕ, ◌==◌, ◌≡◌, refl, ap, ◌∙◌, subst, true, false, Option, none, some, [], ◌∷◌, arith, Bool-cases,
  inl, inr, if_false,
}
use elara.Prelude.Outcome.{ok}
use elara.Watch.{
  Channel, Channels, Subscription, Subscriptions, at_id, lookup, delete, close, close_all,
}
use elara.Watch.Notify.{distinct, AllOpen, distinct_head, lookup_here, tail_open}

abbrev pub closed_channel : Channel → Channel
closed_channel c = record c { closed = true }

-- What a shutdown does to the channel of a number.
unfoldable pub after_shutdown : Option Subscription → Channel → Channel
after_shutdown none c = c
after_shutdown (some sub) c = closed_channel c

pub close_open : (c : Channel) → c.closed ≡ false → close c ≡ ok (closed_channel c)
unfolding close
close_open c open' = if_false _ _ _ open'

pub lookup-delete_same : (id : ℕ) (subs : Subscriptions) → lookup id (delete id subs) ≡ none
unfolding lookup delete
lookup-delete_same id [] = refl
lookup-delete_same id ((j, sub) ∷ subs) = ground (arith, lookup-delete_same id subs)

pub lookup-delete_other :
    (id j : ℕ) (subs : Subscriptions)
    → (id == j) ≡ false
    → lookup j (delete id subs) ≡ lookup j subs
unfolding lookup delete
lookup-delete_other id j [] h = refl
lookup-delete_other id j ((i, sub) ∷ subs) h = ground (arith, lookup-delete_other id j subs h)

delete_none :
    (id j : ℕ) (subs : Subscriptions) → lookup j subs ≡ none → lookup j (delete id subs) ≡ none
delete_none id j subs h = elim (Bool-cases (id == j)) [
  | inl same ↦
      let e : id ≡ j = ground arith in
      subst (λ i. lookup i (delete id subs) ≡ none) e (lookup-delete_same id subs)
  | inr other ↦ lookup-delete_other id j subs other ∙ h
]

pub distinct-delete :
    (id : ℕ) (subs : Subscriptions) → distinct subs ≡ true → distinct (delete id subs) ≡ true
unfolding distinct delete
distinct-delete id [] d = refl
distinct-delete id ((j, sub) ∷ subs) d =
    let (gone, d') = distinct_head j sub subs d in
    ground (arith, distinct-delete id subs d', delete_none id j subs gone)

-- Where no number has two subscriptions and their channels are open, a shutdown closes each of them.
pub close_all_lem :
    (subs : Subscriptions) (channels : Channels)
    → distinct subs ≡ true
    → AllOpen subs channels
    → (channels' : Channels) × (close_all subs channels ≡ ok channels')
      × ((id : ℕ) → channels' id ≡ after_shutdown (lookup id subs) (channels id))
unfolding close_all distinct lookup after_shutdown
close_all_lem [] channels d open' = (channels, refl, λ id. refl)
close_all_lem ((j, sub) ∷ subs) channels d open' =
    let (gone, d') = distinct_head j sub subs d in
    let c = closed_channel (channels j) in
    let mine = open' j sub (lookup_here j sub subs) in
    let rest : AllOpen subs (at_id j c channels) = λ id s at. elim (Bool-cases (j == id)) [
      | inl here ↦
          let same : j ≡ id = ground arith in
          absurd (cc (subst (λ i. lookup i subs ≡ none) same gone, at))
      | inr there ↦
          ap (λ c. c.closed) (if_false (j == id) c (channels id) there)
          ∙ tail_open j sub subs channels gone open' id s at
    ] in
    let (channels', ran, spec) = close_all_lem subs (at_id j c channels) d' rest in
    (
      channels',
      ground (arith, close_open (channels j) mine, ran),
      λ id. elim (Bool-cases (j == id)) [
        | inl here ↦
            let same : j ≡ id = ground arith in
            let gone' : lookup id subs ≡ none = subst (λ i. lookup i subs ≡ none) same gone in
            ground (arith, spec id, gone')
        | inr there ↦ ground (arith, spec id)
      ],
    )
