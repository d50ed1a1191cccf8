-- ===== src/ConfigStore/TimeTravel.antt =====
-- internal/storage/bbolt/config/etcd.go: lookupHistoryAtRevision, the reads at an earlier revision.
use elara.Prelude.{
  ℕ, zero, suc, ◌^◌, ◌<◌, Bytes, bytes_lt, bytes_eq_refl, bytes_lt_total, has_prefix,
  has_prefix-between, ltb, lt→ltb, ltb→lt, ◌≡◌, refl, true, false, Option, none, some, [], ◌∷◌,
  arith, ap, sym, ◌∙◌, subst, if_true, if_false, Option-cases, Bool-cases, inl, inr,
}
use elara.Storage.Bolt.Pairs.{Pairs}
use elara.Storage.Bolt.Seek.{elsewhere, seek_found, seek_absent}
use elara.Storage.Backend.{Backend}
use elara.ConfigStore.Keys.{history_key, history_prefix, revision_bytes}
use elara.ConfigStore.Keys.Order.{history_key_lt, history_key_prefix}
use elara.ConfigStore.Db.{Db}
use elara.ConfigStore.Etcd.{lookup_history_at_revision, at_or_before, value_under}

in_order :
    (ns path : Bytes) (a b : ℕ)
    → a < b
    → b < 2 ^ 64
    → bytes_lt (history_key ns path a) (history_key ns path b) ≡ true
in_order ns path a b h hb = history_key_lt ns path a b (omega (arith, h, hb)) hb ∙ lt→ltb a b h

module _ {K : Backend} where
  abbrev pub entry_at : Db K → Bytes → Bytes → ℕ → Option Bytes
  entry_at s ns path r = K.get s.history (history_key ns path r)

  -- The content of a config at a revision: its entry of that revision, else of the latest before it.
  unfoldable pub latest : Db K → Bytes → Bytes → ℕ → Option Bytes
  latest s ns path zero = entry_at s ns path zero
  latest s ns path (suc r) = elim (entry_at s ns path (suc r)) [
    | none ↦ latest s ns path r
    | some v ↦ some v
  ]

  -- What the history has under the prefix of a config are entries of that config.
  abbrev pub IsTidy : Db K → Bytes → Bytes → Type 0
  IsTidy s ns path =
      (k v : Bytes)
      → K.get s.history k ≡ some v
      → has_prefix k (history_prefix ns path) ≡ true
      → (r : ℕ) × (r < 2 ^ 64) × (k ≡ history_key ns path r)

  -- The entries with revisions below `r`.
  abbrev latest_below : Db K → Bytes → Bytes → ℕ → Option Bytes
  latest_below s ns path zero = none
  latest_below s ns path (suc r) = latest s ns path r

  latest_below_step :
      (s : Db K) (ns path : Bytes) (r : ℕ)
      → entry_at s ns path r ≡ none
      → latest s ns path r ≡ latest_below s ns path r
  unfolding latest
  latest_below_step s ns path zero gone = gone
  latest_below_step s ns path (suc r) gone = rw (gone, latest) refl

  latest_here :
      (s : Db K) (ns path v : Bytes) (r : ℕ)
      → entry_at s ns path r ≡ some v
      → latest s ns path r ≡ some v
  unfolding latest
  latest_here s ns path v zero at = at
  latest_here s ns path v (suc r) at = rw (at, latest) refl

  below_none :
      (s : Db K) (ns path : Bytes) (r : ℕ)
      → ((i : ℕ) → i < r → entry_at s ns path i ≡ none)
      → latest_below s ns path r ≡ none
  below_none s ns path zero gone = refl
  below_none s ns path (suc r) gone =
      latest_below_step s ns path r (gone r (omega arith))
      ∙ below_none s ns path r (λ i h. gone i (omega arith))

  below_some :
      (s : Db K) (ns path v : Bytes) (a r : ℕ)
      → a < r
      → entry_at s ns path a ≡ some v
      → ((i : ℕ) → a < i → i < r → entry_at s ns path i ≡ none)
      → latest_below s ns path r ≡ some v
  below_some s ns path v a zero h at gone = absurd (omega arith)
  below_some s ns path v a (suc r) h at gone = elim (Bool-cases (ltb a r)) [
    | inl e ↦
        let before : a < r = ltb→lt a r e in
        latest_below_step s ns path r (gone r before (omega arith))
        ∙ below_some s ns path v a r before at (λ i lo hi. gone i lo (omega arith))
    | inr e ↦
        let same : a ≡ r = ground arith in
        latest_here s ns path v r (subst (λ i. entry_at s ns path i ≡ some v) same at)
  ]

  -- The cursor stops at the entry itself, or else at the pair in front of where it would be.
  stops_at :
      (s : Db K) (ns path : Bytes) (r : ℕ)
      → lookup_history_at_revision s ns path r ≡ elim (entry_at s ns path r) [
        | none ↦ value_under (history_prefix ns path) (K.before s.history (history_key ns path r))
        | some v ↦ some v
      ]
  unfolding lookup_history_at_revision at_or_before elsewhere
  stops_at s ns path r = elim (Option-cases (entry_at s ns path r)) [
    | inl gone ↦ rw gone (
        back (K.seek s.history (history_key ns path r))
          (seek_absent K.bolt s.history (history_key ns path r) gone))
    | inr (v, at) ↦
        let (rest, there, onward) = seek_found K.bolt s.history (history_key ns path r) v at in
        let prefixed = history_key_prefix ns path r in
        let same = bytes_eq_refl (history_key ns path r) in rw at (ground arith)
  ]
    where
      back :
          (l : Pairs)
          → elsewhere (history_key ns path r) l ≡ true
          → value_under
              (history_prefix ns path)
              (at_or_before s (history_key ns path r) (history_prefix ns path) l)
            ≡ value_under (history_prefix ns path) (K.before s.history (history_key ns path r))
      back [] h = refl
      back ((k, v) ∷ l) h = ground arith

  -- A pair in front that is of this config is its latest entry below the revision.
  pub front_mine :
      (s : Db K) (ns path : Bytes) (r : ℕ) (j v : Bytes)
      → IsTidy s ns path
      → r < 2 ^ 64
      → K.before s.history (history_key ns path r) ≡ some (j, v)
      → has_prefix j (history_prefix ns path) ≡ true
      → (a : ℕ) × (a < r)
        × (j ≡ history_key ns path a)
        × (entry_at s ns path a ≡ some v)
        × ((i : ℕ) → a < i → i < r → entry_at s ns path i ≡ none)
  front_mine s ns path r j v tidy bound e mine =
      let (at, lower) = K.before_some s.history (history_key ns path r) j v e in
      let (a, small, name) = tidy j v at mine in
      let a_below : a < r = ltb→lt a r (
        sym (history_key_lt ns path a r small bound)
        ∙ subst (λ j. bytes_lt j (history_key ns path r) ≡ true) name lower) in
      (
        a,
        a_below,
        name,
        subst (λ j. K.get s.history j ≡ some v) name at,
        λ i lo hi.
            K.before_last s.history (history_key ns path r) j v (history_key ns path i) e
              (subst (λ j. bytes_lt j (history_key ns path i) ≡ true) (sym name)
                (in_order ns path a i lo (omega (arith, hi, bound))))
              (in_order ns path i r hi bound),
      )

  -- Where the pair in front is of another config, this one has no entry below the revision.
  pub front_other :
      (s : Db K) (ns path : Bytes) (r : ℕ) (j v : Bytes)
      → r < 2 ^ 64
      → K.before s.history (history_key ns path r) ≡ some (j, v)
      → has_prefix j (history_prefix ns path) ≡ false
      → (i : ℕ) → i < r
      → entry_at s ns path i ≡ none
  unfolding history_prefix history_key
  front_other s ns path r j v bound e other i h =
      elim (Bool-cases (bytes_lt j (history_key ns path i))) [
        | inl lower ↦
            K.before_last s.history (history_key ns path r) j v (history_key ns path i) e lower
              (in_order ns path i r h bound)
        | inr not_lower ↦ elim (Bool-cases (bytes_lt (history_key ns path i) j)) [
          | inl between ↦
              let lower = (K.before_some s.history (history_key ns path r) j v e).1 in
              absurd (
                cc (
                  other,
                  has_prefix-between (history_prefix ns path) (revision_bytes i) j
                      (revision_bytes r) between lower,
                ))
          | inr not_higher ↦
              let same = bytes_lt_total j (history_key ns path i) not_lower not_higher in
              absurd (cc (other, same, history_key_prefix ns path i))
        ]
      ]

  pub front_absent :
      (s : Db K) (ns path : Bytes) (r : ℕ)
      → r < 2 ^ 64
      → K.before s.history (history_key ns path r) ≡ none
      → (i : ℕ) → i < r
      → entry_at s ns path i ≡ none
  front_absent s ns path r bound e i h =
      K.before_none s.history (history_key ns path r) (history_key ns path i) e
        (in_order ns path i r h bound)

  -- The pair in front is the latest entry below the revision, if it is an entry of this config at all.
  front_is :
      (s : Db K) (ns path : Bytes) (r : ℕ)
      → IsTidy s ns path
      → r < 2 ^ 64
      → value_under (history_prefix ns path) (K.before s.history (history_key ns path r))
        ≡ latest_below s ns path r
  front_is s ns path r tidy bound =
      elim (Option-cases (K.before s.history (history_key ns path r))) [
        | inl e ↦
            ap (value_under (history_prefix ns path)) e
            ∙ sym (below_none s ns path r (front_absent s ns path r bound e))
        | inr ((j, v), e) ↦
            ap (value_under (history_prefix ns path)) e
            ∙ elim (Bool-cases (has_prefix j (history_prefix ns path))) [
              | inl mine ↦
                  let (a, a_below, name, at, between) =
                    front_mine s ns path r j v tidy bound e mine in
                  if_true _ _ _ mine ∙ sym (below_some s ns path v a r a_below at between)
              | inr other ↦
                  if_false _ _ _ other
                  ∙ sym (below_none s ns path r (front_other s ns path r j v bound e other))
            ]
      ]

  -- Where the history has under the prefix of a config only entries of that config, and the revision has
  -- 64 bits, a read at a revision finds the content that the latest history entry of the config, of that
  -- revision or before it, holds, and nothing if there is none.
  pub lookup_latest :
      (s : Db K) (ns path : Bytes) (r : ℕ)
      → IsTidy s ns path
      → r < 2 ^ 64
      → lookup_history_at_revision s ns path r ≡ latest s ns path r
  lookup_latest s ns path r tidy bound =
      stops_at s ns path r ∙ elim (Option-cases (entry_at s ns path r)) [
        | inl gone ↦
            rw gone (front_is s ns path r tidy bound ∙ sym (latest_below_step s ns path r gone))
        | inr (v, at) ↦ rw at (sym (latest_here s ns path v r at))
      ]
