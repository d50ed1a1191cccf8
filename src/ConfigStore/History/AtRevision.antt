-- ===== src/ConfigStore/History/AtRevision.antt =====
-- internal/storage/bbolt/config/repository.go: GetAtRevision.
use elara.Prelude.{
  ℕ, Option, ◌^◌, ◌<◌, ◌≤◌, Bytes, has_prefix, not, length, drop, ◌≡◌, refl, sym, ap, ◌∙◌, subst,
  true, none, some, [], ◌∷◌, ◌++◌, arith, Bool-cases, Option-cases, inl, inr, ◌⊎◌, if_true,
  if_false, bytes_eq_refl, ltb, ltb→lt,
}
use elara.Prelude.Outcome.{Outcome, ok, err}
use elara.Domain.Failure.{Failure, resource_not_found}
use elara.Domain.Config.{HistoryEntry, EventType}
use elara.Domain.Row.{ChangeRow}
use elara.Storage.Bolt.Pairs.{Pairs}
use elara.Storage.Bolt.Seek.{elsewhere, seek_found, seek_absent}
use elara.Storage.Backend.{Backend}
use elara.ConfigStore.Keys.{history_key, history_prefix, parse_revision, revision_bytes}
use elara.ConfigStore.Keys.Revision.{parse-revision_bytes}
use elara.ConfigStore.Keys.Order.{history_key_prefix}
use elara.ConfigStore.Db.{Db}
use elara.ConfigStore.Etcd.{at_or_before}
use elara.ConfigStore.TimeTravel.{entry_at, IsTidy, front_mine, front_other, front_absent}
use elara.ConfigStore.History.{history_entry, found_entry, entry_at_revision}

drop_prefix : (p l : Bytes) → drop (length p) (p ++ l) ≡ l
drop_prefix [] l = refl
drop_prefix (c ∷ p) l = drop_prefix p l

-- The revision of a history key is read back.
parse-history_key :
    (ns path : Bytes) (r : ℕ)
    → r < 2 ^ 64
    → parse_revision (drop (length (history_prefix ns path)) (history_key ns path r)) ≡ r
unfolding history_key
parse-history_key ns path r bound =
    ap parse_revision (drop_prefix (history_prefix ns path) (revision_bytes r))
    ∙ parse-revision_bytes r bound

up_to : {P : ℕ → Type 0} (r : ℕ) → P r → ((i : ℕ) → i < r → P i) → (i : ℕ) → i ≤ r → P i
up_to {P} r at below i h = elim (Bool-cases (ltb i r)) [
  | inl lt ↦ below i (ltb→lt i r lt)
  | inr ge ↦ let same : r ≡ i = ground arith in subst P same at
]

abbrev change_kind : Option ChangeRow → EventType
change_kind none = 0
change_kind (some row) = row.kind

abbrev change_time : Option ChangeRow → ℕ
change_time none = 0
change_time (some row) = row.timestamp

abbrev decoded_change : (K : Backend) → Option Bytes → Option ChangeRow
decoded_change K none = none
decoded_change K (some b) = K.decode_change b

module _ {K : Backend} where
  -- The entry of a revision, field by field: the kind and the time are those of the change of that
  -- revision, where it can be read, and nothing otherwise.
  unfoldable pub expected_entry : Db K → ℕ → Bytes → HistoryEntry
  expected_entry s revision content = record {
    revision = revision;
    content = content;
    content_hash = K.hash content;
    kind = change_kind (decoded_change K (K.get s.changelog (revision_bytes revision)));
    timestamp = change_time (decoded_change K (K.get s.changelog (revision_bytes revision)));
  }

  -- The latest entry of the revision or of one before it, with its revision.
  abbrev pub IsLatest : Db K → Bytes → Bytes → ℕ → ℕ → Bytes → Type 0
  IsLatest s ns path r a v =
      (a ≤ r)
      × (entry_at s ns path a ≡ some v)
      × ((i : ℕ) → a < i → i ≤ r → entry_at s ns path i ≡ none)

  abbrev Decided : Db K → Bytes → Bytes → ℕ → Outcome Failure HistoryEntry → Type 0
  Decided s ns path r result =
      ((a : ℕ) × (v : Bytes) × IsLatest s ns path r a v × (result ≡ ok (expected_entry s a v)))
      ⊎ (((i : ℕ) → i ≤ r → entry_at s ns path i ≡ none) × (result ≡ err resource_not_found))

  history_entry-expected :
      (s : Db K) (a : ℕ) (v : Bytes) → history_entry s a v ≡ expected_entry s a v
  unfolding history_entry expected_entry
  history_entry-expected s a v = elim (Option-cases (K.get s.changelog (revision_bytes a))) [
    | inl gone ↦ rw gone refl
    | inr (b, at) ↦ elim (Option-cases (K.decode_change b)) [
      | inl broken ↦ rw (at, broken) refl
      | inr (row, decodes) ↦ rw (at, decodes) refl
    ]
  ]

  found_latest :
      (s : Db K) (ns path : Bytes) (r a : ℕ) (v : Bytes)
      → r < 2 ^ 64
      → IsLatest s ns path r a v
      → Decided s ns path r
          (found_entry s (history_prefix ns path) (some (history_key ns path a, v)))
  found_latest s ns path r a v bound (low, at, last) = inl (
    a,
    v,
    (low, at, last),
    if_false _ _ _ (ap not (history_key_prefix ns path a))
        ∙ ap (λ n. ok (history_entry s n v))
            (parse-history_key ns path a (omega (arith, low, bound)))
        ∙ ap (λ e. ok e) (history_entry-expected s a v),
  )

  before-Decided :
      (s : Db K) (ns path : Bytes) (r : ℕ)
      → IsTidy s ns path
      → r < 2 ^ 64
      → entry_at s ns path r ≡ none
      → Decided s ns path r
          (found_entry s (history_prefix ns path) (K.before s.history (history_key ns path r)))
  before-Decided s ns path r tidy bound gone =
      elim (Option-cases (K.before s.history (history_key ns path r))) [
        | inl e ↦ inr (
          up_to r gone (front_absent s ns path r bound e),
          ap (found_entry s (history_prefix ns path)) e,
        )
        | inr ((j, v), e) ↦ elim (Bool-cases (has_prefix j (history_prefix ns path))) [
          | inl mine ↦
              let (a, lt, name, at, between) = front_mine s ns path r j v tidy bound e mine in
              let last : (i : ℕ) → a < i → i ≤ r → entry_at s ns path i ≡ none = λ i lo hi.
                up_to {P = λ i. a < i → entry_at s ns path i ≡ none} r (λ lo. gone)
                  (λ i hi lo. between i lo hi) i hi lo in
              subst (Decided s ns path r)
                (sym (ap (found_entry s (history_prefix ns path)) (e ∙ ap (λ k. some (k, v)) name)))
                (found_latest s ns path r a v bound (omega (arith, lt), at, last))
          | inr other ↦ inr (
            up_to r gone (front_other s ns path r j v bound e other),
            ap (found_entry s (history_prefix ns path)) e ∙ if_true _ _ _ (ap not other),
          )
        ]
      ]

  -- Without an entry at the key, the cursor steps back.
  steps_back :
      (s : Db K) (ns path : Bytes) (r : ℕ) (l : Pairs)
      → elsewhere (history_key ns path r) l ≡ true
      → at_or_before s (history_key ns path r) (history_prefix ns path) l
        ≡ K.before s.history (history_key ns path r)
  unfolding at_or_before elsewhere
  steps_back s ns path r [] h = refl
  steps_back s ns path r ((k, v) ∷ l) h = ground arith

  stays :
      (s : Db K) (ns path v : Bytes) (r : ℕ) (l : Pairs)
      → at_or_before s
          (history_key ns path r)
          (history_prefix ns path)
          ((history_key ns path r, v) ∷ l)
        ≡ some (history_key ns path r, v)
  unfolding at_or_before
  stays s ns path v r l =
      let prefixed = history_key_prefix ns path r in
      let same = bytes_eq_refl (history_key ns path r) in ground arith

  -- Where the history has under the prefix of a config only entries of that config, GetAtRevision finds
  -- the latest entry of the config, of the given revision or before it, under its revision, with the
  -- digest of its content and with the kind and the time of its change, or ErrResourceNotFound where
  -- there is no such entry. Revisions are unsigned numbers of 64 bits here, so that a negative one comes
  -- after all that are not.
  pub entry_at_revision_decides :
      (s : Db K) (ns path : Bytes) (r : ℕ)
      → IsTidy s ns path
      → r < 2 ^ 64
      → ((a : ℕ) × (v : Bytes) × IsLatest s ns path r a v
          × (entry_at_revision s path ns r ≡ ok (expected_entry s a v)))
        ⊎ (((i : ℕ) → i ≤ r → entry_at s ns path i ≡ none)
            × (entry_at_revision s path ns r ≡ err resource_not_found))
  unfolding entry_at_revision
  entry_at_revision_decides s ns path r tidy bound = elim (Option-cases (entry_at s ns path r)) [
    | inl gone ↦
        subst (Decided s ns path r)
          (ap (found_entry s (history_prefix ns path)) (
            sym (
              steps_back s ns path r (K.seek s.history (history_key ns path r))
                (seek_absent K.bolt s.history (history_key ns path r) gone))))
          (before-Decided s ns path r tidy bound gone)
    | inr (v, at) ↦
        let (rest, there, onward) = seek_found K.bolt s.history (history_key ns path r) v at in
        subst (Decided s ns path r)
          (ap (found_entry s (history_prefix ns path)) (
            sym (
              ap (at_or_before s (history_key ns path r) (history_prefix ns path)) there
              ∙ stays s ns path v r rest)))
          (found_latest s ns path r r v bound
            (omega arith, at, λ i lo hi. absurd (omega (arith, lo, hi))))
  ]
