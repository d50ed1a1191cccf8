-- ===== src/ConfigStore/History/Changes.antt =====
-- internal/storage/bbolt/config/repository.go: what ListChanges returns.
use elara.Prelude.{
  ℕ, zero, suc, ◌+◌, ◌%◌, ◌^◌, ◌<◌, ◌≤◌, Bytes, bytes_lt, ◌≡◌, refl, sym, ap, ◌∙◌, subst, Bool,
  true, false, ◌==◌, Option, some, List, [], ◌∷◌, length, any, All, arith, Bool-cases, Option-cases,
  inl, inr, bytes_eq_refl,
}
use elara.Prelude.Outcome.{Outcome, ok, err}
use elara.Domain.Failure.{Failure}
use elara.Domain.Config.{ChangelogEntry}
use elara.Domain.Row.{ChangeRow, change_row_to_domain}
use elara.Storage.Bolt.Pairs.{Pairs, find, below, ascending, find-rest, find-after}
use elara.Storage.Backend.{Backend}
use elara.Storage.Tx.{Ctx}
use elara.Storage.Tx.Laws.{with_read_tx-lift}
use elara.ConfigStore.Keys.{revision_bytes, parse_revision}
use elara.ConfigStore.Keys.Revision.{parse-revision_bytes}
use elara.ConfigStore.Keys.Order.{revision_bytes_lt}
use elara.ConfigStore.Db.{Db, increment}
use elara.ConfigStore.Write.{rollback_db}
use elara.ConfigStore.History.{change_loop, add_change, changes_after, list_changes}

-- The revisions rise, from `lo` on.
abbrev pub IsRising : ℕ → List ChangelogEntry → Type 0
IsRising lo [] = Unit
IsRising lo (e ∷ es) = (lo ≤ e.revision) × IsRising (e.revision + 1) es

-- The keys are revisions of 64 bits that rise, from `lo` on.
abbrev KeysRise : ℕ → Pairs → Type 0
KeysRise lo [] = Unit
KeysRise lo ((k, v) ∷ l) =
    (r : ℕ) × (lo ≤ r) × (r < 2 ^ 64) × (k ≡ revision_bytes r) × KeysRise (r + 1) l

abbrev pub IsRevisionKey : Bytes → Type 0
IsRevisionKey k = (r : ℕ) × (r < 2 ^ 64) × (k ≡ revision_bytes r)

keys_rise :
    (l : Pairs) (lo : ℕ)
    → ascending l ≡ true
    → ((k v : Bytes)
        → find k l ≡ some v
        → (r : ℕ) × (lo ≤ r) × (r < 2 ^ 64) × (k ≡ revision_bytes r))
    → KeysRise lo l
unfolding ascending find below
keys_rise [] lo a keys = tt
keys_rise ((k, v) ∷ l) lo a keys =
    let (r, from_lo, bound, at) = keys k v (ground (arith, bytes_eq_refl k)) in
    (
      r,
      from_lo,
      bound,
      at,
      keys_rise l (r + 1) (ground arith) λ j w found.
          let (q, from_lo', bound', at') = keys j w (find-rest k v j w l a found) in
          let later : bytes_lt (revision_bytes r) (revision_bytes q) ≡ true =
            subst (λ i. bytes_lt i (revision_bytes q) ≡ true) at
              (subst (λ i. bytes_lt k i ≡ true) at'
                (find-after k j w l (ground arith) (ground arith) found)) in
          (q, ground (arith, revision_bytes_lt r q bound bound'), bound', at'),
    )

added :
    (e : ChangelogEntry) (r : Outcome Failure (List ChangelogEntry)) (entries : List ChangelogEntry)
    → add_change e r ≡ ok entries
    → (l : List ChangelogEntry) × (r ≡ ok l) × (e ∷ l ≡ entries)
added e (ok l) entries h = (l, refl, cc h)
added e (err x) entries h = absurd (cc h)

change_loop-IsRising :
    (decode : Bytes → Option ChangeRow) (room lo : ℕ) (l : Pairs) (entries : List ChangelogEntry)
    → KeysRise lo l
    → change_loop decode room l ≡ ok entries
    → (length entries ≤ room) × IsRising lo entries
unfolding change_loop change_row_to_domain
change_loop-IsRising decode room lo [] entries keys h =
    let same : [] ≡ entries = cc h in
    subst (λ l. (length l ≤ room) × IsRising lo l) same (omega arith, tt)
change_loop-IsRising decode zero lo ((k, v) ∷ l) entries keys h =
    let same : [] ≡ entries = cc h in
    subst (λ l. (length l ≤ 0) × IsRising lo l) same (omega arith, tt)
change_loop-IsRising decode (suc room) lo ((k, v) ∷ l) entries (r, from_lo, bound, at, keys) h =
    elim (Option-cases (decode v)) [
      | inl broken ↦ absurd (ground arith)
      | inr (row, decodes) ↦
          let e = change_row_to_domain row (parse_revision k) in
          let is_r : parse_revision k ≡ r = ap parse_revision at ∙ parse-revision_bytes r bound in
          let (more, ran, same) = added e (change_loop decode room l) entries (ground arith) in
          let (short, rising) = change_loop-IsRising decode room (r + 1) l more keys ran in
          subst (λ l. (length l ≤ suc room) × IsRising lo l) same
            (
              omega (arith, short),
              (omega (arith, is_r, from_lo), subst (λ n. IsRising (n + 1) more) (sym is_r) rising),
            )
    ]

-- An entry with this revision is among the entries.
abbrev pub has_revision : ℕ → List ChangelogEntry → Bool
has_revision r entries = any (λ e. e.revision == r) entries

-- The limit is used up by entries of lower revisions.
abbrev pub IsFullBelow : ℕ → ℕ → List ChangelogEntry → Type 0
IsFullBelow limit r entries = (length entries ≡ limit) × All (λ e. e.revision < r) entries

next_small : (since : ℕ) → increment since < 2 ^ 64
next_small since = omega arith

module _ {K : Backend} where
  -- Every key of the changelog is a revision, as the writes make them.
  abbrev pub HasRevisionKeys : Db K → Type 0
  HasRevisionKeys s = (k b : Bytes) → K.get s.changelog k ≡ some b → IsRevisionKey k

  seek_get :
      (s : Db K) (since : ℕ) (k v : Bytes)
      → find k (K.seek s.changelog (revision_bytes (increment since))) ≡ some v
      → (bytes_lt k (revision_bytes (increment since)) ≡ false) × (K.get s.changelog k ≡ some v)
  seek_get s since k v found =
      let sought = K.find-seek s.changelog (revision_bytes (increment since)) k in
      elim (Bool-cases (bytes_lt k (revision_bytes (increment since)))) [
        | inl e ↦ absurd (ground arith)
        | inr e ↦ (e, ground arith)
      ]

  seek_keys :
      (s : Db K) (since : ℕ)
      → HasRevisionKeys s
      → KeysRise (increment since) (K.seek s.changelog (revision_bytes (increment since)))
  seek_keys s since keys =
      keys_rise (K.seek s.changelog (revision_bytes (increment since))) (increment since)
        (K.seek_ascending s.changelog (revision_bytes (increment since)))
        λ k v found.
          let (reached, there) = seek_get s since k v found in
          let (r, bound', at) = keys k v there in
          let not_before : bytes_lt (revision_bytes r) (revision_bytes (increment since)) ≡ false =
            subst (λ i. bytes_lt i (revision_bytes (increment since)) ≡ false) at reached in
          (
            r,
            ground (
              arith,
              not_before,
              revision_bytes_lt r (increment since) bound' (next_small since),
            ),
            bound',
            at,
          )

  -- Where every key of the changelog is a revision, ListChanges returns at most `limit` changes, in the
  -- order of their revisions, no revision twice, none below the successor of the given one. Revisions
  -- are unsigned numbers of 64 bits here: the successor of -1 is 0, and that of any other negative
  -- revision is above all revisions that are not negative.
  pub list_changes-IsRising :
      (ctx : Ctx) (s s' : Db K) (since limit : ℕ) (entries : List ChangelogEntry)
      → HasRevisionKeys s
      → list_changes ctx since limit s ≡ (ok entries, s')
      → (length entries ≤ limit) × IsRising ((since + 1) % 2 ^ 64) entries
  unfolding list_changes changes_after
  list_changes-IsRising ctx s s' since limit entries keys h =
      let (read, again) =
        with_read_tx-lift {B = Unit} rollback_db ctx (λ s. changes_after s since limit) s entries s'
          h in
      change_loop-IsRising K.decode_change limit (increment since)
        (K.seek s.changelog (revision_bytes (increment since))) entries (seek_keys s since keys)
        read
