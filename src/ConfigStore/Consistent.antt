-- ===== src/ConfigStore/Consistent.antt =====
-- The invariant of the buckets: every row is of a revision that has been given out, its config was
-- created no later, and the content bucket and the history agree on what it holds.
pub mod Kept
pub mod Writes
pub mod Range
use elara.Prelude.{
  ℕ, ◌+◌, ◌^◌, ◌<◌, ◌≤◌, Bytes, bytes_eq, bytes_eq_iff, bytes_eq_refl, bytes_eq_ne, ◌==◌, Option,
  none, some, ◌≡◌, refl, ap, if◌then◌else◌, arith, Bool, true, false, ◌∙◌, sym, ◌≢◌, inl, inr,
  subst, Bool-cases, List, [], ◌∷◌, ◌++◌, length, length-append, codes,
}
use mathlib.Core.List.{append_assoc}
use elara.Prelude.Outcome.{Outcome, ok, err}
use elara.Domain.Config.{EventType}
use elara.Domain.Row.{ConfigMeta}
use elara.Storage.Backend.{Backend, stored_meta}
use elara.ConfigStore.Keys.{
  config_key, history_key, history_prefix, revision_bytes, parse_revision, key_sep,
}
use elara.ConfigStore.Keys.Revision.{parse-revision_bytes}
use elara.ConfigStore.Keys.Order.{length-revision_bytes}
use elara.ConfigStore.Db.{Db, increment, sys_value, sys_revision_key, bytes_of}
use elara.ConfigStore.Writes.{Wrote}
use elara.ConfigStore.Writes.Delete.{Removed}

-- The history key of a config key.
abbrev pub entry_key : Bytes → ℕ → Bytes
entry_key key r = key ++ key_sep ∷ revision_bytes r

pub history_key-entry_key :
    (ns path : Bytes) (r : ℕ) → history_key ns path r ≡ entry_key (config_key ns path) r
unfolding history_key history_prefix config_key
history_key-entry_key ns path r = simp append_assoc

append_cancel_right : (x y u v : Bytes) → length u ≡ length v → x ++ u ≡ y ++ v → (x ≡ y) × (u ≡ v)
append_cancel_right [] [] u v l e = (refl, e)
append_cancel_right [] (d ∷ y) u v l e = absurd (omega (arith, ap length e, length-append y v))
append_cancel_right (c ∷ x) [] u v l e = absurd (omega (arith, ap length e, length-append x u))
append_cancel_right (c ∷ x) (d ∷ y) u v l e =
    let (same, rest) = append_cancel_right x y u v l (cc e) in (cc (e, same), rest)

-- Entries of different revisions have different keys.
pub entry_key_inj :
    (j k : Bytes) (a b : ℕ)
    → a < 2 ^ 64
    → b < 2 ^ 64
    → entry_key j a ≡ entry_key k b
    → (j ≡ k) × (a ≡ b)
entry_key_inj j k a b ha hb e =
    let (same, tails) =
      append_cancel_right j k (key_sep ∷ revision_bytes a) (key_sep ∷ revision_bytes b)
        (omega (arith, length-revision_bytes a, length-revision_bytes b)) e in
    (same, cc (tails, parse-revision_bytes a ha, parse-revision_bytes b hb))

module _ {K : Backend} where
  abbrev pub current : Db K → ℕ
  current s = sys_value s sys_revision_key

  pub record RowOk (s : Db K) (key : Bytes) (m : ConfigMeta) : Type 0 where
    pub given_out : m.revision ≤ current s
    pub created_before : m.create_revision ≤ m.revision
    pub content : Bytes
    pub stored : K.get s.content key ≡ some content
    pub recorded : K.get s.history (entry_key key m.revision) ≡ some content

  pub record IsConsistent (s : Db K) : Type 0 where
    pub row :
        (key b : Bytes) (m : ConfigMeta)
        → K.get s.meta key ≡ some b
        → K.decode_meta b ≡ some m
        → RowOk s key m

  pub current-Wrote :
      {s s' : Db K} {now : ℕ} {ns path content : Bytes} {m : ConfigMeta} {kind : EventType}
      → current s + 1 < 2 ^ 64
      → Wrote s s' now ns path content m kind
      → (current s' ≡ current s + 1) × (m.revision ≡ current s + 1)
  current-Wrote {s} {m} bound w =
      let at : m.revision ≡ current s + 1 = omega (arith, w.next) in
      (
        rw (w.sys_at sys_revision_key, bytes_eq_refl sys_revision_key)
            (parse-revision_bytes m.revision (omega arith) ∙ at),
        at,
      )

  pub current-Removed :
      {s s' : Db K} {now : ℕ} {ns path : Bytes} {r : ℕ}
      → current s + 1 < 2 ^ 64
      → Removed s s' now ns path r
      → (current s' ≡ current s + 1) × (r ≡ current s + 1)
  current-Removed {s} {r} bound w =
      let at : r ≡ current s + 1 = omega (arith, w.next) in
      (
        rw (w.sys_at sys_revision_key, bytes_eq_refl sys_revision_key)
            (parse-revision_bytes r (omega arith) ∙ at),
        at,
      )
