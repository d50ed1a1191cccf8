-- ===== src/ConfigStore/Writes/Delete.antt =====
-- Delete and the lock operations: what each leaves in the buckets when it succeeds.
use elara.Prelude.{ℕ, Bytes, bytes_eq, none, some, ◌≡◌, refl, if◌then◌else◌, arith, false, inl, inr}
use elara.Prelude.Outcome.{ok, found_cases}
use elara.Domain.Config.{event_deleted}
use elara.Domain.Row.{ConfigMeta}
use elara.Storage.Backend.{Backend}
use elara.ConfigStore.Keys.{config_key, revision_bytes}
use elara.ConfigStore.Db.{
  Db, increment, sys_value, sys_revision_key, next_revision, write_changelog,
  validate_namespace_unlocked, find_meta, delete_content, delete_meta,
}
use elara.ConfigStore.Rows.{change_row, with_revision, with_change}
use elara.ConfigStore.Write.{delete_config_tx, write_deleted}

module _ {K : Backend} where
  -- `after` is `before` with one config gone: its content and its row, and one more change at the next
  -- revision. The history stays.
  pub record Removed (before after : Db K) (now : ℕ) (ns path : Bytes) (r : ℕ) : Type 0 where
    pub content_at :
        (j : Bytes)
        → K.get after.content j
          ≡ (if bytes_eq (config_key ns path) j then none else K.get before.content j)
    pub meta_at :
        (j : Bytes)
        → K.get after.meta j
          ≡ (if bytes_eq (config_key ns path) j then none else K.get before.meta j)
    pub changelog_at :
        (j : Bytes)
        → K.get after.changelog j ≡ (
            if bytes_eq (revision_bytes r) j
            then some (K.encode_change (change_row now event_deleted path ns 0))
            else K.get before.changelog j)
    pub sys_at :
        (j : Bytes)
        → K.get after.sys j
          ≡ (if bytes_eq sys_revision_key j then some (revision_bytes r) else K.get before.sys j)
    pub next : r ≡ increment (sys_value before sys_revision_key)
    pub history : after.history ≡ before.history
    pub namespaces : after.namespaces ≡ before.namespaces
    pub lock_history : after.lock_history ≡ before.lock_history
    pub lock_changelog : after.lock_changelog ≡ before.lock_changelog

  abbrev pub without_entry : Bytes → Db K → Db K
  without_entry key s = record s { content = K.delete s.content key; meta = K.delete s.meta key }

  write_deleted_ok :
      (now : ℕ) (path ns : Bytes) (s : Db K) {s' : Db K} {r : ℕ}
      → write_deleted now path ns s ≡ (ok r, s')
      → (r ≡ increment (sys_value s sys_revision_key))
        × (s'
            ≡ with_change r
                (change_row now event_deleted path ns 0)
                (without_entry (config_key ns path) (with_revision r s)))
  unfolding write_deleted next_revision delete_content delete_meta write_changelog
  write_deleted_ok now path ns s h = ground arith

  removed :
      (now : ℕ) (path ns : Bytes) (s : Db K) {s' : Db K} (r : ℕ)
      → r ≡ increment (sys_value s sys_revision_key)
      → s'
        ≡ with_change r
            (change_row now event_deleted path ns 0)
            (without_entry (config_key ns path) (with_revision r s))
      → Removed s s' now ns path r
  removed now path ns s r e h = rw h (record {
    content_at = K.get-delete s.content (config_key ns path);
    meta_at = K.get-delete s.meta (config_key ns path);
    changelog_at =
        K.get-put s.changelog (revision_bytes r)
          (K.encode_change (change_row now event_deleted path ns 0));
    sys_at = K.get-put s.sys sys_revision_key (revision_bytes r);
    next = e;
    history = refl;
    namespaces = refl;
    lock_history = refl;
    lock_changelog = refl;
  })

  -- A successful Delete found an unlocked row; it removes content and row of the config, adds one change
  -- under the next revision, and leaves history, namespaces and locks as they were.
  pub delete_config_tx_ok :
      (now : ℕ) (path ns : Bytes) (s : Db K) {s' : Db K} {r : ℕ}
      → delete_config_tx now path ns s ≡ (ok r, s')
      → (m : ConfigMeta) × (find_meta s (config_key ns path) ≡ ok (some m))
        × (m.locked ≡ false)
        × Removed s s' now ns path r
  unfolding delete_config_tx validate_namespace_unlocked
  delete_config_tx_ok now path ns s {s'} {r} h =
      elim (found_cases (find_meta s (config_key ns path))) [
        | inl (m, e) ↦
            let rest : write_deleted now path ns s ≡ (ok r, s') = ground arith in
            let (is_next, left) = write_deleted_ok now path ns s rest in
            (m, e, ground arith, removed now path ns s r is_next left)
        | inr other ↦ absurd (ground arith)
      ]
