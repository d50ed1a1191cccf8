-- ===== src/ConfigStore/Writes/Lock.antt =====
-- LockConfig and UnlockConfig: what they leave in the buckets when they succeed.
use elara.Prelude.{
  ℕ, Bytes, bytes_eq, some, ◌≡◌, refl, if◌then◌else◌, arith, Bool, ◌≢◌, inl, inr, Bool-cases,
  bool_eq, ◌⊎◌,
}
use elara.Prelude.Outcome.{ok, found_cases}
use elara.Domain.Row.{ConfigMeta}
use elara.Storage.Backend.{Backend}
use elara.ConfigStore.Keys.{config_key, revision_bytes}
use elara.ConfigStore.Db.{
  Db, increment, sys_value, sys_revision_key, put_meta, validate_namespace_unlocked, find_meta,
  write_lock_history, sys_lock_seq_key,
}
use elara.ConfigStore.Write.{set_lock, toggle_config_lock_tx}

module _ {K : Backend} where
  -- `after` is `before` with the lock of one config set: its row differs in the lock alone, and the
  -- events go to the lock history, whose sequence is apart from the revisions.
  pub record LockSet (before after : Db K) (ns path : Bytes) (m : ConfigMeta) (lock : Bool)
      : Type 0 where
    pub meta_at :
        (j : Bytes)
        → K.get after.meta j ≡ (
            if bytes_eq (config_key ns path) j
            then some (K.encode_meta (record m { locked = lock }))
            else K.get before.meta j)
    pub revision : sys_value after sys_revision_key ≡ sys_value before sys_revision_key
    pub content : after.content ≡ before.content
    pub history : after.history ≡ before.history
    pub changelog : after.changelog ≡ before.changelog
    pub namespaces : after.namespaces ≡ before.namespaces

  set_lock_parts :
      (now : ℕ) (ns path : Bytes) (m : ConfigMeta) (lock : Bool) (s : Db K) {s' : Db K}
      {u : Unit {0}}
      → set_lock now ns path m lock s ≡ (ok u, s')
      → (s'.meta ≡ K.put s.meta (config_key ns path) (K.encode_meta (record m { locked = lock })))
        × (s'.sys
            ≡ K.put s.sys sys_lock_seq_key
                (revision_bytes (increment (sys_value s sys_lock_seq_key))))
        × (s'.content ≡ s.content)
        × (s'.history ≡ s.history)
        × (s'.changelog ≡ s.changelog)
        × (s'.namespaces ≡ s.namespaces)
  unfolding set_lock put_meta write_lock_history
  set_lock_parts now ns path m lock s h = ground arith

  set_lock_ok :
      (now : ℕ) (ns path : Bytes) (m : ConfigMeta) (lock : Bool) (s : Db K) {s' : Db K}
      {u : Unit {0}}
      → set_lock now ns path m lock s ≡ (ok u, s')
      → LockSet s s' ns path m lock
  unfolding bytes_eq
  set_lock_ok now ns path m lock s h =
      let (meta, sys, content, history, changelog, namespaces) =
        set_lock_parts now ns path m lock s h in
      record {
        meta_at = λ j.
            rw meta (
              K.get-put s.meta (config_key ns path) (K.encode_meta (record m { locked = lock })) j);
        revision =
            rw
              (
                sys,
                K.get-put s.sys sys_lock_seq_key
                    (revision_bytes (increment (sys_value s sys_lock_seq_key))) sys_revision_key,
              )
              refl;
        content = content;
        history = history;
        changelog = changelog;
        namespaces = namespaces;
      }

  -- A successful lock or unlock found the config; it changed nothing where the lock was as asked for,
  -- and set the lock otherwise.
  pub toggle_config_lock_tx_ok :
      (now : ℕ) (ns path : Bytes) (lock : Bool) (s : Db K) {s' : Db K} {u : Unit {0}}
      → toggle_config_lock_tx now ns path lock s ≡ (ok u, s')
      → (m : ConfigMeta) × (find_meta s (config_key ns path) ≡ ok (some m))
        × ((m.locked ≡ lock) × (s' ≡ s) ⊎ (m.locked ≢ lock) × LockSet s s' ns path m lock)
  unfolding toggle_config_lock_tx validate_namespace_unlocked
  toggle_config_lock_tx_ok now ns path lock s {s'} {u} h =
      elim (found_cases (find_meta s (config_key ns path))) [
        | inl (m, e) ↦ elim (Bool-cases (bool_eq m.locked lock)) [
          | inl same ↦ (m, e, inl (ground arith, ground arith))
          | inr differs ↦
              let rest : set_lock now ns path m lock s ≡ (ok u, s') = ground arith in
              (m, e, inr (λ q. ground arith, set_lock_ok now ns path m lock s rest))
        ]
        | inr other ↦ absurd (ground arith)
      ]
