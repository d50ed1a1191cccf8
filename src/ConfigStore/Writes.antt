-- ===== src/ConfigStore/Writes.antt =====
-- Create and Update: what each leaves in the buckets when it succeeds.
pub mod Put
pub mod Delete
pub mod Lock
use elara.Prelude.{
  ℕ, Bytes, bytes_eq, Option, none, some, ◌≡◌, refl, ap, if◌then◌else◌, arith, Bool, true, false,
  ◌∙◌, sym, ◌≢◌, inl, inr, subst,
}
use elara.Prelude.Outcome.{Outcome, ok, err, found_cases}
use elara.Domain.Failure.{Failure}
use elara.Domain.Config.{
  Config, EventType, event_created, event_updated, set_defaults, KvPair, event_deleted,
}
use elara.Domain.Row.{ConfigMeta, domain_to_config_meta}
use elara.Storage.Backend.{Backend}
use elara.Storage.Tx.{Run, bind_ok, refuse_if_ok, refuse_if, lift, pure_ok, ◌>>=◌, ◌>>◌, pure}
use elara.ConfigStore.Keys.{config_key, history_key, revision_bytes}
use elara.ConfigStore.Db.{
  Db, increment, sys_value, sys_revision_key, next_revision, write_config_entry, bytes_of,
  put_content, put_meta, write_history, write_changelog, validate_namespace_unlocked, find_meta,
  delete_content, delete_meta,
}
use elara.ConfigStore.Rows.{
  change_row, with_revision, with_entry, put_content_ok, put_meta_ok, write_history_ok,
  write_changelog_ok, next_revision_ok, validate_namespace_unlocked_ok, require_meta_ok,
  write_config_entry_ok, with_change,
}
use elara.ConfigStore.Expected.{new_config, next_config, stored_row}
use elara.ConfigStore.Write.{
  create_tx, update_config_tx, delete_config_tx, require_meta, generate_hash, exists, write_created,
  write_updated, created, updated, validate_update_preconditions,
}
use elara.ConfigStore.Etcd.{
  ExistingKey, resolve_existing_key, build_put_meta, build_prev_kv, check_put_allowed,
}
use elara.ConfigStore.EtcdWrite.{put_key_tx, write_put}

module _ {K : Backend} where
  -- `after` is `before` with one config written: its content, its row, one more history entry, one more
  -- change, and the next revision. Everything else is as it was.
  pub record Wrote (before after : Db K) (now : ℕ) (ns path content : Bytes) (m : ConfigMeta)
      (kind : EventType) : Type 0 where
    pub content_at :
        (j : Bytes)
        → K.get after.content j
          ≡ (if bytes_eq (config_key ns path) j then some content else K.get before.content j)
    pub meta_at :
        (j : Bytes)
        → K.get after.meta j ≡ (
            if bytes_eq (config_key ns path) j then some (K.encode_meta m) else K.get before.meta j)
    pub history_at :
        (j : Bytes)
        → K.get after.history j ≡ (
            if bytes_eq (history_key ns path m.revision) j
            then some content
            else K.get before.history j)
    pub changelog_at :
        (j : Bytes)
        → K.get after.changelog j ≡ (
            if bytes_eq (revision_bytes m.revision) j
            then some (K.encode_change (change_row now kind path ns m.version))
            else K.get before.changelog j)
    pub sys_at :
        (j : Bytes)
        → K.get after.sys j ≡ (
            if bytes_eq sys_revision_key j
            then some (revision_bytes m.revision)
            else K.get before.sys j)
    pub next : m.revision ≡ increment (sys_value before sys_revision_key)
    pub namespaces : after.namespaces ≡ before.namespaces
    pub lock_history : after.lock_history ≡ before.lock_history
    pub lock_changelog : after.lock_changelog ≡ before.lock_changelog

  pub written-Wrote :
      (s : Db K) {s' : Db K} (now : ℕ) (ns path content : Bytes) (m : ConfigMeta) (kind : EventType)
      → m.revision ≡ increment (sys_value s sys_revision_key)
      → s' ≡ with_entry now (config_key ns path) ns path content m kind (with_revision m.revision s)
      → Wrote s s' now ns path content m kind
  written-Wrote s now ns path content m kind e h = rw h (record {
    content_at = K.get-put s.content (config_key ns path) content;
    meta_at = K.get-put s.meta (config_key ns path) (K.encode_meta m);
    history_at = K.get-put s.history (history_key ns path m.revision) content;
    changelog_at =
        K.get-put s.changelog (revision_bytes m.revision)
          (K.encode_change (change_row now kind path ns m.version));
    sys_at = K.get-put s.sys sys_revision_key (revision_bytes m.revision);
    next = e;
    namespaces = refl;
    lock_history = refl;
    lock_changelog = refl;
  })

  created_after_checks :
      (now : ℕ) (cfg : Config) (s : Db K) {s' : Db K} {c : Config}
      → create_tx now cfg s ≡ (ok c, s')
      → (K.get s.meta (config_key cfg.namespace cfg.path) ≡ none)
        × (write_created now cfg s ≡ (ok c, s'))
  unfolding create_tx validate_namespace_unlocked
  created_after_checks now cfg s h = ground arith

  updated_after_checks :
      (now : ℕ) (cfg : Config) (s : Db K) {s' : Db K} {c : Config}
      → update_config_tx now cfg s ≡ (ok c, s')
      → (m : ConfigMeta) × (find_meta s (config_key cfg.namespace cfg.path) ≡ ok (some m))
        × (m.locked ≡ false)
        × (m.version ≡ cfg.version)
        × (write_updated now cfg m s ≡ (ok c, s'))
  unfolding update_config_tx validate_namespace_unlocked
  updated_after_checks now cfg s h =
      elim (found_cases (find_meta s (config_key cfg.namespace cfg.path))) [
        | inl (m, e) ↦ (m, e, ground arith, ground arith, ground arith)
        | inr other ↦ absurd (ground arith)
      ]

  -- The shared end of the three writes.
  entry_ok :
      (now : ℕ) (s t : Db K) {s' : Db K} {u : Unit {0}} (cfg : Config) (kind : EventType) (r : ℕ)
      → cfg.revision ≡ r
      → next_revision s ≡ (ok r, t)
      → write_config_entry now (config_key cfg.namespace cfg.path) cfg r kind t ≡ (ok u, s')
      → Wrote s s' now cfg.namespace cfg.path cfg.content (stored_row cfg) kind
  unfolding domain_to_config_meta
  entry_ok now s t cfg kind r e n h =
      let (is_next, stepped) = next_revision_ok s n in
      written-Wrote s now cfg.namespace cfg.path cfg.content (domain_to_config_meta cfg) kind
        (e ∙ is_next)
        (cc (
          stepped,
          e,
          write_config_entry_ok now (config_key cfg.namespace cfg.path) cfg r kind t e h,
        ))

  -- What a write of a config leaves, of the config that it returns.
  abbrev pub WroteConfig : Db K → Db K → ℕ → Config → EventType → Type 0
  WroteConfig s s' now c kind = Wrote s s' now c.namespace c.path c.content (stored_row c) kind

  stamped_ok :
      (now : ℕ) (key : Bytes) (stamp : ℕ → Config) (kind : EventType) (s : Db K) {s' : Db K}
      {c : Config}
      → ((r : ℕ) → (stamp r).revision ≡ r)
      → ((r : ℕ) → key ≡ config_key (stamp r).namespace (stamp r).path)
      → (next_revision >>= λ r. write_config_entry now key (stamp r) r kind >>= λ _. pure (stamp r))
          s
        ≡ (ok c, s')
      → (c ≡ stamp (increment (sys_value s sys_revision_key))) × WroteConfig s s' now c kind
  stamped_ok now key stamp kind s {s'} {c} at_revision at_key h =
      let (r, t, e1, h1) = bind_ok next_revision _ s h in
      let (u, t2, e2, h2) = bind_ok (write_config_entry now key (stamp r) r kind) _ t h1 in
      let (same_c, same_s) = pure_ok (stamp r) t2 h2 in
      let wrote : WroteConfig s t2 now (stamp r) kind =
        entry_ok now s t (stamp r) kind r (at_revision r) e1
          (subst (λ k. write_config_entry now k (stamp r) r kind t ≡ (ok u, t2)) (at_key r) e2) in
      (
        sym same_c ∙ ap stamp (next_revision_ok s e1).0,
        subst (λ d. WroteConfig s s' now d kind) same_c
            (subst (λ x. WroteConfig s x now (stamp r) kind) same_s wrote),
      )

  -- A successful Create returns the config with hash, version 1, times and the next revision; the key
  -- was free; and the state has exactly that config added.
  pub create_tx_ok :
      (now : ℕ) (cfg : Config) (s : Db K) {s' : Db K} {c : Config}
      → create_tx now cfg s ≡ (ok c, s')
      → (K.get s.meta (config_key cfg.namespace cfg.path) ≡ none)
        × (c ≡ new_config K.hash now cfg (increment (sys_value s sys_revision_key)))
        × WroteConfig s s' now c event_created
  unfolding write_created set_defaults
  create_tx_ok now cfg s h =
      let (free, rest) = created_after_checks now cfg s h in
      let (same, wrote) =
        stamped_ok now (config_key cfg.namespace cfg.path) (created K.hash now cfg) event_created s
          (λ r. refl) (λ r. refl) rest in
      (free, same, wrote)

  -- A successful Update found an unlocked row with the version that the caller expected; it returns the
  -- config with the next version and revision and the old creation fields; and the state has exactly that
  -- config written.
  pub update_config_tx_ok :
      (now : ℕ) (cfg : Config) (s : Db K) {s' : Db K} {c : Config}
      → update_config_tx now cfg s ≡ (ok c, s')
      → (m : ConfigMeta) × (find_meta s (config_key cfg.namespace cfg.path) ≡ ok (some m))
        × (m.locked ≡ false)
        × (m.version ≡ cfg.version)
        × (c ≡ next_config K.hash now cfg m (increment (sys_value s sys_revision_key)))
        × WroteConfig s s' now c event_updated
  unfolding write_updated
  update_config_tx_ok now cfg s h =
      let (m, found, unlocked, version, rest) = updated_after_checks now cfg s h in
      let (same, wrote) =
        stamped_ok now (config_key cfg.namespace cfg.path) (updated K.hash now cfg m) event_updated
          s (λ r. refl) (λ r. refl) rest in
      (m, found, unlocked, version, same, wrote)
