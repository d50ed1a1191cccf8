-- ===== src/ConfigStore/Decisions.antt =====
-- internal/storage/bbolt/config: on which states the writes succeed, and which error they end with
-- otherwise, where bbolt takes the pairs that they write.
use elara.Prelude.{
  ℕ, Bytes, ◌==◌, ◌≡◌, [], Option, none, some, if◌then◌else◌, arith, Option-cases, inl, inr,
}
use elara.Prelude.Outcome.{Outcome, ok, err, found_cases}
use elara.Domain.Failure.{
  Failure, resource_not_found, resource_already_exists, locked, version_conflict,
}
use elara.Domain.Config.{
  Config, KvPair, EventType, event_created, event_updated, event_deleted, set_defaults,
}
use elara.Domain.Row.{ConfigMeta, domain_to_config_meta}
use elara.Storage.Backend.{Backend}
use elara.ConfigStore.Keys.{config_key}
use elara.ConfigStore.Expected.{new_config, next_config, AcceptsWrite, AcceptsChange}
use elara.ConfigStore.Db.{
  Db, increment, sys_value, sys_revision_key, find_meta, validate_namespace_unlocked, next_revision,
  write_config_entry, bytes_of, put_content, put_meta, delete_content, delete_meta, write_history,
  write_changelog,
}
use elara.ConfigStore.Write.{
  create_tx, write_created, update_config_tx, write_updated, delete_config_tx, write_deleted,
  require_meta, exists, validate_update_preconditions,
}
use elara.ConfigStore.Etcd.{resolve_existing_key, build_put_meta, check_put_allowed, kv_pair}
use elara.ConfigStore.EtcdWrite.{put_key_tx, write_put}

-- The order of the checks of Create, and what it returns.
abbrev pub create_decision :
    Outcome Failure (Unit {0}) → Option Bytes → Config → Outcome Failure Config
create_decision (err e) row c = err e
create_decision (ok u) (some b) c = err resource_already_exists
create_decision (ok u) none c = ok c

-- The checks that Update and Delete make of the row: it is there, and passes a test.
abbrev pub row_decision :
    {A : Type 0}
    → Outcome Failure (Unit {0})
    → Outcome Failure (Option ConfigMeta)
    → (ConfigMeta → Outcome Failure A)
    → Outcome Failure A
row_decision (err e) found test = err e
row_decision (ok u) (err e) test = err e
row_decision (ok u) (ok none) test = err resource_not_found
row_decision (ok u) (ok (some m)) test = test m

abbrev pub update_test : ℕ → (ConfigMeta → Config) → ConfigMeta → Outcome Failure Config
update_test version result m =
    if m.locked
    then err locked
    else if m.version == version
    then ok (result m)
    else err (version_conflict version m.version)

-- The checks of PutKey: an absent row is as good as an unlocked one.
abbrev pub put_decision :
    {A : Type 0}
    → Outcome Failure (Option ConfigMeta)
    → Outcome Failure (Unit {0})
    → (Option ConfigMeta → A)
    → Outcome Failure A
put_decision (err e) unlocked result = err e
put_decision (ok found) (err e) result = err e
put_decision (ok none) (ok u) result = ok (result none)
put_decision (ok (some m)) (ok u) result = if m.locked then err locked else ok (result (some m))

abbrev pub delete_test : ℕ → ConfigMeta → Outcome Failure ℕ
delete_test revision m = if m.locked then err locked else ok revision

-- The row that a put stores, and the kind of its change.
abbrev pub put_row :
    (K : Backend) → ℕ → Bytes → Bytes → ℕ → Option ConfigMeta → ConfigMeta × EventType
put_row K now path value r none = build_put_meta K now path value r none
put_row K now path value r (some m) =
    build_put_meta K now path value r (some (record { meta = m; prev_value = [] }))

-- bbolt takes the config that a write returns.
abbrev pub AcceptsConfig : (K : Backend) → ℕ → Config → EventType → Type 0
AcceptsConfig K now c kind =
    AcceptsWrite K now c.revision c.namespace c.path c.content (domain_to_config_meta c) kind

module _ {K : Backend} where
  -- What a put returns of the row that it replaces.
  abbrev pub put_returns : Bytes → Bytes → Db K → Option ConfigMeta → Option KvPair × ℕ
  put_returns ns path s none = (none, increment (sys_value s sys_revision_key))
  put_returns ns path s (some m) = (
    some (record {
      namespace = ns;
      path = path;
      value = bytes_of (K.get s.content (config_key ns path));
      create_revision = m.create_revision;
      mod_revision = m.revision;
      version = m.version;
    }),
    increment (sys_value s sys_revision_key),
  )

  -- The revision of the next write.
  abbrev pub next_of : Db K → ℕ
  next_of s = increment (sys_value s sys_revision_key)

  created_result :
      (now : ℕ) (cfg : Config) (s : Db K)
      → AcceptsConfig K now (new_config K.hash now cfg (next_of s)) event_created
      → (write_created now cfg s).0 ≡ ok (new_config K.hash now cfg (next_of s))
  unfolding write_created next_revision write_config_entry put_content put_meta write_history
      write_changelog set_defaults domain_to_config_meta
  created_result now cfg s takes = simp (
    takes.change.at_sys, takes.change.at_change, takes.at_content, takes.at_meta, takes.at_history,
  )

  updated_result :
      (now : ℕ) (cfg : Config) (m : ConfigMeta) (s : Db K)
      → AcceptsConfig K now (next_config K.hash now cfg m (next_of s)) event_updated
      → (write_updated now cfg m s).0 ≡ ok (next_config K.hash now cfg m (next_of s))
  unfolding write_updated next_revision write_config_entry put_content put_meta write_history
      write_changelog domain_to_config_meta
  updated_result now cfg m s takes = simp (
    takes.change.at_sys, takes.change.at_change, takes.at_content, takes.at_meta, takes.at_history,
  )

  deleted_result :
      (now : ℕ) (path ns : Bytes) (s : Db K)
      → AcceptsChange K now (next_of s) ns path event_deleted 0
      → (write_deleted now path ns s).0 ≡ ok (next_of s)
  unfolding write_deleted next_revision delete_content delete_meta write_changelog
  deleted_result now path ns s takes = simp (takes.at_sys, takes.at_change)

  -- Where bbolt takes the pairs that a Create would write, Create fails exactly with the error of the
  -- check of the namespace, or with ErrResourceAlreadyExists where the key has a row, and succeeds
  -- otherwise with the config of version 1 under the next revision.
  pub create_decides :
      (now : ℕ) (cfg : Config) (s : Db K)
      → AcceptsConfig K now (new_config K.hash now cfg (next_of s)) event_created
      → (create_tx now cfg s).0
        ≡ create_decision
            (validate_namespace_unlocked cfg.namespace s).0
            (K.get s.meta (config_key cfg.namespace cfg.path))
            (new_config K.hash now cfg (next_of s))
  unfolding create_tx exists validate_namespace_unlocked
  create_decides now cfg s takes =
      let written = created_result now cfg s takes in
      elim (Option-cases (K.get s.meta (config_key cfg.namespace cfg.path))) [
        | inl gone ↦ ground arith
        | inr (b, at) ↦ ground arith
      ]

  -- Where bbolt takes the pairs that an Update of the row would write, Update fails exactly with the
  -- error of the check of the namespace, of reading the row, with ErrResourceNotFound, with ErrLocked, or
  -- with the conflict of the two versions, in this order, and succeeds otherwise with the config of the
  -- next version under the next revision.
  pub update_decides :
      (now : ℕ) (cfg : Config) (s : Db K)
      → ((m : ConfigMeta)
          → find_meta s (config_key cfg.namespace cfg.path) ≡ ok (some m)
          → AcceptsConfig K now (next_config K.hash now cfg m (next_of s)) event_updated)
      → (update_config_tx now cfg s).0
        ≡ row_decision
            (validate_namespace_unlocked cfg.namespace s).0
            (find_meta s (config_key cfg.namespace cfg.path))
            (update_test cfg.version (λ m. next_config K.hash now cfg m (next_of s)))
  unfolding update_config_tx require_meta validate_namespace_unlocked validate_update_preconditions
  update_decides now cfg s takes =
      elim (found_cases (find_meta s (config_key cfg.namespace cfg.path))) [
        | inl (m, e) ↦ let written = updated_result now cfg m s (takes m e) in ground arith
        | inr (inl e) ↦ ground arith
        | inr (inr (x, e)) ↦ ground arith
      ]

  -- Where bbolt takes the next revision and the change of the deletion, Delete fails exactly with the
  -- error of the check of the namespace, of reading the row, with ErrResourceNotFound or with ErrLocked,
  -- in this order, and succeeds otherwise with the next revision.
  pub delete_decides :
      (now : ℕ) (path ns : Bytes) (s : Db K)
      → AcceptsChange K now (next_of s) ns path event_deleted 0
      → (delete_config_tx now path ns s).0
        ≡ row_decision
            (validate_namespace_unlocked ns s).0
            (find_meta s (config_key ns path))
            (delete_test (next_of s))
  unfolding delete_config_tx require_meta validate_namespace_unlocked
  delete_decides now path ns s takes = elim (found_cases (find_meta s (config_key ns path))) [
    | inl (m, e) ↦ let written = deleted_result now path ns s takes in ground arith
    | inr (inl e) ↦ ground arith
    | inr (inr (x, e)) ↦ ground arith
  ]

  -- bbolt takes what a put stores over the row that was found.
  abbrev pub AcceptsPut : ℕ → Bytes → Bytes → Bytes → Db K → Option ConfigMeta → Type 0
  AcceptsPut now ns path value s found =
      let row = put_row K now path value (next_of s) found in
      AcceptsWrite K now (next_of s) ns path value row.0 row.1

  put_new_result :
      (now : ℕ) (ns path value : Bytes) (s : Db K)
      → AcceptsPut now ns path value s none
      → (write_put now ns path value none s).0 ≡ ok (none, next_of s)
  unfolding write_put next_revision put_content put_meta write_history write_changelog
      build_put_meta
  put_new_result now ns path value s takes = simp (
    takes.change.at_sys, takes.change.at_change, takes.at_content, takes.at_meta, takes.at_history,
  )

  put_over_result :
      (now : ℕ) (ns path value old : Bytes) (m : ConfigMeta) (s : Db K)
      → AcceptsPut now ns path value s (some m)
      → (write_put now ns path value (some (record { meta = m; prev_value = old })) s).0
        ≡ ok (some (kv_pair ns path m (old, m.revision)), next_of s)
  unfolding write_put next_revision put_content put_meta write_history write_changelog
      build_put_meta
  put_over_result now ns path value old m s takes = simp (
    takes.change.at_sys, takes.change.at_change, takes.at_content, takes.at_meta, takes.at_history,
  )

  -- Where bbolt takes the pairs that a put over what is found would write, PutKey fails exactly with the
  -- error of reading the row, of the check of the namespace, or with ErrLocked, in this order, and
  -- succeeds otherwise with the pair that was there and the next revision.
  pub put_decides :
      (now : ℕ) (ns path value : Bytes) (s : Db K)
      → ((found : Option ConfigMeta)
          → find_meta s (config_key ns path) ≡ ok found
          → AcceptsPut now ns path value s found)
      → (put_key_tx now ns path value s).0
        ≡ put_decision
            (find_meta s (config_key ns path))
            (validate_namespace_unlocked ns s).0
            (put_returns ns path s)
  unfolding put_key_tx resolve_existing_key check_put_allowed validate_namespace_unlocked
  put_decides now ns path value s takes = elim (found_cases (find_meta s (config_key ns path))) [
    | inl (m, e) ↦
        let old = bytes_of (K.get s.content (config_key ns path)) in
        let written = put_over_result now ns path value old m s (takes (some m) e) in ground arith
    | inr (inl e) ↦ let written = put_new_result now ns path value s (takes none e) in ground arith
    | inr (inr (x, e)) ↦ ground arith
  ]
