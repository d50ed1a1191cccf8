-- ===== src/ConfigStore/Write.antt =====
-- internal/storage/bbolt/config/repository.go: Create, Update, Delete, LockConfig and UnlockConfig.
use elara.Prelude.{
  ℕ, Bytes, ◌==◌, not, bool_eq, Bool, true, false, Option, none, some, if◌then◌else◌,
}
use elara.Prelude.Outcome.{Outcome, ok, err}
use elara.Domain.Failure.{
  Failure, resource_not_found, resource_already_exists, locked, version_conflict,
}
use elara.Domain.Config.{
  Config, event_created, event_updated, event_deleted, event_locked, event_unlocked, set_defaults,
}
use elara.Domain.Row.{ConfigMeta}
use elara.Storage.Backend.{Backend}
use elara.Storage.Tx.{Run, Ctx, Rollback, ◌>>=◌, ◌>>◌, pure, fail, lift, gets, refuse_if, with_tx}
use elara.ConfigStore.Keys.{config_key}
use elara.ConfigStore.Db.{
  Db, increment, find_meta, validate_namespace_unlocked, put_meta, delete_content, delete_meta,
  next_revision, write_changelog, write_lock_history, write_config_entry,
}

abbrev is_some : {A : Type 0} → Option A → Bool
is_some none = false
is_some (some a) = true

abbrev found_or_fail : {S : Type 0} → Option ConfigMeta → Run S ConfigMeta
found_or_fail none = fail resource_not_found
found_or_fail (some m) = pure m

abbrev pub generate_hash : (Bytes → Bytes) → Config → Config
generate_hash hash cfg = record cfg { content_hash = hash cfg.content }

-- What Create makes of the config: hash, defaults, version, times and revision.
abbrev pub created : (Bytes → Bytes) → ℕ → Config → ℕ → Config
created hash now cfg r = record (set_defaults (generate_hash hash cfg)) {
  version = 1;
  created_at = now;
  updated_at = now;
  revision = r;
  create_revision = r;
}

-- What Update makes of the config and the row that it replaces.
abbrev pub updated : (Bytes → Bytes) → ℕ → Config → ConfigMeta → ℕ → Config
updated hash now cfg existing r = record (generate_hash hash cfg) {
  version = increment existing.version;
  created_at = existing.created_at;
  updated_at = now;
  create_revision = existing.create_revision;
  revision = r;
}

unfoldable pub validate_update_preconditions : ConfigMeta → Config → Outcome Failure (Unit {0})
validate_update_preconditions existing cfg =
    if existing.locked
    then err locked
    else if not (existing.version == cfg.version)
    then err (version_conflict cfg.version existing.version)
    else ok tt

module _ {K : Backend} where
  -- tx.Rollback: the state is what it was before the transaction.
  abbrev pub rollback_db : Rollback (Db K)
  rollback_db before after = before

  -- bbolt.Get, with ErrNotFound as storage.ErrResourceNotFound
  unfoldable pub require_meta : Bytes → Run (Db K) ConfigMeta
  require_meta key = do found ← λ s. lift (find_meta s key) s; found_or_fail found

  unfoldable pub exists : Bytes → Run (Db K) Bool
  exists key = gets (λ s. is_some (K.get s.meta key))

  -- The rest of Create, once nothing speaks against it.
  unfoldable pub write_created : ℕ → Config → Run (Db K) Config
  write_created now cfg = do
    revision ← next_revision
    let stamped = created K.hash now cfg revision
    write_config_entry now (config_key cfg.namespace cfg.path) stamped revision event_created
    pure stamped

  unfoldable pub create_tx : ℕ → Config → Run (Db K) Config
  unfolding exists
  create_tx now cfg = do
    validate_namespace_unlocked cfg.namespace
    taken ← exists (config_key cfg.namespace cfg.path)
    refuse_if taken resource_already_exists
    write_created now cfg

  unfoldable pub create : Ctx → Config → Run (Db K) Config
  create ctx cfg = with_tx rollback_db ctx (λ tx. create_tx tx.now cfg)

  unfoldable pub write_updated : ℕ → Config → ConfigMeta → Run (Db K) Config
  write_updated now cfg existing = do
    revision ← next_revision
    let stamped = updated K.hash now cfg existing revision
    write_config_entry now (config_key cfg.namespace cfg.path) stamped revision event_updated
    pure stamped

  unfoldable pub update_config_tx : ℕ → Config → Run (Db K) Config
  unfolding require_meta validate_update_preconditions
  update_config_tx now cfg = do
    validate_namespace_unlocked cfg.namespace
    existing ← require_meta (config_key cfg.namespace cfg.path)
    lift (validate_update_preconditions existing cfg)
    write_updated now cfg existing

  unfoldable pub update : Ctx → Config → Run (Db K) Config
  update ctx cfg = with_tx rollback_db ctx (λ tx. update_config_tx tx.now cfg)

  unfoldable pub write_deleted : ℕ → Bytes → Bytes → Run (Db K) ℕ
  write_deleted now path namespace = do
    revision ← next_revision
    delete_content (config_key namespace path)
    delete_meta (config_key namespace path)
    write_changelog now revision event_deleted path namespace 0
    pure revision

  unfoldable pub delete_config_tx : ℕ → Bytes → Bytes → Run (Db K) ℕ
  unfolding require_meta
  delete_config_tx now path namespace = do
    validate_namespace_unlocked namespace
    existing ← require_meta (config_key namespace path)
    refuse_if existing.locked locked
    write_deleted now path namespace

  unfoldable pub delete : Ctx → Bytes → Bytes → Run (Db K) ℕ
  delete ctx path namespace = with_tx rollback_db ctx (λ tx. delete_config_tx tx.now path namespace)

  unfoldable pub set_lock : ℕ → Bytes → Bytes → ConfigMeta → Bool → Run (Db K) Unit
  set_lock now namespace path m lock = do
    put_meta (config_key namespace path) (record m { locked = lock })
    write_lock_history now namespace path (if lock then event_locked else event_unlocked)

  unfoldable pub toggle_config_lock_tx : ℕ → Bytes → Bytes → Bool → Run (Db K) Unit
  unfolding require_meta
  toggle_config_lock_tx now namespace path lock = do
    validate_namespace_unlocked namespace
    m ← require_meta (config_key namespace path)
    if bool_eq m.locked lock then pure tt else set_lock now namespace path m lock

  unfoldable pub toggle_config_lock : Ctx → Bytes → Bytes → Bool → Run (Db K) Unit
  toggle_config_lock ctx namespace path lock =
      with_tx rollback_db ctx (λ tx. toggle_config_lock_tx tx.now namespace path lock)

  unfoldable pub lock_config : Ctx → Bytes → Bytes → Run (Db K) Unit
  lock_config ctx namespace path = toggle_config_lock ctx namespace path true

  unfoldable pub unlock_config : Ctx → Bytes → Bytes → Run (Db K) Unit
  unlock_config ctx namespace path = toggle_config_lock ctx namespace path false
