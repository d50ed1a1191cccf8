-- ===== src/ConfigStore/Expected.antt =====
-- What the writes of internal/storage/bbolt/config/repository.go are expected to return, field by field,
-- and which pairs bbolt has to take for them.
use elara.Prelude.{ℕ, ◌+◌, ◌%◌, ◌^◌, Bytes, ◌≡◌, false, none, some, []}
use elara.Domain.Config.{Config, Metadata, EventType}
use elara.Domain.Row.{ConfigMeta}
use elara.Storage.Backend.{Backend}
use elara.ConfigStore.Keys.{config_key, history_key, revision_bytes}
use elara.ConfigStore.Db.{sys_revision_key}
use elara.ConfigStore.Rows.{change_row}

abbrev metadata_or_empty : Metadata → Metadata
metadata_or_empty none = some []
metadata_or_empty (some m) = some m

-- A config after its creation: the first version, with revision and creation revision `r`.
abbrev pub new_config : (Bytes → Bytes) → ℕ → Config → ℕ → Config
new_config hash now cfg r = record {
  path = cfg.path;
  content = cfg.content;
  content_hash = hash cfg.content;
  format = cfg.format;
  version = 1;
  revision = r;
  create_revision = r;
  namespace = cfg.namespace;
  metadata = metadata_or_empty cfg.metadata;
  locked = cfg.locked;
  namespace_locked = cfg.namespace_locked;
  created_at = now;
  updated_at = now;
}

-- A config after an update of the row: one version on, with revision `r`, created when the row was.
abbrev pub next_config : (Bytes → Bytes) → ℕ → Config → ConfigMeta → ℕ → Config
next_config hash now cfg row r = record {
  path = cfg.path;
  content = cfg.content;
  content_hash = hash cfg.content;
  format = cfg.format;
  version = (row.version + 1) % 2 ^ 64;
  revision = r;
  create_revision = row.create_revision;
  namespace = cfg.namespace;
  metadata = cfg.metadata;
  locked = cfg.locked;
  namespace_locked = cfg.namespace_locked;
  created_at = row.created_at;
  updated_at = now;
}

-- The row of a config.
abbrev pub stored_row : Config → ConfigMeta
stored_row c = record {
  content_hash = c.content_hash;
  format = c.format;
  version = c.version;
  revision = c.revision;
  create_revision = c.create_revision;
  metadata = c.metadata;
  locked = c.locked;
  created_at = c.created_at;
  updated_at = c.updated_at;
}

-- bbolt takes the next revision and the change of a deletion or a write, of this version.
pub record AcceptsChange (K : Backend) (now r : ℕ) (ns path : Bytes) (kind : EventType)
    (version : ℕ) : Type 0 where
  pub at_sys : K.rejects sys_revision_key (revision_bytes r) ≡ false
  pub at_change :
      K.rejects (revision_bytes r) (K.encode_change (change_row now kind path ns version)) ≡ false

-- bbolt takes what one write of a config stores: the revision, the content, the row, the history entry
-- and the change.
pub record AcceptsWrite (K : Backend) (now r : ℕ) (ns path content : Bytes) (m : ConfigMeta)
    (kind : EventType) : Type 0 where
  pub change : AcceptsChange K now r ns path kind m.version
  pub at_content : K.rejects (config_key ns path) content ≡ false
  pub at_meta : K.rejects (config_key ns path) (K.encode_meta m) ≡ false
  pub at_history : K.rejects (history_key ns path r) content ≡ false
