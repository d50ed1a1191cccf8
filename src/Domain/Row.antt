-- ===== src/Domain/Row.antt =====
-- internal/storage/internal: the rows that the buckets hold as JSON, and their conversions.
use elara.Prelude.{ℕ, Bytes, Bool, false, Option, none, some}
use elara.Domain.Config.{
  Format, Metadata, Config, ConfigSummary, ChangelogEntry, parse_format, format_other, or_empty,
}

pub record ConfigMeta : Type 0 where
  pub content_hash : Bytes
  pub format : Bytes
  pub version : ℕ
  pub revision : ℕ
  pub create_revision : ℕ
  pub metadata : Metadata
  pub locked : Bool
  pub created_at : ℕ
  pub updated_at : ℕ

pub record ChangeRow : Type 0 where
  pub kind : ℕ
  pub path : Bytes
  pub namespace : Bytes
  pub version : ℕ
  pub timestamp : ℕ

pub record LockRow : Type 0 where
  pub kind : ℕ
  pub timestamp : ℕ

pub record NamespaceMeta : Type 0 where
  pub description : Bytes
  pub locked : Bool
  pub created_at : ℕ
  pub updated_at : ℕ

unfoldable pub domain_to_config_meta : Config → ConfigMeta
domain_to_config_meta c = record {
  content_hash = c.content_hash;
  format = c.format;
  version = c.version;
  revision = c.revision;
  create_revision = c.create_revision;
  metadata = c.metadata;
  locked = c.locked;
  created_at = c.created_at;
  updated_at = c.updated_at;
}

abbrev pub format_or_other : Option Format → Format
format_or_other none = format_other
format_or_other (some f) = f

unfoldable pub config_meta_to_domain : ConfigMeta → Bytes → Bytes → Bytes → Config
config_meta_to_domain m content path namespace = record {
  path = path;
  content = content;
  content_hash = m.content_hash;
  format = format_or_other (parse_format m.format);
  version = m.version;
  revision = m.revision;
  create_revision = m.create_revision;
  namespace = namespace;
  metadata = or_empty m.metadata;
  locked = m.locked;
  namespace_locked = false;
  created_at = m.created_at;
  updated_at = m.updated_at;
}

unfoldable pub config_meta_to_summary : ConfigMeta → Bytes → Bytes → ConfigSummary
config_meta_to_summary m path namespace = record {
  path = path;
  content_hash = m.content_hash;
  format = format_or_other (parse_format m.format);
  version = m.version;
  revision = m.revision;
  namespace = namespace;
  metadata = or_empty m.metadata;
  locked = m.locked;
  namespace_locked = false;
  created_at = m.created_at;
  updated_at = m.updated_at;
}

unfoldable pub change_row_to_domain : ChangeRow → ℕ → ChangelogEntry
change_row_to_domain e revision = record {
  revision = revision;
  kind = e.kind;
  path = e.path;
  namespace = e.namespace;
  version = e.version;
  timestamp = e.timestamp;
}
