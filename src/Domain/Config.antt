-- ===== src/Domain/Config.antt =====
-- internal/domain/config.go and watch.go. Texts are byte strings, a time.Time is its reading in
-- nanoseconds, and an int64 revision or version stands as its uint64 bit pattern.
use elara.Prelude.{
  ℕ, Bytes, codes, bytes_eq, has_prefix, has_suffix, Bool, Option, none, some, List, [], ◌∷◌, ◌||◌,
  if◌then◌else◌,
}
use elara.Prelude.Outcome.{Outcome, ok, err}
use elara.Domain.Failure.{Failure, validation}

abbrev pub Format : Type 0
Format = Bytes

abbrev pub format_json : Format
format_json = codes "json"

abbrev pub format_yaml : Format
format_yaml = codes "yaml"

abbrev pub format_other : Format
format_other = codes "other"

-- `none` stands for NewInvalidFormatError.
unfoldable pub parse_format : Bytes → Option Format
parse_format s =
    if bytes_eq s (codes "json")
    then some format_json
    else if bytes_eq s (codes "yaml") || bytes_eq s (codes "yml")
    then some format_yaml
    else if bytes_eq s (codes "other")
    then some format_other
    else none

unfoldable pub detect_format_from_path : Bytes → Format
detect_format_from_path path =
    if has_suffix path (codes ".json")
    then format_json
    else if has_suffix path (codes ".yaml") || has_suffix path (codes ".yml")
    then format_yaml
    else format_other

-- strings.Contains(s, "//")
unfoldable pub has_double_slash : Bytes → Bool
has_double_slash [] = has_prefix [] (codes "//")
has_double_slash (c ∷ s) = has_prefix (c ∷ s) (codes "//") || has_double_slash s

unfoldable pub validate_path : Bytes → Outcome Failure (Unit {0})
unfolding has_double_slash
validate_path path =
    if bytes_eq path []
    then err validation
    else if has_prefix path (codes "/")
    then (if has_double_slash path
        then err validation
        else if has_suffix path (codes "/")
        then err validation
        else ok tt)
    else err validation

-- map[string]string, which Go tells apart from nil
abbrev pub Metadata : Type 0
Metadata = Option (List (Bytes × Bytes))

pub record Config : Type 0 where
  pub path : Bytes
  pub content : Bytes
  pub content_hash : Bytes
  pub format : Format
  pub version : ℕ
  pub revision : ℕ
  pub create_revision : ℕ
  pub namespace : Bytes
  pub metadata : Metadata
  pub locked : Bool
  pub namespace_locked : Bool
  pub created_at : ℕ
  pub updated_at : ℕ

pub record ConfigSummary : Type 0 where
  pub path : Bytes
  pub content_hash : Bytes
  pub format : Format
  pub version : ℕ
  pub revision : ℕ
  pub namespace : Bytes
  pub metadata : Metadata
  pub locked : Bool
  pub namespace_locked : Bool
  pub created_at : ℕ
  pub updated_at : ℕ

abbrev pub or_empty : Metadata → Metadata
or_empty none = some []
or_empty (some m) = some m

unfoldable pub set_defaults : Config → Config
set_defaults c = record c { metadata = or_empty c.metadata }

-- KVPair of the etcd-compatible interface
pub record KvPair : Type 0 where
  pub namespace : Bytes
  pub path : Bytes
  pub value : Bytes
  pub create_revision : ℕ
  pub mod_revision : ℕ
  pub version : ℕ

abbrev pub EventType : Type 0
EventType = ℕ

abbrev pub event_created : EventType
event_created = 1

abbrev pub event_updated : EventType
event_updated = 2

abbrev pub event_deleted : EventType
event_deleted = 3

abbrev pub event_locked : EventType
event_locked = 4

abbrev pub event_unlocked : EventType
event_unlocked = 5

abbrev pub event_namespace_locked : EventType
event_namespace_locked = 6

abbrev pub event_namespace_unlocked : EventType
event_namespace_unlocked = 7

pub record ChangelogEntry : Type 0 where
  pub revision : ℕ
  pub kind : EventType
  pub path : Bytes
  pub namespace : Bytes
  pub version : ℕ
  pub timestamp : ℕ

pub record HistoryEntry : Type 0 where
  pub revision : ℕ
  pub content : Bytes
  pub content_hash : Bytes
  pub kind : EventType
  pub timestamp : ℕ
