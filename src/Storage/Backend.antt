-- ===== src/Storage/Backend.antt =====
-- What the repositories are given: the key-value library, and the encoders of Go's standard
-- library that their rows go through (encoding/json, crypto/sha256 with encoding/hex).
use elara.Prelude.{Bytes, ◌≡◌, Option, none, some, [], ◌∷◌}
use elara.Storage.Bolt.Api.{Bolt}
use elara.Domain.Config.{Metadata, format_json, format_yaml, format_other}
use elara.Domain.Row.{ConfigMeta, ChangeRow, LockRow, NamespaceMeta}

-- `omitempty`: an empty map is not written, and reads back as nil.
abbrev pub omit_empty : Metadata → Metadata
omit_empty none = none
omit_empty (some []) = none
omit_empty (some (p ∷ m)) = some (p ∷ m)

-- `utf8` is what encoding/json makes of a string: bytes that are no UTF-8 are replaced. All other
-- fields of a row come back as they were written.
abbrev pub stored_meta : (Bytes → Bytes) → (Metadata → Metadata) → ConfigMeta → ConfigMeta
stored_meta utf8 utf8_map m = record m {
  content_hash = utf8 m.content_hash;
  format = utf8 m.format;
  metadata = utf8_map (omit_empty m.metadata);
}

abbrev pub stored_change : (Bytes → Bytes) → ChangeRow → ChangeRow
stored_change utf8 e = record e { path = utf8 e.path; namespace = utf8 e.namespace }

abbrev pub stored_namespace : (Bytes → Bytes) → NamespaceMeta → NamespaceMeta
stored_namespace utf8 m = record m { description = utf8 m.description }

pub record Backend : Type 1 where
  pub bolt : Bolt
  pub open bolt use *
  -- computeHash: sha256, in hexadecimal
  pub hash : Bytes → Bytes
  pub utf8 : Bytes → Bytes
  pub utf8_map : Metadata → Metadata
  pub encode_meta : ConfigMeta → Bytes
  pub decode_meta : Bytes → Option ConfigMeta
  pub encode_change : ChangeRow → Bytes
  pub decode_change : Bytes → Option ChangeRow
  pub encode_lock : LockRow → Bytes
  pub decode_lock : Bytes → Option LockRow
  pub encode_namespace : NamespaceMeta → Bytes
  pub decode_namespace : Bytes → Option NamespaceMeta
  pub decode-encode_meta :
      (m : ConfigMeta) → decode_meta (encode_meta m) ≡ some (stored_meta utf8 utf8_map m)
  pub decode-encode_change :
      (e : ChangeRow) → decode_change (encode_change e) ≡ some (stored_change utf8 e)
  pub decode-encode_lock : (e : LockRow) → decode_lock (encode_lock e) ≡ some e
  pub decode-encode_namespace :
      (m : NamespaceMeta) → decode_namespace (encode_namespace m) ≡ some (stored_namespace utf8 m)
  -- A hexadecimal digest and the three format names are ASCII.
  pub utf8-hash : (c : Bytes) → utf8 (hash c) ≡ hash c
  pub utf8-json : utf8 format_json ≡ format_json
  pub utf8-yaml : utf8 format_yaml ≡ format_yaml
  pub utf8-other : utf8 format_other ≡ format_other
