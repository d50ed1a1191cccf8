-- ===== src/ConfigStore/Keys.antt =====
-- internal/storage/bbolt/config/keys.go: how a config, a revision and a history entry become keys.
pub mod Revision
pub mod Order
use elara.Prelude.{
  ℕ, zero, suc, ◌+◌, ◌*◌, ◌/◌, ◌%◌, ◌^◌, ◌<◌, ◌≤◌, Bytes, ◌==◌, ltb, bytes_eq, Bool, Option, none,
  some, List, [], ◌∷◌, ◌++◌, if◌then◌else◌, length, take,
}

abbrev pub key_sep : ℕ
key_sep = 0

abbrev pub revision_size : ℕ
revision_size = 8

-- "<ns>\x00<path>", the key of the buckets `meta` and `content`
unfoldable pub config_key : Bytes → Bytes → Bytes
config_key namespace path = namespace ++ key_sep ∷ path

-- bytes.Cut at the first separator
unfoldable pub cut : Bytes → Option (Bytes × Bytes)
cut [] = none
cut (c ∷ key) =
    let rest = cut key in
    if c == key_sep
    then some ([], key)
    else elim rest [ none ↦ none | some (before, after) ↦ some (c ∷ before, after) ]

unfoldable pub parse_config_key : Bytes → Bytes × Bytes
unfolding cut
parse_config_key key = elim (cut key) [ none ↦ ([], key) | some (ns, path) ↦ (ns, path) ]

-- `none` is Go's nil.
unfoldable pub config_key_prefix : Bytes → Bytes → Option Bytes
config_key_prefix namespace path_prefix =
    if bytes_eq namespace [] then none else some (namespace ++ key_sep ∷ path_prefix)

-- The `n` bytes of `r` in big-endian order.
unfoldable pub big_endian : ℕ → ℕ → Bytes
big_endian zero r = []
big_endian (suc n) r = big_endian n (r / 256) ++ (r % 256) ∷ []

unfoldable pub revision_bytes : ℕ → Bytes
unfolding big_endian
revision_bytes rev = big_endian revision_size rev

-- binary.BigEndian.Uint64, over what has been read so far
unfoldable pub big_endian_value : ℕ → Bytes → ℕ
big_endian_value acc [] = acc
big_endian_value acc (c ∷ b) = big_endian_value (acc * 256 + c) b

unfoldable pub parse_revision : Bytes → ℕ
unfolding big_endian_value
parse_revision b =
    if ltb (length b) revision_size then 0 else big_endian_value 0 (take revision_size b)

unfoldable pub history_prefix : Bytes → Bytes → Bytes
history_prefix namespace path = namespace ++ key_sep ∷ (path ++ key_sep ∷ [])

unfoldable pub history_key : Bytes → Bytes → ℕ → Bytes
unfolding history_prefix revision_bytes
history_key namespace path revision = history_prefix namespace path ++ revision_bytes revision
