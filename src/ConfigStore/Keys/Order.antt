-- ===== src/ConfigStore/Keys/Order.antt =====
-- Keys of the buckets: parsing gives back what was joined, and different configs and revisions have
-- different keys, in the order of their revisions.
use elara.Prelude.{
  ℕ, ◌^◌, ◌<◌, Bytes, ◌==◌, ltb, bytes_eq, bytes_lt, Bool, true, not, all, [], ◌∷◌, ◌++◌, arith,
  ◌≡◌, refl, ◌∙◌, ◌&&◌, bytes_lt-append, some, length, has_prefix, has_prefix-append,
}
use elara.ConfigStore.Keys.{
  cut, config_key, parse_config_key, history_key, history_prefix, revision_bytes, key_sep,
}
use elara.ConfigStore.Keys.Revision.{lt-big_endian, eq-big_endian, length-big_endian}

-- No byte of it is the separator.
abbrev pub no_sep : Bytes → Bool
no_sep s = all (λ c. not (c == key_sep)) s

cut-config_key : (ns path : Bytes) → no_sep ns ≡ true → cut (config_key ns path) ≡ some (ns, path)
unfolding cut config_key
cut-config_key [] path h = refl
cut-config_key (c ∷ ns) path h = ground (arith, cut-config_key ns path)

-- Parsing a config key gives back the namespace and the path that it was made of, when the namespace
-- has no NUL byte.
-- The key of a config splits into its namespace, if that has no separator, and its path.
pub parse-config_key :
    (ns path : Bytes) → no_sep ns ≡ true → parse_config_key (config_key ns path) ≡ (ns, path)
unfolding parse_config_key
parse-config_key ns path h = rw (cut-config_key ns path h, parse_config_key) refl

pub config_key_eq :
    (ns path ns' path' : Bytes)
    → no_sep ns ≡ true
    → no_sep ns' ≡ true
    → bytes_eq (config_key ns path) (config_key ns' path')
      ≡ (bytes_eq ns ns' && bytes_eq path path')
unfolding config_key bytes_eq
config_key_eq [] path [] path' h h' = refl
config_key_eq [] path (d ∷ ns') path' h h' = ground arith
config_key_eq (c ∷ ns) path [] path' h h' = ground arith
config_key_eq (c ∷ ns) path (d ∷ ns') path' h h' = ground (arith, config_key_eq ns path ns' path')

pub revision_bytes_eq :
    (a b : ℕ) → a < 2 ^ 64 → b < 2 ^ 64 → bytes_eq (revision_bytes a) (revision_bytes b) ≡ (a == b)
unfolding revision_bytes
revision_bytes_eq a b h g = eq-big_endian 8 a b h g

pub revision_bytes_lt :
    (a b : ℕ) → a < 2 ^ 64 → b < 2 ^ 64 → bytes_lt (revision_bytes a) (revision_bytes b) ≡ ltb a b
unfolding revision_bytes
revision_bytes_lt a b h g = lt-big_endian 8 a b h g

pub length-revision_bytes : (a : ℕ) → length (revision_bytes a) ≡ 8
unfolding revision_bytes
length-revision_bytes a = length-big_endian 8 a

-- The history entries of one config lie in the order of their revisions, of 64 bits.
pub history_key_lt :
    (ns path : Bytes) (a b : ℕ)
    → a < 2 ^ 64
    → b < 2 ^ 64
    → bytes_lt (history_key ns path a) (history_key ns path b) ≡ ltb a b
unfolding history_key revision_bytes
history_key_lt ns path a b h g =
    bytes_lt-append (history_prefix ns path) (revision_bytes a) (revision_bytes b)
    ∙ lt-big_endian 8 a b h g

bytes_eq-append : (p x y : Bytes) → bytes_eq (p ++ x) (p ++ y) ≡ bytes_eq x y
unfolding bytes_eq
bytes_eq-append [] x y = refl
bytes_eq-append (a ∷ p) x y = ground (arith, bytes_eq-append p x y)

pub history_key_eq :
    (ns path : Bytes) (a b : ℕ)
    → a < 2 ^ 64
    → b < 2 ^ 64
    → bytes_eq (history_key ns path a) (history_key ns path b) ≡ (a == b)
unfolding history_key
history_key_eq ns path a b h g =
    bytes_eq-append (history_prefix ns path) (revision_bytes a) (revision_bytes b)
    ∙ revision_bytes_eq a b h g

pub history_key_prefix :
    (ns path : Bytes) (a : ℕ) → has_prefix (history_key ns path a) (history_prefix ns path) ≡ true
unfolding history_key
history_key_prefix ns path a = has_prefix-append (history_prefix ns path) (revision_bytes a)
