-- ===== src/KvService/Compare.antt =====
-- internal/usecase/config/service_txn.go: the conditions of a transaction's guard.
use elara.Prelude.{
  ℕ, Bytes, ◌==◌, int_lt, bytes_eq, bytes_lt, not, Bool, true, false, ◌&&◌, Option, none, some,
  List, [], ◌∷◌,
}
use elara.Domain.Config.{KvPair}

-- A number outside the enumeration is the last constructor.
pub data CompareTarget : Type 0 where
  by_version by_create_revision by_mod_revision by_value unknown_target : CompareTarget

pub data CompareResult : Type 0 where
  equal not_equal greater less unknown_relation : CompareResult

pub record KvCompare : Type 0 where
  pub start_ns : Bytes
  pub start_path : Bytes
  pub end_ns : Bytes
  pub end_path : Bytes
  pub target : CompareTarget
  pub relation : CompareResult
  pub want_revision : ℕ
  pub want_value : Bytes

unfoldable pub compare_int64 : CompareResult → ℕ → ℕ → Bool
unfolding int_lt
compare_int64 equal got want = got == want
compare_int64 not_equal got want = not (got == want)
compare_int64 greater got want = int_lt want got
compare_int64 less got want = int_lt got want
compare_int64 unknown_relation got want = false

unfoldable pub compare_bytes : CompareResult → Bytes → Bytes → Bool
unfolding bytes_eq bytes_lt
compare_bytes equal got want = bytes_eq got want
compare_bytes not_equal got want = not (bytes_eq got want)
compare_bytes greater got want = bytes_lt want got
compare_bytes less got want = bytes_lt got want
compare_bytes unknown_relation got want = false

-- The fields of an absent pair are 0 and nil.
abbrev absent : KvPair
absent = record {
  namespace = [];
  path = [];
  value = [];
  create_revision = 0;
  mod_revision = 0;
  version = 0;
}

compare_field : CompareTarget → KvCompare → KvPair → Bool
unfolding compare_int64 compare_bytes
compare_field by_version cmp kv = compare_int64 cmp.relation kv.version cmp.want_revision
compare_field by_create_revision cmp kv =
    compare_int64 cmp.relation kv.create_revision cmp.want_revision
compare_field by_mod_revision cmp kv = compare_int64 cmp.relation kv.mod_revision cmp.want_revision
compare_field by_value cmp kv = compare_bytes cmp.relation kv.value cmp.want_value
compare_field unknown_target cmp kv = false

unfoldable pub compare_kv : KvCompare → Option KvPair → Bool
unfolding compare_field
compare_kv cmp none = compare_field cmp.target cmp absent
compare_kv cmp (some kv) = compare_field cmp.target cmp kv

all_compare : KvCompare → List KvPair → Bool
unfolding compare_kv
all_compare cmp [] = true
all_compare cmp (kv ∷ kvs) = compare_kv cmp (some kv) && all_compare cmp kvs

-- The end of evalCompare, over the pairs that the range has found.
unfoldable pub compare_pairs : KvCompare → List KvPair → Bool
unfolding all_compare compare_kv
compare_pairs cmp [] = compare_kv cmp none
compare_pairs cmp (kv ∷ kvs) = all_compare cmp (kv ∷ kvs)
