-- ===== src/EtcdKey.antt =====
-- internal/handler/etcdv3/keyencoding.go: the keys of etcd as namespaces and paths.
pub mod RoundTrip
pub mod Order
use elara.Prelude.{
  ℕ, Bytes, bytes_eq, has_prefix, ◌==◌, not, Bool, Option, none, some, List, [], ◌∷◌, ◌++◌,
  if◌then◌else◌,
}

abbrev pub slash : ℕ
slash = 47

-- The bytes in front of the first slash, and the rest from it on: bytes.IndexByte
unfoldable pub split_at_slash : Bytes → Option (Bytes × Bytes)
split_at_slash [] = none
split_at_slash (c ∷ s) =
    let rest = split_at_slash s in
    if c == slash
    then some ([], c ∷ s)
    else elim rest [ none ↦ none | some (before, onward) ↦ some (c ∷ before, onward) ]

-- No namespace is empty.
abbrev named : Bytes → Bytes → Option (Bytes × Bytes)
named [] path = none
named (c ∷ ns) path = some (c ∷ ns, path)

abbrev split_rest : Bytes → Option (Bytes × Bytes) → Option (Bytes × Bytes)
split_rest rest none = named rest (slash ∷ [])
split_rest rest (some (ns, path)) = named ns path

-- SplitKey, with none for ok=false
unfoldable pub split_key : Bytes → Option (Bytes × Bytes)
unfolding split_at_slash
split_key [] = none
split_key (c ∷ rest) = if c == slash then split_rest rest (split_at_slash rest) else none

unfoldable pub join_key : Bytes → Bytes → Bytes
unfolding has_prefix
join_key namespace path =
    slash ∷ (namespace ++ (if has_prefix path (slash ∷ []) then path else slash ∷ path))

pub record EtcdRange : Type 0 where
  pub start_ns : Bytes
  pub start_path : Bytes
  pub end_ns : Bytes
  pub end_path : Bytes

abbrev range_of : Bytes × Bytes → Bytes × Bytes → EtcdRange
range_of (start_ns, start_path) (end_ns, end_path) = record {
  start_ns = start_ns;
  start_path = start_path;
  end_ns = end_ns;
  end_path = end_path;
}

abbrev range_to : Bytes × Bytes → Option (Bytes × Bytes) → Option EtcdRange
range_to start none = none
range_to start (some end) = some (range_of start end)

abbrev split_end : Bytes → Bytes × Bytes → Option EtcdRange
split_end range_end start =
    if bytes_eq range_end []
    then some (range_of start ([], []))
    else if bytes_eq range_end (0 ∷ [])
    then some (range_of start (0 ∷ [], []))
    else range_to start (split_key range_end)

-- SplitRange, with none for ok=false
unfoldable pub split_range : Bytes → Bytes → Option EtcdRange
unfolding split_key bytes_eq
split_range key range_end = elim (split_key key) [
  | none ↦ none
  | some start ↦ split_end range_end start
]
