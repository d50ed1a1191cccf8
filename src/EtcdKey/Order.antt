-- ===== src/EtcdKey/Order.antt =====
-- internal/handler/etcdv3/keyencoding.go with internal/storage/bbolt/config/keys.go: the order of the
-- keys of etcd and that of the buckets.
use elara.Prelude.{
  ℕ, ◌<◌, Bytes, bytes_eq, bytes_lt, bytes_lt-append, has_prefix, ltb, ◌≡◌, refl, Bool, true, false,
  [], ◌∷◌, ◌++◌, all, arith, ◌∙◌,
}
use mathlib.Core.List.{append_assoc}
use elara.ConfigStore.Keys.{config_key}
use elara.ConfigStore.Etcd.{build_range_params, should_break_range}
use elara.EtcdKey.{slash, join_key}

-- All bytes come after the slash, as letters and digits do.
abbrev pub after_slash : Bytes → Bool
after_slash s = all (λ c. ltb slash c) s

order_same :
    (ns ns' : Bytes) (path path' : Bytes)
    → after_slash ns ≡ true
    → after_slash ns' ≡ true
    → bytes_lt (config_key ns (slash ∷ path)) (config_key ns' (slash ∷ path'))
      ≡ bytes_lt (ns ++ slash ∷ path) (ns' ++ slash ∷ path')
unfolding bytes_lt config_key
order_same [] [] path path' h h' = refl
order_same [] (d ∷ ns') path path' h h' = ground arith
order_same (c ∷ ns) [] path path' h h' = ground arith
order_same (c ∷ ns) (d ∷ ns') path path' h h' =
    let onward = order_same ns ns' path path' in ground arith

-- Where all bytes of two namespaces come after the slash, the bucket keys of their configs lie in the
-- order of the etcd keys, so that ranges of the one are ranges of the other.
pub config_key_lt-join_key :
    (ns ns' path path' : Bytes)
    → after_slash ns ≡ true
    → after_slash ns' ≡ true
    → bytes_lt (config_key ns (slash ∷ path)) (config_key ns' (slash ∷ path'))
      ≡ bytes_lt (join_key ns (slash ∷ path)) (join_key ns' (slash ∷ path'))
unfolding join_key has_prefix bytes_lt
config_key_lt-join_key ns ns' path path' h h' = order_same ns ns' path path' h h'

next_slash_open :
    (ns : Bytes)
    → (bytes_eq (ns ++ 48 ∷ []) [] ≡ false) × (bytes_eq (ns ++ 48 ∷ []) (0 ∷ []) ≡ false)
unfolding bytes_eq
next_slash_open [] = (refl, refl)
next_slash_open (c ∷ []) = (refl, ground arith)
next_slash_open (c ∷ d ∷ ns) = (refl, ground arith)

in_front :
    (ns path : Bytes) (rest : Bytes) (c : ℕ)
    → c < slash
    → bytes_lt (ns ++ c ∷ rest) (ns ++ 48 ∷ path) ≡ true
unfolding bytes_lt
in_front ns path rest c h = bytes_lt-append ns (c ∷ rest) (48 ∷ path) ∙ (ground arith)

behind :
    (ns rest path : Bytes) (c : ℕ)
    → 0 < c
    → bytes_lt (ns ++ 0 ∷ slash ∷ []) ((ns ++ c ∷ rest) ++ 0 ∷ path) ≡ true
unfolding bytes_lt
behind ns rest path c low =
    rw (append_assoc ns (c ∷ rest) (0 ∷ path))
      (bytes_lt-append ns (0 ∷ slash ∷ []) (c ∷ (rest ++ 0 ∷ path)) ∙ (ground arith))

ahead :
    (ns rest tail : Bytes) (c : ℕ)
    → c < slash
    → bytes_lt (slash ∷ ((ns ++ c ∷ rest) ++ tail)) (slash ∷ (ns ++ slash ∷ [])) ≡ true
unfolding bytes_lt
ahead ns rest tail c h =
    rw (append_assoc ns (c ∷ rest) tail)
      (bytes_lt-append ns (c ∷ (rest ++ tail)) (slash ∷ []) ∙ (ground arith))

-- The prefix range of "/ns/", which ends in front of "/ns0", takes in every config of a namespace that
-- continues `ns` with a byte below the slash, such as "ns-x": its bucket key is in the range, and its
-- etcd key is in front of it.
pub prefix_range_leaks :
    (ns rest path : Bytes) (c : ℕ)
    → 0 < c
    → c < slash
    → (should_break_range
          (config_key (ns ++ c ∷ rest) path)
          (build_range_params ns (slash ∷ []) (ns ++ 48 ∷ []) (slash ∷ []))
        ≡ false)
      × (bytes_lt (config_key ns (slash ∷ [])) (config_key (ns ++ c ∷ rest) path) ≡ true)
      × (bytes_lt (join_key (ns ++ c ∷ rest) path) (join_key ns (slash ∷ [])) ≡ true)
unfolding should_break_range build_range_params config_key join_key has_prefix
prefix_range_leaks ns rest path c low h =
    let (not_single, not_all) = next_slash_open ns in
    let upper : bytes_lt ((ns ++ c ∷ rest) ++ 0 ∷ path) ((ns ++ 48 ∷ []) ++ 0 ∷ slash ∷ []) ≡ true =
      rw (append_assoc ns (c ∷ rest) (0 ∷ path), append_assoc ns (48 ∷ []) (0 ∷ slash ∷ []))
        (in_front ns (0 ∷ slash ∷ []) (rest ++ 0 ∷ path) c h) in
    (ground arith, behind ns rest path c low, ahead ns rest _ c h)
