-- ===== src/EtcdKey/RoundTrip.antt =====
-- internal/handler/etcdv3/keyencoding.go: SplitKey and JoinKey undo each other.
use elara.Prelude.{
  Bytes, has_prefix, ◌==◌, not, ◌≡◌, ◌≢◌, refl, Bool, true, none, some, [], ◌∷◌, ◌++◌, all, arith,
  ◌⊎◌, inl, inr, Bool-cases, Option-cases,
}
use elara.EtcdKey.{slash, split_at_slash, split_key, join_key}

-- A namespace that the keys can name.
abbrev pub no_slash : Bytes → Bool
no_slash s = all (λ c. not (c == slash)) s

split_at-append :
    (ns path : Bytes)
    → no_slash ns ≡ true
    → split_at_slash (ns ++ slash ∷ path) ≡ some (ns, slash ∷ path)
unfolding split_at_slash
split_at-append [] path h = refl
split_at-append (c ∷ ns) path h = let onward = split_at-append ns path in ground arith

-- The key of a namespace without a slash, which is not empty, and of a path that starts with one
-- splits into these two.
pub split-join_key :
    (ns path : Bytes)
    → ns ≢ []
    → no_slash ns ≡ true
    → has_prefix path (slash ∷ []) ≡ true
    → split_key (join_key ns path) ≡ some (ns, path)
unfolding split_key join_key has_prefix
split-join_key [] path named clean h = absurd (named refl)
split-join_key (c ∷ ns) [] named clean h = cc h
split-join_key (c ∷ ns) (d ∷ path) named clean h =
    let at = split_at-append (c ∷ ns) path clean in
    let same : d ≡ slash = ground arith in ground arith

split_at-inv :
    (s ns path : Bytes)
    → split_at_slash s ≡ some (ns, path)
    → (ns ++ path ≡ s) × (has_prefix path (slash ∷ []) ≡ true)
unfolding split_at_slash has_prefix
split_at-inv [] ns path h = cc h
split_at-inv (c ∷ s) ns path h = elim (Bool-cases (c == slash)) [
  | inl e ↦ (ground arith, ground arith)
  | inr e ↦ elim (Option-cases (split_at_slash s)) [
    | inl gone ↦ absurd (ground arith)
    | inr ((ns', path'), found) ↦
        let (whole, starts) = split_at-inv s ns' path' found in (ground arith, ground arith)
  ]
]

-- What SplitKey accepts is what JoinKey makes of the result, or a namespace alone, whose path is "/".
pub join-split_key :
    (key ns path : Bytes)
    → split_key key ≡ some (ns, path)
    → (join_key ns path ≡ key) ⊎ ((key ≡ slash ∷ ns) × (path ≡ slash ∷ []))
unfolding split_key join_key
join-split_key [] ns path h = cc h
join-split_key (c ∷ rest) ns path h = elim (Option-cases (split_at_slash rest)) [
  | inl gone ↦ inr (whole rest gone h)
  | inr ((ns', path'), found) ↦ inl (parts rest ns' path' found h)
]
  where
    whole :
        (rest : Bytes)
        → split_at_slash rest ≡ none
        → split_key (c ∷ rest) ≡ some (ns, path)
        → (c ∷ rest ≡ slash ∷ ns) × (path ≡ slash ∷ [])
    whole [] gone h = absurd (ground arith)
    whole (d ∷ rest) gone h = (ground arith, ground arith)

    parts :
        (rest ns' path' : Bytes)
        → split_at_slash rest ≡ some (ns', path')
        → split_key (c ∷ rest) ≡ some (ns, path)
        → join_key ns path ≡ c ∷ rest
    parts rest [] path' found h = absurd (ground arith)
    parts rest (d ∷ ns') path' found h =
        let (same, starts) = split_at-inv rest (d ∷ ns') path' found in ground arith
