-- ===== src/Storage/Bolt/Seek.antt =====
-- go.etcd.io/bbolt: where a cursor stands after Seek of a key.
use elara.Prelude.{
  Bytes, bytes_eq, bytes_lt, bytes_eq_iff, bytes_lt_irrefl, bytes_eq_refl, bytes_lt_total, ◌≡◌,
  refl, Bool, true, false, none, some, [], ◌∷◌, if◌then◌else◌, arith, not, Bool-cases, inl, inr,
}
use elara.Storage.Bolt.Pairs.{Pairs, find, below, ascending, find-below}
use elara.Storage.Bolt.Api.{Bolt}

-- The first pair, if there is one, is not of this key.
unfoldable pub elsewhere : Bytes → Pairs → Bool
elsewhere key [] = true
elsewhere key ((k, v) ∷ l) = not (bytes_eq k key)

below-elsewhere : (k : Bytes) (l : Pairs) → below k l ≡ true → elsewhere k l ≡ true
unfolding below elsewhere
below-elsewhere k [] h = refl
below-elsewhere k ((j, v) ∷ l) h = ground (arith, bytes_eq_iff j k, bytes_lt_irrefl k)

module _ (B : Bolt) where
  open B use {Bucket, get, seek, seek_ascending, find-seek}

  at_head :
      (b : Bucket) (key v : Bytes) (l : Pairs)
      → ascending l ≡ true
      → ((j : Bytes) → find j l ≡ (if bytes_lt j key then none else get b j))
      → get b key ≡ some v
      → (rest : Pairs) × (l ≡ (key, v) ∷ rest) × (elsewhere key rest ≡ true)
  unfolding find ascending below
  at_head b key v [] up found at = absurd (cc (found key, at, bytes_lt_irrefl key))
  at_head b key v ((k, w) ∷ l) up found at = elim (Bool-cases (bytes_eq k key)) [
    | inl e ↦
        let same : k ≡ key = (bytes_eq_iff k key).0 e in
        let here = found key in
        let value : w ≡ v = ground (arith, bytes_lt_irrefl key) in
        (l, cc (same, value), below-elsewhere key l (ground arith))
    | inr e ↦
        let here = found key in
        let there = found k in
        let none_before : bytes_lt k key ≡ false = ground (arith, bytes_eq_refl k) in
        let behind : bytes_lt key k ≡ true =
          ground (arith, bytes_lt_total k key, bytes_eq_iff k key) in
        absurd (cc (find-below key ((k, w) ∷ l) up behind, here, at, bytes_lt_irrefl key))
  ]

  not_at_head :
      (b : Bucket) (key : Bytes) (l : Pairs)
      → ((j : Bytes) → find j l ≡ (if bytes_lt j key then none else get b j))
      → get b key ≡ none
      → elsewhere key l ≡ true
  unfolding find elsewhere
  not_at_head b key [] found gone = refl
  not_at_head b key ((k, w) ∷ l) found gone =
      let here = found key in ground (arith, bytes_eq_iff k key, bytes_lt_irrefl key)

  -- The cursor stands on the key if the bucket has it, and the pair after it has another key.
  pub seek_found :
      (b : Bucket) (key v : Bytes)
      → get b key ≡ some v
      → (rest : Pairs) × (seek b key ≡ (key, v) ∷ rest) × (elsewhere key rest ≡ true)
  seek_found b key v at = at_head b key v (seek b key) (seek_ascending b key) (find-seek b key) at

  -- Else it stands on another key, or on none.
  pub seek_absent :
      (b : Bucket) (key : Bytes) → get b key ≡ none → elsewhere key (seek b key) ≡ true
  seek_absent b key gone = not_at_head b key (seek b key) (find-seek b key) gone
