-- ===== src/ConfigStore/Keys/Revision.antt =====
-- Revisions in keys: parsing gives back what was written, and byte order is the order of numbers.
use native.Mathlib.Nat.{pow-suc}
use elara.Prelude.{
  ℕ, zero, suc, ◌+◌, ◌*◌, ◌/◌, ◌%◌, ◌^◌, ◌<◌, Bytes, ◌==◌, ltb, bytes_eq, bytes_lt, [], ◌∷◌, ◌++◌,
  length, length-append, arith, ◌≡◌, refl, sym, ◌∙◌, ◌||◌, ◌&&◌, bytes_eq_iff,
}
use elara.ConfigStore.Keys.{big_endian, big_endian_value, revision_bytes, parse_revision}

pub length-big_endian : (n r : ℕ) → length (big_endian n r) ≡ n
unfolding big_endian
length-big_endian zero r = refl
length-big_endian (suc n) r =
    omega (
      arith,
      length-append (big_endian n (r / 256)) ((r % 256) ∷ []),
      length-big_endian n (r / 256),
    )

value-append :
    (acc : ℕ) (x y : Bytes)
    → big_endian_value acc (x ++ y) ≡ big_endian_value (big_endian_value acc x) y
unfolding big_endian_value
value-append acc [] y = refl
value-append acc (c ∷ x) y = value-append (acc * 256 + c) x y

div_bound : (n r : ℕ) → r < 256 ^ suc n → r / 256 < 256 ^ n
div_bound n r h = omega (arith, pow-suc 256 n)

pub value-big_endian : (n r : ℕ) → r < 256 ^ n → big_endian_value 0 (big_endian n r) ≡ r
unfolding big_endian big_endian_value
value-big_endian zero r h = omega arith
value-big_endian (suc n) r h =
    value-append 0 (big_endian n (r / 256)) ((r % 256) ∷ [])
    ∙ rw (value-big_endian n (r / 256) (div_bound n r h)) (omega arith)

-- A revision of 64 bits is read back from its bytes.
pub parse-revision_bytes : (r : ℕ) → r < 2 ^ 64 → parse_revision (revision_bytes r) ≡ r
unfolding parse_revision revision_bytes
parse-revision_bytes r h = value-big_endian 8 r h

lt-snoc :
    (x y : Bytes) (c d : ℕ)
    → length x ≡ length y
    → bytes_lt (x ++ c ∷ []) (y ++ d ∷ []) ≡ (bytes_lt x y || (bytes_eq x y && ltb c d))
unfolding bytes_lt bytes_eq
lt-snoc [] [] c d e = ground arith
lt-snoc [] (b ∷ y) c d e = absurd (omega arith)
lt-snoc (a ∷ x) [] c d e = absurd (omega arith)
lt-snoc (a ∷ x) (b ∷ y) c d e = ground (arith, lt-snoc x y c d)

pub eq-big_endian :
    (n a b : ℕ) → a < 256 ^ n → b < 256 ^ n → bytes_eq (big_endian n a) (big_endian n b) ≡ (a == b)
eq-big_endian n a b h g = ground (
  arith,
  bytes_eq_iff (big_endian n a) (big_endian n b),
  value-big_endian n a,
  value-big_endian n b,
)

pub lt-big_endian :
    (n a b : ℕ) → a < 256 ^ n → b < 256 ^ n → bytes_lt (big_endian n a) (big_endian n b) ≡ ltb a b
unfolding big_endian bytes_lt
lt-big_endian zero a b h g = ground arith
lt-big_endian (suc n) a b h g =
    lt-snoc (big_endian n (a / 256)) (big_endian n (b / 256)) (a % 256) (b % 256)
      (length-big_endian n (a / 256) ∙ sym (length-big_endian n (b / 256)))
    ∙ rw
        (
          lt-big_endian n (a / 256) (b / 256) (div_bound n a h) (div_bound n b g),
          eq-big_endian n (a / 256) (b / 256) (div_bound n a h) (div_bound n b g),
        )
        (ground arith)
