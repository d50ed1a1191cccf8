-- ===== src/Prelude/ByteString.antt =====
-- Byte strings as lists of numbers: equality, prefixes, and the lexicographic order of `bytes`.
use Prim.Native.Nat.{ℕ}
use Prim.Native.Char.{code}
use Prim.Native.String.{String}
use mathlib.Core.Path.{◌≡◌, refl}
use mathlib.Core.Logic.{◌↔◌, ◌≢◌}
use mathlib.Core.Bool.{Bool, true, false, ◌&&◌, ◌||◌}
use mathlib.Core.List.{List, [], ◌∷◌, ◌++◌}
use native.Mathlib.Omega.{arith}
use elara.Prelude.Tests.{◌==◌, ltb}

abbrev pub Bytes : Type 0
Bytes = List ℕ

-- The bytes of an ASCII literal.
abbrev pub codes : String → Bytes
codes String.[] = []
codes (String.◌∷◌ c s) = code c ∷ codes s

-- bytes.Equal, and == on Go strings
unfoldable pub bytes_eq : Bytes → Bytes → Bool
bytes_eq [] [] = true
bytes_eq (a ∷ x) (b ∷ y) = (a == b) && bytes_eq x y
bytes_eq _ _ = false

-- bytes.HasPrefix, strings.HasPrefix
unfoldable pub has_prefix : Bytes → Bytes → Bool
has_prefix s [] = true
has_prefix [] (b ∷ p) = false
has_prefix (a ∷ s) (b ∷ p) = (a == b) && has_prefix s p

-- bytes.Compare(x, y) < 0
unfoldable pub bytes_lt : Bytes → Bytes → Bool
bytes_lt x [] = false
bytes_lt [] (b ∷ y) = true
bytes_lt (a ∷ x) (b ∷ y) = ltb a b || ((a == b) && bytes_lt x y)

-- strings.HasSuffix
unfoldable pub has_suffix : Bytes → Bytes → Bool
unfolding bytes_eq
has_suffix [] p = bytes_eq [] p
has_suffix (a ∷ s) p = bytes_eq (a ∷ s) p || has_suffix s p

pub bytes_eq_iff : (x y : Bytes) → (bytes_eq x y ≡ true) ↔ (x ≡ y)
unfolding bytes_eq
bytes_eq_iff [] [] = (λ _. refl, λ _. refl)
bytes_eq_iff [] (b ∷ y) = (λ h. cc, λ h. cc)
bytes_eq_iff (a ∷ x) [] = (λ h. cc, λ h. cc)
bytes_eq_iff (a ∷ x) (b ∷ y) =
    (λ h. ground (arith, bytes_eq_iff x y), λ h. ground (arith, bytes_eq_iff x y))

pub bytes_eq_refl : (x : Bytes) → bytes_eq x x ≡ true
bytes_eq_refl x = (bytes_eq_iff x x).1 refl

pub bytes_eq_ne : (x y : Bytes) → x ≢ y → bytes_eq x y ≡ false
bytes_eq_ne x y h = ground (arith, bytes_eq_iff x y)

pub bytes_lt_irrefl : (x : Bytes) → bytes_lt x x ≡ false
unfolding bytes_lt
bytes_lt_irrefl [] = refl
bytes_lt_irrefl (a ∷ x) = ground (arith, bytes_lt_irrefl x)

pub bytes_lt_trans :
    (x y z : Bytes) → bytes_lt x y ≡ true → bytes_lt y z ≡ true → bytes_lt x z ≡ true
unfolding bytes_lt
bytes_lt_trans x y [] h k = cc
bytes_lt_trans x [] (c ∷ z) h k = cc
bytes_lt_trans [] (b ∷ y) (c ∷ z) h k = refl
bytes_lt_trans (a ∷ x) (b ∷ y) (c ∷ z) h k = ground (arith, bytes_lt_trans x y z)

-- Of two different byte strings one comes first.
pub bytes_lt_total : (x y : Bytes) → bytes_lt x y ≡ false → bytes_lt y x ≡ false → x ≡ y
unfolding bytes_lt
bytes_lt_total [] [] h k = refl
bytes_lt_total [] (b ∷ y) h k = cc
bytes_lt_total (a ∷ x) [] h k = cc
bytes_lt_total (a ∷ x) (b ∷ y) h k = ground (arith, bytes_lt_total x y)

pub bytes_lt-append : (p x y : Bytes) → bytes_lt (p ++ x) (p ++ y) ≡ bytes_lt x y
unfolding bytes_lt
bytes_lt-append [] x y = refl
bytes_lt-append (a ∷ p) x y = ground (arith, bytes_lt-append p x y)

pub has_prefix-append : (p x : Bytes) → has_prefix (p ++ x) p ≡ true
unfolding has_prefix
has_prefix-append [] x = refl
has_prefix-append (a ∷ p) x = ground (arith, has_prefix-append p x)

-- A text with prefix `p` is `p` and a rest.
pub has_prefix_inv : (s p : Bytes) → has_prefix s p ≡ true → (r : Bytes) × (s ≡ p ++ r)
unfolding has_prefix
has_prefix_inv s [] h = (s, refl)
has_prefix_inv [] (b ∷ p) h = cc
has_prefix_inv (a ∷ s) (b ∷ p) h =
    let (r, e) = has_prefix_inv s p (ground arith) in (r, ground (arith, e))

pub append_cancel : (p x y : Bytes) → p ++ x ≡ p ++ y → x ≡ y
append_cancel [] x y h = h
append_cancel (a ∷ p) x y h = append_cancel p x y (cc)

-- What lies between two strings of one prefix has that prefix.
pub has_prefix-between :
    (p a j b : Bytes)
    → bytes_lt (p ++ a) j ≡ true
    → bytes_lt j (p ++ b) ≡ true
    → has_prefix j p ≡ true
unfolding bytes_lt has_prefix
has_prefix-between [] a j b h k = refl
has_prefix-between (c ∷ p) a [] b h k = cc h
has_prefix-between (c ∷ p) a (d ∷ j) b h k = ground (arith, has_prefix-between p a j b)
