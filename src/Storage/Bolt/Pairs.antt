-- ===== src/Storage/Bolt/Pairs.antt =====
-- Lists of key and value pairs in ascending byte order of their keys.
use elara.Prelude.{
  Bytes, bytes_eq, bytes_lt, bytes_eq_iff, bytes_lt_irrefl, bytes_lt_trans, bytes_lt_total, ◌≡◌,
  refl, subst, Bool, true, ◌&&◌, Option, none, some, List, [], ◌∷◌, if◌then◌else◌, arith,
  bytes_eq_refl, Bool-cases, Option-cases, inl, inr,
}

abbrev pub Pairs : Type 0
Pairs = List (Bytes × Bytes)

unfoldable pub find : Bytes → Pairs → Option Bytes
find j [] = none
find j ((k, v) ∷ l) = if bytes_eq k j then some v else find j l

-- `k` comes before the first key.
unfoldable pub below : Bytes → Pairs → Bool
below k [] = true
below k ((j, v) ∷ l) = bytes_lt k j

unfoldable pub ascending : Pairs → Bool
unfolding below
ascending [] = true
ascending ((k, v) ∷ l) = below k l && ascending l

unfoldable pub insert : Bytes → Bytes → Pairs → Pairs
insert k v [] = (k, v) ∷ []
insert k v ((j, w) ∷ l) =
    if bytes_lt k j
    then (k, v) ∷ (j, w) ∷ l
    else if bytes_eq k j
    then (k, v) ∷ l
    else (j, w) ∷ insert k v l

unfoldable pub remove : Bytes → Pairs → Pairs
remove k [] = []
remove k ((j, w) ∷ l) = if bytes_eq k j then l else (j, w) ∷ remove k l

unfoldable pub from : Bytes → Pairs → Pairs
from k [] = []
from k ((j, w) ∷ l) = if bytes_lt j k then from k l else (j, w) ∷ l

unfoldable pub last_before : Bytes → Pairs → Option (Bytes × Bytes)
last_before k [] = none
last_before k ((j, w) ∷ l) =
    if bytes_lt j k then (elim (last_before k l) [ none ↦ some (j, w) | some p ↦ some p ]) else none

below_trans : (i k : Bytes) (l : Pairs) → bytes_lt i k ≡ true → below k l ≡ true → below i l ≡ true
unfolding below
below_trans i k [] h b = refl
below_trans i k ((j, v) ∷ l) h b = bytes_lt_trans i k j h b

-- Nothing is found in front of the first key.
pub find-below : (j : Bytes) (l : Pairs) → ascending l ≡ true → below j l ≡ true → find j l ≡ none
unfolding find ascending
find-below j [] a b = refl
find-below j ((k, v) ∷ l) a b =
    ground (arith, bytes_eq_iff k j, bytes_lt_irrefl j, below_trans j k l, find-below j l)

-- In a list of pairs that rise, a later pair is found behind the first.
pub find-rest :
    (k v j w : Bytes) (l : Pairs)
    → ascending ((k, v) ∷ l) ≡ true
    → find j l ≡ some w
    → find j ((k, v) ∷ l) ≡ some w
unfolding find ascending
find-rest k v j w l a h = elim (Bool-cases (bytes_eq k j)) [
  | inl e ↦
      let same : k ≡ j = ground (arith, bytes_eq_iff k j) in
      let front : below j l ≡ true = subst (λ i. below i l ≡ true) same (ground arith) in
      absurd (ground (arith, find-below j l (ground arith) front))
  | inr e ↦ ground arith
]

-- What is found behind a key is after it.
pub find-after :
    (k j w : Bytes) (l : Pairs)
    → below k l ≡ true
    → ascending l ≡ true
    → find j l ≡ some w
    → bytes_lt k j ≡ true
unfolding find ascending below
find-after k j w [] b a h = absurd (cc h)
find-after k j w ((i, v) ∷ l) b a h =
    ground (arith, bytes_eq_iff i j, find-after i j w l, bytes_lt_trans k i j)

below-insert :
    (i k v : Bytes) (l : Pairs)
    → below i l ≡ true
    → bytes_lt i k ≡ true
    → below i (insert k v l) ≡ true
unfolding below insert
below-insert i k v [] b h = h
below-insert i k v ((j, w) ∷ l) b h = ground (arith)

pub insert-ascending :
    (k v : Bytes) (l : Pairs) → ascending l ≡ true → ascending (insert k v l) ≡ true
unfolding ascending insert
insert-ascending k v [] a = refl
insert-ascending k v ((j, w) ∷ l) a =
    ground
      (arith, bytes_eq_iff k j, insert-ascending k v l, below-insert j k v l, bytes_lt_total k j)

below-remove :
    (i k : Bytes) (l : Pairs) → ascending l ≡ true → below i l ≡ true → below i (remove k l) ≡ true
unfolding ascending remove
below-remove i k [] a b = b
below-remove i k ((j, w) ∷ l) a b = ground (arith, below_trans i j l)

pub remove-ascending : (k : Bytes) (l : Pairs) → ascending l ≡ true → ascending (remove k l) ≡ true
unfolding ascending remove
remove-ascending k [] a = refl
remove-ascending k ((j, w) ∷ l) a = ground (arith, remove-ascending k l, below-remove j k l)

pub from-ascending : (k : Bytes) (l : Pairs) → ascending l ≡ true → ascending (from k l) ≡ true
unfolding ascending from
from-ascending k [] a = refl
from-ascending k ((j, w) ∷ l) a = ground (arith, from-ascending k l)

pub find-insert :
    (k v j : Bytes) (l : Pairs)
    → find j (insert k v l) ≡ (if bytes_eq k j then some v else find j l)
unfolding find insert
find-insert k v j [] = refl
find-insert k v j ((i, w) ∷ l) =
    ground (arith, bytes_eq_iff k i, bytes_eq_iff i j, bytes_eq_iff k j, find-insert k v j l)

pub find-remove :
    (k j : Bytes) (l : Pairs)
    → ascending l ≡ true
    → find j (remove k l) ≡ (if bytes_eq k j then none else find j l)
unfolding find remove ascending
find-remove k j [] a = ground arith
find-remove k j ((i, w) ∷ l) a =
    ground (
      arith,
      bytes_eq_iff k i,
      bytes_eq_iff i j,
      bytes_eq_iff k j,
      find-remove k j l,
      find-below j l,
    )

pub find-from :
    (k j : Bytes) (l : Pairs)
    → ascending l ≡ true
    → find j (from k l) ≡ (if bytes_lt j k then none else find j l)
unfolding find from ascending
find-from k j [] a = ground arith
find-from k j ((i, w) ∷ l) a = ground (
  arith,
  bytes_eq_iff i j,
  find-from k j l,
  find-below j l,
  below_trans j i l,
  bytes_lt_trans j k i,
  bytes_lt_total i k,
)

pub last_before-some :
    (k j v : Bytes) (l : Pairs)
    → ascending l ≡ true
    → last_before k l ≡ some (j, v)
    → (find j l ≡ some v) × (bytes_lt j k ≡ true)
unfolding find last_before ascending
last_before-some k j v [] a e = cc
last_before-some k j v ((i, w) ∷ l) a e = elim (Bool-cases (bytes_lt i k)) [
  | inr no_more ↦ ground arith
  | inl more ↦ elim (Option-cases (last_before k l)) [
    | inl none_after ↦ ground (arith, bytes_eq_refl i)
    | inr (p, after) ↦
        let (found, lt) = last_before-some k j v l (ground arith) (ground arith) in
        (ground (arith, found, bytes_eq_iff i j, find-below i l), lt)
  ]
]

pub last_before-none :
    (k i : Bytes) (l : Pairs)
    → ascending l ≡ true
    → last_before k l ≡ none
    → bytes_lt i k ≡ true
    → find i l ≡ none
unfolding find last_before ascending
last_before-none k i [] a e h = refl
last_before-none k i ((j, w) ∷ l) a e h = elim (Bool-cases (bytes_lt j k)) [
  | inl more ↦ ground arith
  | inr no_more ↦ ground (
    arith,
    bytes_eq_iff j i,
    find-below i l,
    below_trans i j l,
    bytes_lt_total i j,
    bytes_lt_trans j i k,
  )
]

pub last_before-last :
    (k j v i : Bytes) (l : Pairs)
    → ascending l ≡ true
    → last_before k l ≡ some (j, v)
    → bytes_lt j i ≡ true
    → bytes_lt i k ≡ true
    → find i l ≡ none
unfolding find last_before ascending
last_before-last k j v i [] a e h g = refl
last_before-last k j v i ((m, w) ∷ l) a e h g = elim (Bool-cases (bytes_lt m k)) [
  | inr no_more ↦ ground arith
  | inl more ↦ elim (Option-cases (last_before k l)) [
    | inl none_after ↦ ground (arith, bytes_eq_iff m i, bytes_lt_irrefl i, last_before-none k i l)
    | inr (p, after) ↦ ground (
      arith,
      last_before-last k j v i l,
      bytes_eq_iff m i,
      bytes_lt_irrefl i,
      last_before-some k j v l,
      find-below j l,
      below_trans j m l,
      bytes_lt_trans j i m,
    )
  ]
]
