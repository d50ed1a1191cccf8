-- ===== src/SliceUtil.antt =====
-- internal/util/sliceutil: set operations on slices, and pages. `same` is the == of the elements; a set
-- is the slice that it was made of.
use elara.Prelude.{
  ℕ, ◌+◌, ◌-◌, ◌%◌, ◌^◌, ◌≤◌, ◌<◌, int_lt, ltb, not, ◌≡◌, ap, sym, ◌∙◌, Bool, ◌&&◌, Option, none,
  some, List, [], ◌∷◌, ◌++◌, any, if◌then◌else◌, take, drop, length, leb, arith, Bool-cases, inl,
  inr, int_lt-small, take_all, length-drop, drop_all, if_true, if_false,
}

module _ {A : Type 0} (same : A → A → Bool) where
  abbrev pub elem : A → List A → Bool
  elem v s = any (same v) s

  -- ToSet, NotIn, In
  unfoldable pub not_in : List A → List A → List A
  not_in [] set = []
  not_in (v ∷ s) set = let rest = not_in s set in if elem v set then rest else v ∷ rest

  unfoldable pub in_set : List A → List A → List A
  in_set [] set = []
  in_set (v ∷ s) set = let rest = in_set s set in if elem v set then v ∷ rest else rest

  first_in : List A → List A → Option A
  first_in set [] = none
  first_in set (v ∷ b) = let rest = first_in set b in if elem v set then some v else rest

  -- The early return for empty slices gives what the loop gives.
  unfoldable pub first_overlap : List A → List A → Option A
  unfolding first_in
  first_overlap [] b = none
  first_overlap (x ∷ a) [] = none
  first_overlap (x ∷ a) (y ∷ b) = first_in (x ∷ a) (y ∷ b)

  unfoldable pub compose_post : List A → List A → List A → List A
  unfolding not_in
  compose_post current added removed = not_in current removed ++ added

-- items[low:high], which panics out of range; `none` is a panic.
unfoldable pub slice_of : {A : Type 0} → List A → ℕ → ℕ → Option (List A)
slice_of items low high =
    if leb low high && leb high (length items)
    then some (take (high - low) (drop low items))
    else none

abbrev int_min : ℕ → ℕ → ℕ
int_min a b = if int_lt a b then a else b

-- Integers are the bit patterns of 64-bit ints; the length of a slice is never negative.
unfoldable pub paginate : {A : Type 0} → List A → ℕ → ℕ → Option (List A)
unfolding int_lt slice_of
paginate items offset limit =
    if not (int_lt offset (length items))
    then some []
    else slice_of items offset (int_min ((offset + limit) % 2 ^ 64) (length items))

take_empty : {A : Type 0} (limit : ℕ) → take {A = A} limit [] ≡ []
take_empty limit = take_all limit [] (omega arith)

slice_of_lem :
    {A : Type 0} (items : List A) (low high : ℕ)
    → low ≤ high
    → high ≤ length items
    → slice_of items low high ≡ some (take (high - low) (drop low items))
unfolding slice_of
slice_of_lem items low high h k = ground (arith, h, k)

page_end :
    {A : Type 0} (items : List A) (offset limit : ℕ)
    → length items < 2 ^ 63
    → offset + limit < 2 ^ 63
    → offset < length items
    → slice_of items offset (int_min ((offset + limit) % 2 ^ 64) (length items))
      ≡ some (take limit (drop offset items))
page_end items offset limit short fits inside =
    let sum : (offset + limit) % 2 ^ 64 ≡ offset + limit = omega (arith, fits) in
    let order : int_lt ((offset + limit) % 2 ^ 64) (length items)
        ≡ ltb (offset + limit) (length items) =
      ap (λ n. int_lt n (length items)) sum
      ∙ int_lt-small (offset + limit) (length items) fits short in
    elim (Bool-cases (ltb (offset + limit) (length items))) [
      | inl before ↦
          let end_is : int_min ((offset + limit) % 2 ^ 64) (length items) ≡ offset + limit =
            if_true _ _ _ (order ∙ before) ∙ sum in
          let room : offset + limit - offset ≡ limit = omega arith in
          ap (slice_of items offset) end_is
          ∙ slice_of_lem items offset (offset + limit) (omega arith) (ground (arith, before))
          ∙ ap (λ n. some (take n (drop offset items))) room
      | inr past ↦
          let end_is : int_min ((offset + limit) % 2 ^ 64) (length items) ≡ length items =
            if_false _ _ _ (order ∙ past) in
          let n = length-drop offset items in
          ap (slice_of items offset) end_is
          ∙ slice_of_lem items offset (length items) (omega (arith, inside)) (omega arith)
          ∙ ap some (
              take_all (length items - offset) (drop offset items) (omega (arith, n))
              ∙ sym (take_all limit (drop offset items) (ground (arith, n, past))))
    ]

-- Where neither the length nor the sum of offset and limit leaves the positive integers, Paginate does
-- not panic, and returns the items from the offset on, at most as many as the limit.
pub paginate_lem :
    {A : Type 0} (items : List A) (offset limit : ℕ)
    → length items < 2 ^ 63
    → offset + limit < 2 ^ 63
    → paginate items offset limit ≡ some (take limit (drop offset items))
unfolding paginate slice_of
paginate_lem items offset limit short fits =
    let order = int_lt-small offset (length items) (omega (arith, fits)) short in
    elim (Bool-cases (ltb offset (length items))) [
      | inl inside ↦
          if_false _ _ _ (ap not (order ∙ inside))
          ∙ page_end items offset limit short fits (ground (arith, inside))
      | inr past ↦
          if_true _ _ _ (ap not (order ∙ past))
          ∙ ap some (
              sym
                (ap (take limit) (drop_all offset items (ground (arith, past))) ∙ take_empty limit))
    ]
