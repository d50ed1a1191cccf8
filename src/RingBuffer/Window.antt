-- ===== src/RingBuffer/Window.antt =====
-- internal/util/ringbuffer/ringbuffer.go: the buffer holds the entries that were pushed last.
use elara.Prelude.{
  ℕ, zero, suc, ◌+◌, ◌%◌, ◌==◌, ◌<◌, ltb, ◌≡◌, refl, ap, sym, ◌∙◌, Bool, true, false, List, [], ◌∷◌,
  ◌++◌, if◌then◌else◌, set, take, drop, length, length-set, take_all, drop_all, length-append,
  length-take, length-drop, arith, ap₂, if_true, if_false, ltb→lt, Bool-cases, inl, inr,
}
use mathlib.Core.List.{append_assoc, append-nil}
use native.Mathlib.Nat.{mod_self, mod-eq_of_lt}
use elara.RingBuffer.{Buffer, push, snapshot, len}

module _ {A : Type 0} where
  drop-set :
      (h : ℕ) (v : A) (xs : List A) → h < length xs → drop (suc h) (set xs h v) ≡ drop (suc h) xs
  drop-set h v [] bound = refl
  drop-set zero v (x ∷ xs) bound = refl
  drop-set (suc h) v (x ∷ xs) bound = drop-set h v xs (omega arith)

  take-set :
      (h : ℕ) (v : A) (xs : List A)
      → h < length xs
      → take (suc h) (set xs h v) ≡ take h xs ++ v ∷ []
  take-set h v [] bound = absurd (omega arith)
  take-set zero v (x ∷ xs) bound = refl
  take-set (suc h) v (x ∷ xs) bound = ap (λ l. x ∷ l) (take-set h v xs (omega arith))

  drop_more : (h : ℕ) (xs : List A) → h < length xs → drop 1 (drop h xs) ≡ drop (suc h) xs
  drop_more h [] bound = absurd (omega arith)
  drop_more zero (x ∷ xs) bound = refl
  drop_more (suc h) (x ∷ xs) bound = drop_more h xs (omega arith)

  drop_one-append : (xs ys : List A) → 0 < length xs → drop 1 (xs ++ ys) ≡ drop 1 xs ++ ys
  drop_one-append [] ys h = absurd (omega arith)
  drop_one-append (x ∷ xs) ys h = refl

  pub record IsWellFormed (r : Buffer A) : Type 0 where
    pub size : length r.items ≡ r.capacity
    pub inside : r.head < r.capacity

  -- A queue of bounded length: once it is full, an entry drives out the oldest.
  abbrev pub slide : ℕ → List A → A → List A
  slide c window v = if length window == c then drop 1 window ++ v ∷ [] else window ++ v ∷ []

  stays :
      (v : A) (c : ℕ) (items : List A) (h : ℕ) (filled : Bool)
      → suc h < c
      → push v (record { capacity = c; items = items; head = h; filled = filled })
        ≡ record { capacity = c; items = set items h v; head = suc h; filled = filled }
  unfolding push
  stays v c items h filled more =
      let next : (h + 1) % c ≡ suc h =
        mod-eq_of_lt {n = h + 1} {m = c} (omega arith) ∙ (omega arith) in
      rw next (if_false (suc h == 0) _ _ (ground arith))

  wraps :
      (v : A) (c : ℕ) (items : List A) (h : ℕ) (filled : Bool)
      → suc h ≡ c
      → push v (record { capacity = c; items = items; head = h; filled = filled })
        ≡ record { capacity = c; items = set items h v; head = 0; filled = true }
  unfolding push
  wraps v c items h filled last =
      let next : (h + 1) % c ≡ 0 = ap (λ n. n % c) (omega arith) ∙ mod_self c in rw next refl

  -- The contents, by the fields.
  shown : Bool → ℕ → List A → List A
  shown filled h items = if filled then drop h items ++ take h items else take h items

  length-shown :
      (filled : Bool) (h : ℕ) (items : List A)
      → h < length items
      → length (shown filled h items) ≡ (if filled then length items else h)
  unfolding shown
  length-shown true h items inside =
      length-append (drop h items) (take h items)
      ∙ ap₂ (λ a b. a + b) (length-drop h items) (length-take h items)
      ∙ (omega arith)
  length-shown false h items inside = length-take h items ∙ (omega arith)

  shown_more :
      (v : A) (filled : Bool) (h : ℕ) (items : List A)
      → suc h < length items
      → shown filled (suc h) (set items h v) ≡ slide (length items) (shown filled h items) v
  unfolding shown
  shown_more v true h items more =
      let size = length-shown true h items (omega arith) in
      let some_left : 0 < length (drop h items) = omega (arith, length-drop h items) in
      ap₂ (λ a b. a ++ b) (drop-set h v items (omega arith)) (take-set h v items (omega arith))
      ∙ sym (append_assoc (drop (suc h) items) (take h items) (v ∷ []))
      ∙ ap (λ l. (l ++ take h items) ++ v ∷ []) (sym (drop_more h items (omega arith)))
      ∙ ap (λ l. l ++ v ∷ []) (sym (drop_one-append (drop h items) (take h items) some_left))
      ∙ sym (if_true (length (drop h items ++ take h items) == length items) _ _ (ground arith))
  shown_more v false h items more =
      let size = length-shown false h items (omega arith) in
      take-set h v items (omega arith)
      ∙ sym (if_false (length (take h items) == length items) _ _ (ground arith))

  shown_full :
      (v : A) (filled : Bool) (h : ℕ) (items : List A)
      → suc h ≡ length items
      → shown true 0 (set items h v) ≡ slide (length items) (shown filled h items) v
  unfolding shown
  shown_full v filled h items last =
      let inside : h < length items = omega arith in
      let whole : set items h v ≡ take h items ++ v ∷ [] =
        sym (take_all (suc h) (set items h v) (omega (arith, length-set items h v)))
        ∙ take-set h v items inside in
      append-nil (set items h v) ∙ whole ∙ full filled
    where
      full :
          (filled : Bool) → take h items ++ v ∷ [] ≡ slide (length items) (shown filled h items) v
      full true =
          let size = length-shown true h items (omega arith) in
          let some_left : 0 < length (drop h items) = omega (arith, length-drop h items) in
          let one : drop 1 (drop h items) ≡ [] =
            drop_more h items (omega arith) ∙ drop_all (suc h) items (omega arith) in
          ap (λ l. (l ++ take h items) ++ v ∷ []) (sym one)
          ∙ ap (λ l. l ++ v ∷ []) (sym (drop_one-append (drop h items) (take h items) some_left))
          ∙ sym (if_true (length (drop h items ++ take h items) == length items) _ _ (ground arith))
      full false =
          let size = length-shown false h items (omega arith) in
          sym (if_false (length (take h items) == length items) _ _ (ground arith))

  snapshot-shown : (r : Buffer A) → snapshot r ≡ shown r.filled r.head r.items
  unfolding snapshot shown
  snapshot-shown r = refl

  pub pushed :
      (v : A) (r : Buffer A)
      → IsWellFormed r
      → IsWellFormed (push v r)
        × (snapshot (push v r) ≡ slide r.capacity (snapshot r) v)
        × ((push v r).capacity ≡ r.capacity)
  pushed v r w = elim (Bool-cases (ltb (suc r.head) r.capacity)) [
    | inl e ↦
        let more : suc r.head < r.capacity = ltb→lt (suc r.head) r.capacity e in
        rw (stays v r.capacity r.items r.head r.filled more) (
          record { size = length-set r.items r.head v ∙ w.size; inside = more },
          snapshot-shown _
              ∙ shown_more v r.filled r.head r.items (omega (arith, w.size))
              ∙ ap₂ (λ c l. slide c l v) w.size (sym (snapshot-shown r)),
          refl,
        )
    | inr e ↦
        let last : suc r.head ≡ r.capacity = ground (arith, w.inside) in
        rw (wraps v r.capacity r.items r.head r.filled last) (
          record { size = length-set r.items r.head v ∙ w.size; inside = omega (arith, w.inside) },
          snapshot-shown _
              ∙ shown_full v r.filled r.head r.items (omega (arith, w.size, last))
              ∙ ap₂ (λ c l. slide c l v) w.size (sym (snapshot-shown r)),
          refl,
        )
  ]

  -- Len is the number of entries that Snapshot returns.
  pub len-snapshot : (r : Buffer A) → IsWellFormed r → len r ≡ length (snapshot r)
  unfolding len
  len-snapshot r w =
      ap (λ c. if r.filled then c else r.head) (sym w.size)
      ∙ sym (length-shown r.filled r.head r.items (omega (arith, w.size, w.inside)))
      ∙ ap length (sym (snapshot-shown r))
