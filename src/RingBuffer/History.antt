-- ===== src/RingBuffer/History.antt =====
-- internal/util/ringbuffer/ringbuffer.go: the buffer against the whole history of pushes.
use elara.Prelude.{
  ℕ, zero, suc, ◌-◌, ◌==◌, ◌<◌, ◌≤◌, ltb, ltb→lt, ◌≡◌, refl, ap, sym, ◌∙◌, List, [], ◌∷◌, ◌++◌,
  if◌then◌else◌, drop, length, length-append, drop-append, length-drop, length-replicate, arith,
  ap₂, if_true, if_false, Bool-cases, inl, inr,
}
use mathlib.Core.List.{append_assoc, append-nil}
use elara.RingBuffer.{Buffer, new, push, snapshot, push_all}
use elara.RingBuffer.Window.{IsWellFormed, slide, pushed}

module _ {A : Type 0} where
  -- The last `c` entries.
  abbrev pub last : ℕ → List A → List A
  last c history = drop (length history - c) history

  drop-drop : (n : ℕ) (xs : List A) → drop 1 (drop n xs) ≡ drop (suc n) xs
  drop-drop zero xs = refl
  drop-drop (suc n) [] = refl
  drop-drop (suc n) (x ∷ xs) = drop-drop n xs

  last_slides :
      (c : ℕ) (history : List A) (v : A)
      → 0 < c
      → last c (history ++ v ∷ []) ≡ slide c (last c history) v
  last_slides c history v positive =
      let longer : length (history ++ v ∷ []) ≡ suc (length history) =
        length-append history (v ∷ []) ∙ (omega arith) in
      let window = length-drop (length history - c) history in
      elim (Bool-cases (ltb (length history) c)) [
        | inl e ↦
            let short : length history < c = ltb→lt (length history) c e in
            let none_gone : length history - c ≡ 0 = omega arith in
            let none_gone' : length (history ++ v ∷ []) - c ≡ 0 = omega (arith, longer) in
            ap (λ n. drop n (history ++ v ∷ [])) none_gone'
            ∙ ap (λ n. drop n history ++ v ∷ []) (sym none_gone)
            ∙ sym (if_false (length (last c history) == c) _ _ (ground arith))
        | inr e ↦
            let long : c ≤ length history = ground arith in
            let one_more : length (history ++ v ∷ []) - c ≡ suc (length history - c) =
              omega (arith, longer) in
            ap (λ n. drop n (history ++ v ∷ [])) one_more
            ∙ drop-append (suc (length history - c)) history (v ∷ []) (omega arith)
            ∙ ap (λ l. l ++ v ∷ []) (sym (drop-drop (length history - c) history))
            ∙ sym (if_true (length (last c history) == c) _ _ (ground arith))
      ]

  holds :
      (vs : List A) (r : Buffer A) (history : List A)
      → IsWellFormed r
      → snapshot r ≡ last r.capacity history
      → snapshot (push_all vs r) ≡ last r.capacity (history ++ vs)
  unfolding push_all
  holds [] r history w at = at ∙ ap (last r.capacity) (sym (append-nil history))
  holds (v ∷ vs) r history w at =
      let (well, slid, same) = pushed v r w in
      let at' : snapshot (push v r) ≡ last (push v r).capacity (history ++ v ∷ []) =
        slid
        ∙ ap (λ l. slide r.capacity l v) at
        ∙ sym (last_slides r.capacity history v (omega (arith, w.inside)))
        ∙ ap (λ c. last c (history ++ v ∷ [])) (sym same) in
      holds vs (push v r) (history ++ v ∷ []) well at'
      ∙ ap₂ (λ c l. last c l) same (append_assoc history (v ∷ []) vs)

  drop_nil : (n : ℕ) → [] ≡ drop {A = A} n []
  drop_nil zero = refl
  drop_nil (suc n) = refl

  new-IsWellFormed : (zero' : A) (capacity : ℕ) → IsWellFormed (new zero' capacity)
  unfolding new
  new-IsWellFormed zero' capacity = record {
    size = length-replicate _ zero';
    inside = ground arith;
  }

  -- After any pushes to a new buffer, Snapshot returns the last of them, oldest first, as many as the
  -- capacity allows; a capacity below 1 counts as 1.
  pub snapshot-push_all :
      (zero' : A) (capacity : ℕ) (vs : List A)
      → snapshot (push_all vs (new zero' capacity))
        ≡ last (if capacity == 0 then 1 else capacity) vs
  unfolding new snapshot
  snapshot-push_all zero' capacity vs =
      holds vs (new zero' capacity) [] (new-IsWellFormed zero' capacity) (drop_nil _)
