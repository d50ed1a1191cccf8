-- ===== src/RingBuffer.antt =====
-- internal/util/ringbuffer/ringbuffer.go: a bounded buffer that forgets its oldest entry.
pub mod Window
pub mod History
use elara.Prelude.{
  ℕ, ◌+◌, ◌%◌, ◌==◌, Bool, true, false, List, [], ◌∷◌, ◌++◌, if◌then◌else◌, set, take, drop,
  replicate,
}

pub record Buffer (A : Type 0) : Type 0 where
  pub capacity : ℕ
  pub items : List A
  pub head : ℕ
  pub filled : Bool

-- `zero` is Go's zero value of the element type; a negative capacity is 1 as 0 is.
unfoldable pub new : {A : Type 0} → A → ℕ → Buffer A
new zero capacity =
    let c = if capacity == 0 then 1 else capacity in
    record { capacity = c; items = replicate c zero; head = 0; filled = false }

-- r.head has been moved on.
abbrev advanced : {A : Type 0} → Buffer A → Buffer A
advanced r = if r.head == 0 then record r { filled = true } else r

unfoldable pub push : {A : Type 0} → A → Buffer A → Buffer A
push v r = advanced (record r { items = set r.items r.head v; head = (r.head + 1) % r.capacity })

unfoldable pub snapshot : {A : Type 0} → Buffer A → List A
snapshot r = if r.filled then drop r.head r.items ++ take r.head r.items else take r.head r.items

unfoldable pub len : {A : Type 0} → Buffer A → ℕ
len r = if r.filled then r.capacity else r.head

unfoldable pub push_all : {A : Type 0} → List A → Buffer A → Buffer A
unfolding push
push_all [] r = r
push_all (v ∷ vs) r = push_all vs (push v r)
