-- ===== src/Storage/Bolt/Memory.antt =====
-- Buckets held in memory as ascending lists: the interface `Bolt` can be met.
use mathlib.Core.List.{reverse}
use elara.Prelude.{Bytes, ◌≡◌, refl, Bool, true, false, [], ◌∷◌}
use elara.Storage.Bolt.Pairs.{
  Pairs, ascending, find, insert, remove, from, last_before, insert-ascending, remove-ascending,
  from-ascending, find-insert, find-remove, find-from, last_before-some, last_before-none,
  last_before-last,
}
use elara.Storage.Bolt.Api.{Bolt}

pub record Table : Type 0 where
  pub pairs : Pairs
  pub in_order : ascending pairs ≡ true

unfoldable pub empty_table : Table
unfolding ascending
empty_table = record { pairs = []; in_order = refl }

-- bbolt refuses the empty key and oversized keys and values; sizes are not bounded here.
abbrev pub refused : Bytes → Bytes → Bool
refused [] v = true
refused (c ∷ k) v = false

abbrev pub memory : Bolt
memory = record {
  Bucket = Table;
  get = λ b k. find k b.pairs;
  put = λ b k v. record {
    pairs = insert k v b.pairs;
    in_order = insert-ascending k v b.pairs b.in_order;
  };
  delete =
      λ b k. record { pairs = remove k b.pairs; in_order = remove-ascending k b.pairs b.in_order };
  rejects = refused;
  seek = λ b k. from k b.pairs;
  before = λ b k. last_before k b.pairs;
  backward = λ b. reverse (from [] b.pairs);
  get-put = λ b k v j. find-insert k v j b.pairs;
  get-delete = λ b k j. find-remove k j b.pairs b.in_order;
  seek_ascending = λ b k. from-ascending k b.pairs b.in_order;
  find-seek = λ b k j. find-from k j b.pairs b.in_order;
  before_some = λ b k j v e. last_before-some k j v b.pairs b.in_order e;
  before_last = λ b k j v i e h g. last_before-last k j v i b.pairs b.in_order e h g;
  before_none = λ b k i e h. last_before-none k i b.pairs b.in_order e h;
  backward_lem = λ b. refl;
}
