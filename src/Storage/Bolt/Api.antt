-- ===== src/Storage/Bolt/Api.antt =====
-- go.etcd.io/bbolt, as pkg/bbolt/bucket.go uses it: a bucket of byte keys and byte values.
-- The library is not part of this repository, so its operations are the fields of a record, with
-- the behaviour that the comments of the interfaces Bucket and Cursor document as laws.
use mathlib.Core.List.{reverse}
use elara.Prelude.{
  Bytes, bytes_eq, bytes_lt, ◌≡◌, Bool, true, Option, none, some, [], if◌then◌else◌,
}
use elara.Storage.Bolt.Pairs.{Pairs, ascending, find}

pub record Bolt : Type 1 where
  pub Bucket : Type 0
  -- Get, Put and Delete. `rejects k v` is Put's error on a key or value whose size it refuses.
  pub get : Bucket → Bytes → Option Bytes
  pub put : Bucket → Bytes → Bytes → Bucket
  pub delete : Bucket → Bytes → Bucket
  pub rejects : Bytes → Bytes → Bool
  -- The pairs that Seek(k), and then Next until nil, return.
  pub seek : Bucket → Bytes → Pairs
  -- The pair that Prev returns right after Seek(k).
  pub before : Bucket → Bytes → Option (Bytes × Bytes)
  -- The pairs that Last, and then Prev until nil, return.
  pub backward : Bucket → Pairs
  pub get-put :
      (b : Bucket) (k v j : Bytes) → get (put b k v) j ≡ (if bytes_eq k j then some v else get b j)
  pub get-delete :
      (b : Bucket) (k j : Bytes) → get (delete b k) j ≡ (if bytes_eq k j then none else get b j)
  -- A cursor yields each pair of the bucket from the sought key on, once, in byte order.
  pub seek_ascending : (b : Bucket) (k : Bytes) → ascending (seek b k) ≡ true
  pub find-seek :
      (b : Bucket) (k j : Bytes) → find j (seek b k) ≡ (if bytes_lt j k then none else get b j)
  -- Prev after Seek(k) is the last pair in front of `k`.
  pub before_some :
      (b : Bucket) (k j v : Bytes)
      → before b k ≡ some (j, v)
      → (get b j ≡ some v) × (bytes_lt j k ≡ true)
  pub before_last :
      (b : Bucket) (k j v i : Bytes)
      → before b k ≡ some (j, v)
      → bytes_lt j i ≡ true
      → bytes_lt i k ≡ true
      → get b i ≡ none
  pub before_none :
      (b : Bucket) (k i : Bytes) → before b k ≡ none → bytes_lt i k ≡ true → get b i ≡ none
  pub backward_lem : (b : Bucket) → backward b ≡ reverse (seek b [])
