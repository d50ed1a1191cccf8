-- ===== src/Storage/Memory.antt =====
-- A backend in memory, with a plain encoding of the rows: the interface `Backend` can be met, and
-- the operations can be run on concrete data.
use elara.Prelude.{
  ℕ, zero, suc, Bytes, Bool, true, false, Option, none, some, List, [], ◌∷◌, ◌++◌, length, ◌≡◌,
  refl, ◌==◌,
}
use elara.Domain.Config.{Metadata}
use elara.Domain.Row.{ConfigMeta, ChangeRow, LockRow, NamespaceMeta}
use elara.Storage.Bolt.Memory.{memory}
use elara.Storage.Backend.{Backend, omit_empty}

infixl 5 ◌>>=◌
abbrev ◌>>=◌ : {A B : Type 0} → Option A → (A → Option B) → Option B
none >>= f = none
some a >>= f = f a

-- A reader takes what it reads off the front.
abbrev Reader : Type 0 → Type 0
Reader A = Bytes → Option (A × Bytes)

abbrev read_number : Reader ℕ
read_number [] = none
read_number (n ∷ b) = some (n, b)

unfoldable pub split : ℕ → Reader Bytes
split zero b = some ([], b)
split (suc n) [] = none
split (suc n) (c ∷ b) = elim (split n b) [ none ↦ none | some (s, r) ↦ some (c ∷ s, r) ]

abbrev pub read_text : Reader Bytes
read_text [] = none
read_text (n ∷ b) = split n b

abbrev pub write_text : Bytes → Bytes → Bytes
write_text s rest = length s ∷ (s ++ rest)

abbrev write_flag : Bool → ℕ
write_flag true = 1
write_flag false = 0

abbrev read_flag : Reader Bool
read_flag [] = none
read_flag (n ∷ b) = some (n == 1, b)

write_entries : List (Bytes × Bytes) → Bytes → Bytes
write_entries [] rest = rest
write_entries ((k, v) ∷ m) rest = write_text k (write_text v (write_entries m rest))

read_entries : ℕ → Reader (List (Bytes × Bytes))
read_entries zero b = some ([], b)
read_entries (suc n) b = do
  (k, b1) ← read_text b
  (v, b2) ← read_text b1
  (m, b3) ← read_entries n b2
  some ((k, v) ∷ m, b3)

write_metadata : Metadata → Bytes → Bytes
write_metadata none rest = 0 ∷ rest
write_metadata (some []) rest = 0 ∷ rest
write_metadata (some (p ∷ m)) rest = suc (length m) ∷ write_entries (p ∷ m) rest

read_metadata : Reader Metadata
read_metadata [] = none
read_metadata (zero ∷ b) = some (none, b)
read_metadata (suc n ∷ b) = do (m, r) ← read_entries (suc n) b; some (some m, r)

pub split-append : (s rest : Bytes) → split (length s) (s ++ rest) ≡ some (s, rest)
unfolding split
split-append [] rest = refl
split-append (c ∷ s) rest = simp (split-append s)

read-write_entries :
    (m : List (Bytes × Bytes)) (rest : Bytes)
    → read_entries (length m) (write_entries m rest) ≡ some (m, rest)
unfolding read_entries write_entries
read-write_entries [] rest = refl
read-write_entries ((k, v) ∷ m) rest = simp (split-append, read-write_entries m)

read-write_metadata :
    (m : Metadata) (rest : Bytes)
    → read_metadata (write_metadata m rest) ≡ some (omit_empty m, rest)
unfolding read_metadata write_metadata
read-write_metadata none rest = refl
read-write_metadata (some []) rest = refl
read-write_metadata (some (p ∷ m)) rest = simp (read-write_entries (p ∷ m))

unfoldable pub write_meta : ConfigMeta → Bytes
unfolding write_metadata write_entries
write_meta m = write_text m.content_hash (
    write_text m.format (
      m.version
      ∷ m.revision
      ∷ m.create_revision
      ∷ write_flag m.locked
      ∷ m.created_at
      ∷ m.updated_at
      ∷ write_metadata m.metadata []))

unfoldable pub read_meta : Bytes → Option ConfigMeta
unfolding read_metadata read_entries split
read_meta b0 = do
  (h, b1) ← read_text b0
  (f, b2) ← read_text b1
  (v, b3) ← read_number b2
  (r, b4) ← read_number b3
  (c, b5) ← read_number b4
  (l, b6) ← read_flag b5
  (t, b7) ← read_number b6
  (u, b8) ← read_number b7
  (m, b9) ← read_metadata b8
  some (record {
    content_hash = h;
    format = f;
    version = v;
    revision = r;
    create_revision = c;
    metadata = m;
    locked = l;
    created_at = t;
    updated_at = u;
  })

flag_back : (b : Bool) → (write_flag b == 1) ≡ b
flag_back true = refl
flag_back false = refl

pub read-write_meta :
    (m : ConfigMeta)
    → read_meta (write_meta m) ≡ some (record m { metadata = omit_empty m.metadata })
unfolding read_meta write_meta
read-write_meta m = simp (split-append, read-write_metadata, flag_back)

unfoldable pub write_change : ChangeRow → Bytes
write_change e = e.kind ∷ e.version ∷ e.timestamp ∷ write_text e.path (write_text e.namespace [])

unfoldable pub read_change : Bytes → Option ChangeRow
unfolding split
read_change b0 = do
  (k, b1) ← read_number b0
  (v, b2) ← read_number b1
  (t, b3) ← read_number b2
  (p, b4) ← read_text b3
  (n, b5) ← read_text b4
  some (record { kind = k; path = p; namespace = n; version = v; timestamp = t })

pub read-write_change : (e : ChangeRow) → read_change (write_change e) ≡ some e
unfolding read_change write_change
read-write_change e = simp split-append

abbrev pub write_lock : LockRow → Bytes
write_lock e = e.kind ∷ e.timestamp ∷ []

abbrev pub read_lock : Bytes → Option LockRow
read_lock (k ∷ t ∷ b) = some (record { kind = k; timestamp = t })
read_lock _ = none

unfoldable pub write_namespace : NamespaceMeta → Bytes
write_namespace m = write_flag m.locked ∷ m.created_at ∷ m.updated_at ∷ write_text m.description []

unfoldable pub read_namespace : Bytes → Option NamespaceMeta
unfolding split
read_namespace b0 = do
  (l, b1) ← read_flag b0
  (c, b2) ← read_number b1
  (u, b3) ← read_number b2
  (d, b4) ← read_text b3
  some (record { description = d; locked = l; created_at = c; updated_at = u })

pub read-write_namespace : (m : NamespaceMeta) → read_namespace (write_namespace m) ≡ some m
unfolding read_namespace write_namespace
read-write_namespace m = simp (split-append, flag_back)

abbrev pub memory_backend : Backend
memory_backend = record {
  bolt = memory;
  hash = λ c. c;
  utf8 = λ s. s;
  utf8_map = λ m. m;
  encode_meta = write_meta;
  decode_meta = read_meta;
  encode_change = write_change;
  decode_change = read_change;
  encode_lock = write_lock;
  decode_lock = read_lock;
  encode_namespace = write_namespace;
  decode_namespace = read_namespace;
  decode-encode_meta = read-write_meta;
  decode-encode_change = read-write_change;
  decode-encode_lock = λ e. refl;
  decode-encode_namespace = read-write_namespace;
  utf8-hash = λ c. refl;
  utf8-json = refl;
  utf8-yaml = refl;
  utf8-other = refl;
}
