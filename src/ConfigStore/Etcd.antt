-- ===== src/ConfigStore/Etcd.antt =====
-- internal/storage/bbolt/config/etcd.go: reading and writing keys the way etcd does.
use elara.Prelude.{
  ℕ, ◌+◌, Bytes, int_lt, bytes_eq, bytes_lt, has_prefix, not, Bool, true, false, ◌&&◌, Option, none,
  some, List, [], ◌∷◌, if◌then◌else◌,
}
use elara.Prelude.Outcome.{Outcome, ok, err}
use elara.Domain.Failure.{Failure, locked, decode_failed}
use elara.Domain.Config.{KvPair, EventType, event_created, event_updated, detect_format_from_path}
use elara.Domain.Row.{ConfigMeta}
use elara.Storage.Bolt.Pairs.{Pairs}
use elara.Storage.Backend.{Backend}
use elara.Storage.Tx.{Run, Ctx, ◌>>=◌, lift, gets, with_read_tx}
use elara.ConfigStore.Keys.{config_key, parse_config_key, history_key, history_prefix, key_sep}
use elara.ConfigStore.Db.{Db, increment, bytes_of, find_meta, sys_value, sys_revision_key}
use elara.ConfigStore.Write.{rollback_db}

pub record RangeParams : Type 0 where
  pub start_key : Bytes
  -- nil is the empty key
  pub end_key : Bytes
  pub single_key : Bool
  pub scan_all : Bool

unfoldable pub build_range_params : Bytes → Bytes → Bytes → Bytes → RangeParams
build_range_params start_ns start_path end_ns end_path =
    let single = bytes_eq end_ns [] && bytes_eq end_path [] in
    let all_from = bytes_eq end_ns (key_sep ∷ []) in
    record {
      start_key = config_key start_ns start_path;
      end_key = if not single && not all_from then config_key end_ns end_path else [];
      single_key = single;
      scan_all = all_from;
    }

abbrev is_nil : {A : Type 0} → List A → Bool
is_nil [] = true
is_nil (x ∷ xs) = false

unfoldable pub should_break_range : Bytes → RangeParams → Bool
should_break_range k rp =
    if rp.single_key
    then not (bytes_eq k rp.start_key)
    else if not rp.scan_all && not (is_nil rp.end_key)
    then not (bytes_lt k rp.end_key)
    else false

-- The value of the entry that the cursor has stopped at, if it belongs to the config.
abbrev pub value_under : Bytes → Option (Bytes × Bytes) → Option Bytes
value_under prefix none = none
value_under prefix (some (k, v)) = if has_prefix k prefix then some v else none

-- The value before a write, and its row.
pub record ExistingKey : Type 0 where
  pub meta : ConfigMeta
  pub prev_value : Bytes

abbrev pub row_format : Bytes → Bytes
row_format path = detect_format_from_path path

abbrev historical : ℕ → Option Bytes → Option (Bytes × ℕ)
historical revision none = none
historical revision (some v) = some (v, revision)

abbrev prepend :
    {A : Type 0} → A → Outcome Failure (List A × Bool) → Outcome Failure (List A × Bool)
prepend a (ok (l, more)) = ok (a ∷ l, more)
prepend a (err e) = err e

abbrev pub kv_pair : Bytes → Bytes → ConfigMeta → Bytes × ℕ → KvPair
kv_pair ns path m (value, mod_revision) = record {
  namespace = ns;
  path = path;
  value = value;
  create_revision = m.create_revision;
  mod_revision = mod_revision;
  version = m.version;
}

unfoldable pub build_put_meta :
    (K : Backend) → ℕ → Bytes → Bytes → ℕ → Option ExistingKey → ConfigMeta × EventType
build_put_meta K now path value revision none = (
  record {
    content_hash = K.hash value;
    format = row_format path;
    version = 1;
    revision = revision;
    create_revision = revision;
    metadata = none;
    locked = false;
    created_at = now;
    updated_at = now;
  },
  event_created,
)
build_put_meta K now path value revision (some existing) = (
  record {
    content_hash = K.hash value;
    format = row_format path;
    version = increment existing.meta.version;
    revision = revision;
    create_revision = existing.meta.create_revision;
    metadata = existing.meta.metadata;
    locked = existing.meta.locked;
    created_at = existing.meta.created_at;
    updated_at = now;
  },
  event_updated,
)

module _ {K : Backend} where
  -- Where Seek(history_key) stops, or one entry further back.
  unfoldable pub at_or_before : Db K → Bytes → Bytes → Pairs → Option (Bytes × Bytes)
  at_or_before s seek_key prefix [] = K.before s.history seek_key
  at_or_before s seek_key prefix ((k, v) ∷ rest) =
      if not (has_prefix k prefix)
      then K.before s.history seek_key
      else if not (bytes_eq k seek_key)
      then K.before s.history seek_key
      else some (k, v)

  unfoldable pub lookup_history_at_revision : Db K → Bytes → Bytes → ℕ → Option Bytes
  unfolding at_or_before
  lookup_history_at_revision s namespace path revision =
      let seek_key = history_key namespace path revision in
      let prefix = history_prefix namespace path in
      value_under prefix (at_or_before s seek_key prefix (K.seek s.history seek_key))

  unfoldable pub get_kv_at_revision : Ctx → Bytes → Bytes → ℕ → Run (Db K) (Option Bytes)
  get_kv_at_revision ctx namespace path revision =
      with_read_tx rollback_db ctx
        (λ tx. gets (λ s. lookup_history_at_revision s namespace path revision))

  unfoldable pub current_revision_value : Ctx → Run (Db K) ℕ
  current_revision_value ctx =
      with_read_tx rollback_db ctx (λ tx. gets (λ s. sys_value s sys_revision_key))

  -- The value and its revision, or none where the entry is skipped.
  unfoldable pub read_kv_value :
      Db K → Bytes → Bytes → Bytes → ConfigMeta → ℕ → Bool → Option (Bytes × ℕ)
  unfolding int_lt
  read_kv_value s k ns path m revision keys_only =
      if keys_only
      then some ([], m.revision)
      else if int_lt 0 revision && int_lt revision m.revision
      then historical revision (lookup_history_at_revision s ns path revision)
      else some (bytes_of (K.get s.content k), m.revision)

  -- The loop of RangeQuery over what the cursor yields; `count` results are held already.
  unfoldable pub range_loop :
      Db K → RangeParams → ℕ → ℕ → Bool → ℕ → Pairs → Outcome Failure (List KvPair × Bool)
  unfolding int_lt
  range_loop s rp limit revision keys_only count [] = ok ([], false)
  range_loop s rp limit revision keys_only count ((k, v) ∷ rest) = elim (should_break_range k rp) [
    | true ↦ ok ([], false)
    | false ↦ elim (K.decode_meta v) [
      | none ↦ err decode_failed
      | some m ↦
          let (ns, path) = parse_config_key k in
          elim (read_kv_value s k ns path m revision keys_only) [
            | none ↦ range_loop s rp limit revision keys_only count rest
            | some read ↦ elim (int_lt 0 limit && not (int_lt (count + 1) limit)) [
              | true ↦ ok (kv_pair ns path m read ∷ [], not (is_nil rest))
              | false ↦
                  prepend (kv_pair ns path m read)
                    (range_loop s rp limit revision keys_only (count + 1) rest)
            ]
          ]
    ]
  ]

  unfoldable pub range_query_tx : RangeParams → ℕ → ℕ → Bool → Run (Db K) (List KvPair × Bool)
  range_query_tx rp limit revision keys_only s =
      lift (range_loop s rp limit revision keys_only 0 (K.seek s.meta rp.start_key)) s

  unfoldable pub range_query :
      Ctx → Bytes → Bytes → Bytes → Bytes → ℕ → ℕ → Bool → Run (Db K) (List KvPair × Bool)
  range_query ctx start_ns start_path end_ns end_path limit revision keys_only =
      with_read_tx rollback_db ctx (λ tx.
        range_query_tx (build_range_params start_ns start_path end_ns end_path) limit revision
          keys_only)

  abbrev existing_of : Db K → Bytes → Option ConfigMeta → Option ExistingKey
  existing_of s key none = none
  existing_of s key (some m) =
      some (record { meta = m; prev_value = bytes_of (K.get s.content key) })

  unfoldable pub resolve_existing_key : Bytes → Run (Db K) (Option ExistingKey)
  resolve_existing_key key = do
    found ← λ s. lift (find_meta s key) s
    gets (λ s. existing_of s key found)

abbrev pub build_prev_kv : Option ExistingKey → Bytes → Bytes → Option KvPair
build_prev_kv none namespace path = none
build_prev_kv (some existing) namespace path = some (record {
  namespace = namespace;
  path = path;
  value = existing.prev_value;
  create_revision = existing.meta.create_revision;
  mod_revision = existing.meta.revision;
  version = existing.meta.version;
})

unfoldable pub check_put_allowed : Option ExistingKey → Outcome Failure (Unit {0})
check_put_allowed none = ok tt
check_put_allowed (some existing) = if existing.meta.locked then err locked else ok tt
