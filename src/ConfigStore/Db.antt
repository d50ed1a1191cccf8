-- ===== src/ConfigStore/Db.antt =====
-- internal/storage/bbolt/config/repository.go: the buckets, and the reads and writes of single rows.
-- Each is a function of the state of the open transaction.
use elara.Prelude.{
  ℕ, ◌+◌, ◌%◌, ◌^◌, Bytes, codes, Bool, false, Option, none, some, [], ◌++◌, if◌then◌else◌,
}
use elara.Prelude.Outcome.{Outcome, ok, err}
use elara.Domain.Failure.{Failure, namespace_locked, decode_failed, put_failed}
use elara.Domain.Config.{Config, EventType}
use elara.Domain.Row.{ConfigMeta, ChangeRow, LockRow, NamespaceMeta, domain_to_config_meta}
use elara.Storage.Backend.{Backend}
use elara.Storage.Tx.{Run, ◌>>=◌, ◌>>◌, pure, lift, refuse_if}
use elara.ConfigStore.Keys.{history_key, history_prefix, revision_bytes, parse_revision}

module _ (K : Backend) where
  -- One field for each bucket.
  pub record Db : Type 0 where
    pub content : K.Bucket
    pub meta : K.Bucket
    pub namespaces : K.Bucket
    pub changelog : K.Bucket
    pub history : K.Bucket
    pub sys : K.Bucket
    pub lock_history : K.Bucket
    pub lock_changelog : K.Bucket

abbrev pub sys_revision_key : Bytes
sys_revision_key = codes "revision"

abbrev pub sys_lock_seq_key : Bytes
sys_lock_seq_key = codes "lock_event_seq"

-- int64 addition, on bit patterns
abbrev pub increment : ℕ → ℕ
increment n = (n + 1) % 2 ^ 64

-- The bytes of a value, nil as none.
abbrev pub bytes_of : Option Bytes → Bytes
bytes_of none = []
bytes_of (some b) = b

-- bbolt.Get and codec.Unmarshal: an absent key, a row, or a decoding error
abbrev pub decoded : {A : Type 0} → Option A → Outcome Failure (Option A)
decoded none = err decode_failed
decoded (some a) = ok (some a)

abbrev pub row_of : {A : Type 0} → (Bytes → Option A) → Option Bytes → Outcome Failure (Option A)
row_of decode none = ok none
row_of decode (some b) = decoded (decode b)

abbrev is_locked : Option NamespaceMeta → Bool
is_locked none = false
is_locked (some m) = m.locked

module _ {K : Backend} where
  -- bbolt.Get[ConfigMeta](q, "meta", key)
  unfoldable pub find_meta : Db K → Bytes → Outcome Failure (Option ConfigMeta)
  find_meta s key = row_of K.decode_meta (K.get s.meta key)

  unfoldable pub is_namespace_locked : Bytes → Run (Db K) Bool
  is_namespace_locked namespace = do
    m ← λ s. lift (row_of K.decode_namespace (K.get s.namespaces namespace)) s
    pure (is_locked m)

  unfoldable pub validate_namespace_unlocked : Bytes → Run (Db K) Unit
  unfolding is_namespace_locked
  validate_namespace_unlocked namespace = do
    locked ← is_namespace_locked namespace
    refuse_if locked namespace_locked

  unfoldable pub put_content : Bytes → Bytes → Run (Db K) Unit
  put_content key value s =
      if K.rejects key value
      then (err put_failed, s)
      else (ok tt, record s { content = K.put s.content key value })

  unfoldable pub put_meta : Bytes → ConfigMeta → Run (Db K) Unit
  put_meta key m s =
      if K.rejects key (K.encode_meta m)
      then (err put_failed, s)
      else (ok tt, record s { meta = K.put s.meta key (K.encode_meta m) })

  unfoldable pub delete_content : Bytes → Run (Db K) Unit
  delete_content key s = (ok tt, record s { content = K.delete s.content key })

  unfoldable pub delete_meta : Bytes → Run (Db K) Unit
  delete_meta key s = (ok tt, record s { meta = K.delete s.meta key })

  put_sys : Bytes → Bytes → Run (Db K) Unit
  put_sys key value s =
      if K.rejects key value
      then (err put_failed, s)
      else (ok tt, record s { sys = K.put s.sys key value })

  abbrev pub sys_value : Db K → Bytes → ℕ
  sys_value s key = parse_revision (bytes_of (K.get s.sys key))

  unfoldable pub next_revision : Run (Db K) ℕ
  unfolding put_sys
  next_revision s =
      let next = increment (sys_value s sys_revision_key) in
      (do put_sys sys_revision_key (revision_bytes next); pure next) s

  unfoldable pub next_lock_seq : Run (Db K) ℕ
  unfolding put_sys
  next_lock_seq s =
      let next = increment (sys_value s sys_lock_seq_key) in
      (do put_sys sys_lock_seq_key (revision_bytes next); pure next) s

  unfoldable pub write_history : Bytes → Bytes → ℕ → Bytes → Run (Db K) Unit
  write_history namespace path revision content s =
      let key = history_key namespace path revision in
      if K.rejects key content
      then (err put_failed, s)
      else (ok tt, record s { history = K.put s.history key content })

  unfoldable pub write_changelog : ℕ → ℕ → EventType → Bytes → Bytes → ℕ → Run (Db K) Unit
  write_changelog now revision kind path namespace version s =
      let entry : ChangeRow = record {
        kind = kind;
        path = path;
        namespace = namespace;
        version = version;
        timestamp = now;
      } in
      let data' = K.encode_change entry in
      if K.rejects (revision_bytes revision) data'
      then (err put_failed, s)
      else (ok tt, record s { changelog = K.put s.changelog (revision_bytes revision) data' })

  put_lock_history : Bytes → LockRow → Run (Db K) Unit
  put_lock_history key entry s =
      if K.rejects key (K.encode_lock entry)
      then (err put_failed, s)
      else (ok tt, record s { lock_history = K.put s.lock_history key (K.encode_lock entry) })

  put_lock_changelog : Bytes → ChangeRow → Run (Db K) Unit
  put_lock_changelog key entry s =
      if K.rejects key (K.encode_change entry)
      then (err put_failed, s)
      else (ok tt, record s { lock_changelog = K.put s.lock_changelog key (K.encode_change entry) })

  unfoldable pub write_lock_history : ℕ → Bytes → Bytes → EventType → Run (Db K) Unit
  unfolding next_lock_seq put_lock_history put_lock_changelog
  write_lock_history now namespace path kind = do
    seq ← next_lock_seq
    put_lock_history (history_prefix namespace path ++ revision_bytes seq)
        (record { kind = kind; timestamp = now })
    put_lock_changelog (revision_bytes seq)
        (record { kind = kind; path = path; namespace = namespace; version = 0; timestamp = now })

  -- Content, meta, history and changelog of one write.
  unfoldable pub write_config_entry : ℕ → Bytes → Config → ℕ → EventType → Run (Db K) Unit
  unfolding put_content put_meta write_history write_changelog
  write_config_entry now key cfg revision kind = do
    put_content key cfg.content
    put_meta key (domain_to_config_meta cfg)
    write_history cfg.namespace cfg.path revision cfg.content
    write_changelog now revision kind cfg.path cfg.namespace cfg.version
