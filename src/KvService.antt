-- ===== src/KvService.antt =====
-- internal/usecase/config/service_kv.go and kv_events.go: the use cases of the etcd interface, and the
-- watch notifications that wait for the commit of the transaction that produced them.
pub mod Compare
pub mod Txn
use elara.Prelude.{
  ℕ, Bytes, Bool, true, false, Option, none, some, List, [], ◌∷◌, ◌++◌, if◌then◌else◌, map,
}
use elara.Prelude.Outcome.{Outcome, ok, err}
use elara.Domain.Failure.{Failure}
use elara.Domain.Config.{Config, Format, KvPair, detect_format_from_path}
use elara.Storage.Backend.{Backend}
use elara.Storage.Tx.{Run, Ctx, Rollback, ◌>>=◌, ◌>>◌, pure, lift, with_tx}
use elara.ConfigStore.Db.{Db, increment}
use elara.ConfigStore.Etcd.{range_query, current_revision_value}
use elara.ConfigStore.EtcdWrite.{put_key, delete_range_keys}

-- A call of the watcher: NotifyCreated, NotifyUpdated or NotifyDeleted.
pub data Event : Type 0 where
  notify_created notify_updated : Config → Event
  notify_deleted : Bytes → Bytes → ℕ → Event

-- The buckets, the collector that the context carries, and the calls that the watcher has had.
pub record World (K : Backend) : Type 0 where
  pub db : Db K
  pub pending : List Event
  pub published : List Event

-- KVRangeOpts
pub record RangeOpts : Type 0 where
  pub limit : ℕ
  pub revision : ℕ
  pub keys_only : Bool

-- What is notified of a write: content hash, metadata and lock are left out.
unfoldable pub kv_put_config : ℕ → Bytes → Bytes → Bytes → Format → Option KvPair → ℕ → Config
kv_put_config now namespace path value format none new_rev = record {
  path = path;
  content = value;
  content_hash = [];
  format = format;
  version = 1;
  revision = new_rev;
  create_revision = new_rev;
  namespace = namespace;
  metadata = none;
  locked = false;
  namespace_locked = false;
  created_at = now;
  updated_at = now;
}
kv_put_config now namespace path value format (some prev) new_rev = record {
  path = path;
  content = value;
  content_hash = [];
  format = format;
  version = increment prev.version;
  revision = new_rev;
  create_revision = prev.create_revision;
  namespace = namespace;
  metadata = none;
  locked = false;
  namespace_locked = false;
  created_at = 0;
  updated_at = now;
}

unfoldable pub put_event : ℕ → Bytes → Bytes → Bytes → Format → Option KvPair × ℕ → Event
unfolding kv_put_config
put_event now namespace path value format (none, rev) =
    notify_created (kv_put_config now namespace path value format none rev)
put_event now namespace path value format (some prev, rev) =
    notify_updated (kv_put_config now namespace path value format (some prev) rev)

abbrev pub deleted_event : ℕ → KvPair → Event
deleted_event rev kv = notify_deleted kv.path kv.namespace rev

module _ {K : Backend} where
  -- A rollback undoes what was written to the buckets, and nothing else.
  abbrev pub rollback_world : Rollback (World K)
  rollback_world before after = record after { db = before.db }

  abbrev pub with_db :
      {A : Type 0} → World K → Outcome Failure A × Db K → Outcome Failure A × World K
  with_db w (r, db) = (r, record w { db = db })

  -- A call of the repository.
  abbrev pub on_db : {A : Type 0} → Run (Db K) A → Run (World K) A
  on_db m w = with_db w (m w.db)

  -- pendingEvents.add
  abbrev pub add_events : List Event → Run (World K) (Unit {0})
  add_events es w = (ok tt, record w { pending = w.pending ++ es })

  -- pendingEvents.flush
  abbrev pub flush : World K → World K
  flush w = record w { pending = []; published = w.published ++ w.pending }

  -- The caller that installed the collector publishes what is in it, once its transaction has been
  -- committed; after an error nobody does.
  abbrev pub flush_after : {A : Type 0} → Outcome Failure A × World K → Outcome Failure A × World K
  flush_after (ok a, w) = (ok a, flush w)
  flush_after (err e, w) = (err e, record w { pending = [] })

  -- withPendingEvents, the transaction, and the flush of the owner
  unfoldable pub collect_in_tx : {A : Type 0} → Ctx → (Ctx → Run (World K) A) → Run (World K) A
  collect_in_tx ctx body w =
      if ctx.collecting
      then with_tx rollback_world ctx body w
      else flush_after (
          with_tx rollback_world (record ctx { collecting = true }) body
            (record w { pending = [] }))

  unfoldable pub range_kvs :
      Ctx → Bytes → Bytes → Bytes → Bytes → RangeOpts → Run (World K) (List KvPair × Bool)
  range_kvs ctx start_ns start_path end_ns end_path opts =
      on_db (
        range_query ctx start_ns start_path end_ns end_path opts.limit opts.revision opts.keys_only)

  unfoldable pub range_query_kvs :
      Ctx → Bytes → Bytes → Bytes → Bytes → RangeOpts → Run (World K) (List KvPair × ℕ × Bool)
  unfolding range_kvs
  range_query_kvs ctx start_ns start_path end_ns end_path opts = do
    (kvs, more) ← range_kvs ctx start_ns start_path end_ns end_path opts
    rev ← on_db (current_revision_value ctx)
    pure (kvs, rev, more)

  unfoldable pub delete_range_keys_kv :
      Ctx → Bytes → Bytes → Bytes → Bytes → Bool → Run (World K) (List KvPair × ℕ)
  unfolding collect_in_tx
  delete_range_keys_kv ctx start_ns start_path end_ns end_path return_prev =
      collect_in_tx ctx (λ tx. do
        (deleted, rev) ←
            on_db (delete_range_keys tx start_ns start_path end_ns end_path return_prev)
        add_events (map (deleted_event rev) deleted)
        pure (deleted, rev))

  -- `validate` is SchemaValidator.Validate of a namespace, a path, a value and its format.
  unfoldable pub put_key_kv :
      (Bytes → Bytes → Bytes → Format → Outcome Failure (Unit {0}))
      → Ctx
      → Bytes
      → Bytes
      → Bytes
      → Run (World K) (Option KvPair × ℕ)
  unfolding collect_in_tx put_event
  put_key_kv validate ctx namespace path value = do
    lift (validate namespace path value (detect_format_from_path path))
    collect_in_tx ctx (λ tx. do
      p ← on_db (put_key tx namespace path value)
      add_events (put_event tx.now namespace path value (detect_format_from_path path) p ∷ [])
      pure p)
