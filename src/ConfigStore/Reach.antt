-- ===== src/ConfigStore/Reach.antt =====
-- internal/storage/bbolt/config: the states that the calls of the repository can lead to.
use elara.Prelude.{◌+◌, ◌^◌, ◌<◌, ℕ, Bytes, ◌≡◌, ◌≢◌, Option, none, Bool, List}
use elara.Prelude.Outcome.{ok}
use elara.Domain.Config.{Config, KvPair}
use elara.Storage.Backend.{Backend}
use elara.Storage.Tx.{Ctx, Run, write_tx, with_tx}
use elara.Storage.Tx.Laws.{with_tx-keeps, with_tx_ok}
use elara.ConfigStore.Db.{Db}
use elara.ConfigStore.Write.{
  rollback_db, create, update, delete, toggle_config_lock, lock_config, unlock_config,
}
use elara.ConfigStore.Etcd.{build_range_params}
use elara.ConfigStore.EtcdWrite.{put_key, delete_range_keys}
use elara.ConfigStore.Consistent.{current, IsConsistent}
use elara.ConfigStore.Consistent.Writes.{
  create_tx-IsConsistent, update_config_tx-IsConsistent, put_key_tx-IsConsistent,
  delete_config_tx-IsConsistent, toggle_config_lock_tx-IsConsistent,
}
use elara.ConfigStore.Consistent.Range.{delete_range_keys_tx-IsConsistent}

module _ {K : Backend} where
  -- One call of the repository that succeeds, in whatever context, such as inside of a transaction of
  -- its caller.
  pub data Success (s t : Db K) : Type 0 where
    creates : (ctx : Ctx) (cfg c : Config) → create ctx cfg s ≡ (ok c, t) → Success s t
    updates : (ctx : Ctx) (cfg c : Config) → update ctx cfg s ≡ (ok c, t) → Success s t
    deletes : (ctx : Ctx) (path ns : Bytes) (r : ℕ) → delete ctx path ns s ≡ (ok r, t) → Success s t
    toggles :
        (ctx : Ctx) (ns path : Bytes) (lock : Bool)
        → toggle_config_lock ctx ns path lock s ≡ (ok tt, t)
        → Success s t
    stores :
        (ctx : Ctx) (ns path value : Bytes) (p : Option KvPair × ℕ)
        → put_key ctx ns path value s ≡ (ok p, t)
        → Success s t
    deletes_range :
        (ctx : Ctx) (start_ns start_path end_ns end_path : Bytes) (return_prev : Bool)
        (p : List KvPair × ℕ)
        → delete_range_keys ctx start_ns start_path end_ns end_path return_prev s ≡ (ok p, t)
        → Success s t

  -- Calls that succeed one after the other, while revisions are left.
  pub data Successes (s : Db K) : Db K → Type 0 where
    none_yet : Successes s s
    and_then : (t u : Db K) → Successes s t → current t + 1 < 2 ^ 64 → Success t u → Successes s u

  -- One call of the repository outside of every transaction, whatever its result; or one transaction of
  -- a caller, committed or rolled back, that succeeds only when all of its calls have.
  pub data Step (s : Db K) : Db K → Type 0 where
    by_transaction :
        (ctx : Ctx) (body : Ctx → Run (Db K) (Unit {0}))
        → ctx.mode ≢ write_tx
        → ((tx : Ctx) (t : Db K) → body tx s ≡ (ok tt, t) → Successes s t)
        → Step s (with_tx rollback_db ctx body s).1
    by_create : (ctx : Ctx) (cfg : Config) → ctx.mode ≢ write_tx → Step s (create ctx cfg s).1
    by_update : (ctx : Ctx) (cfg : Config) → ctx.mode ≢ write_tx → Step s (update ctx cfg s).1
    by_delete :
        (ctx : Ctx) (path ns : Bytes) → ctx.mode ≢ write_tx → Step s (delete ctx path ns s).1
    by_lock :
        (ctx : Ctx) (ns path : Bytes) → ctx.mode ≢ write_tx → Step s (lock_config ctx ns path s).1
    by_unlock :
        (ctx : Ctx) (ns path : Bytes) → ctx.mode ≢ write_tx → Step s (unlock_config ctx ns path s).1
    by_put :
        (ctx : Ctx) (ns path value : Bytes)
        → ctx.mode ≢ write_tx
        → Step s (put_key ctx ns path value s).1
    by_delete_range :
        (ctx : Ctx) (start_ns start_path end_ns end_path : Bytes) (return_prev : Bool)
        → ctx.mode ≢ write_tx
        → Step s (delete_range_keys ctx start_ns start_path end_ns end_path return_prev s).1

  -- The states that calls lead to from a repository without configs, while revisions are left.
  pub data Reach : Db K → Type 0 where
    start : (s : Db K) → ((key : Bytes) → K.get s.meta key ≡ none) → Reach s
    next : (s t : Db K) → Reach s → current s + 1 < 2 ^ 64 → Step s t → Reach t

  Success-IsConsistent :
      (s t : Db K) → Success s t → IsConsistent s → current s + 1 < 2 ^ 64 → IsConsistent t
  unfolding create update delete toggle_config_lock put_key delete_range_keys
  Success-IsConsistent s t (creates ctx cfg c h) i bound =
      let (tx, now, ran) = with_tx_ok rollback_db ctx _ s t c h in
      create_tx-IsConsistent tx.now cfg i bound ran
  Success-IsConsistent s t (updates ctx cfg c h) i bound =
      let (tx, now, ran) = with_tx_ok rollback_db ctx _ s t c h in
      update_config_tx-IsConsistent tx.now cfg i bound ran
  Success-IsConsistent s t (deletes ctx path ns r h) i bound =
      let (tx, now, ran) = with_tx_ok rollback_db ctx _ s t r h in
      delete_config_tx-IsConsistent tx.now path ns i bound ran
  Success-IsConsistent s t (toggles ctx ns path lock h) i bound =
      let (tx, now, ran) = with_tx_ok rollback_db ctx _ s t tt h in
      toggle_config_lock_tx-IsConsistent tx.now ns path lock i ran
  Success-IsConsistent s t (stores ctx ns path value p h) i bound =
      let (tx, now, ran) = with_tx_ok rollback_db ctx _ s t p h in
      put_key_tx-IsConsistent tx.now ns path value i bound ran
  Success-IsConsistent s t (deletes_range ctx start_ns start_path end_ns end_path return_prev p h) i
        bound =
      let (tx, now, ran) = with_tx_ok rollback_db ctx _ s t p h in
      delete_range_keys_tx-IsConsistent tx.now
        (build_range_params start_ns start_path end_ns end_path) start_ns return_prev i bound ran

  Successes-IsConsistent : (s t : Db K) → Successes s t → IsConsistent s → IsConsistent t
  Successes-IsConsistent s _ none_yet i = i
  Successes-IsConsistent s _ (and_then t u before bound step) i =
      Success-IsConsistent t u step (Successes-IsConsistent s t before i) bound

  Step-IsConsistent :
      (s t : Db K) → Step s t → IsConsistent s → current s + 1 < 2 ^ 64 → IsConsistent t
  unfolding create update delete lock_config unlock_config toggle_config_lock put_key
      delete_range_keys
  Step-IsConsistent s t (by_transaction ctx body outside successes) i bound =
      with_tx-keeps IsConsistent ctx body s outside i
        (λ a t h. Successes-IsConsistent s t (successes _ t h) i)
  Step-IsConsistent s t (by_create ctx cfg outside) i bound =
      with_tx-keeps IsConsistent ctx _ s outside i
        (λ a t h. create_tx-IsConsistent ctx.now cfg i bound h)
  Step-IsConsistent s t (by_update ctx cfg outside) i bound =
      with_tx-keeps IsConsistent ctx _ s outside i
        (λ a t h. update_config_tx-IsConsistent ctx.now cfg i bound h)
  Step-IsConsistent s t (by_delete ctx path ns outside) i bound =
      with_tx-keeps IsConsistent ctx _ s outside i
        (λ a t h. delete_config_tx-IsConsistent ctx.now path ns i bound h)
  Step-IsConsistent s t (by_lock ctx ns path outside) i bound =
      with_tx-keeps IsConsistent ctx _ s outside i
        (λ a t h. toggle_config_lock_tx-IsConsistent ctx.now ns path _ i h)
  Step-IsConsistent s t (by_unlock ctx ns path outside) i bound =
      with_tx-keeps IsConsistent ctx _ s outside i
        (λ a t h. toggle_config_lock_tx-IsConsistent ctx.now ns path _ i h)
  Step-IsConsistent s t (by_put ctx ns path value outside) i bound =
      with_tx-keeps IsConsistent ctx _ s outside i
        (λ a t h. put_key_tx-IsConsistent ctx.now ns path value i bound h)
  Step-IsConsistent s t
        (by_delete_range ctx start_ns start_path end_ns end_path return_prev outside) i bound =
      with_tx-keeps IsConsistent ctx _ s outside i (λ a t h.
        delete_range_keys_tx-IsConsistent ctx.now
          (build_range_params start_ns start_path end_ns end_path) start_ns return_prev i bound h)

  -- In every state that is reached, while revisions are left, by calls of the repository that are each
  -- made outside of every transaction, whatever their results, or by transactions of a caller that
  -- succeed only when all of their calls have, each config's row has a revision that has been given out
  -- and is no older than its creation, and the content bucket and the history entry of that revision
  -- hold the same content for it.
  pub Reach-IsConsistent : {s : Db K} → Reach s → IsConsistent s
  Reach-IsConsistent (start s free) = record { row = λ key b m at. cc (at, free key) }
  Reach-IsConsistent (next s t reached bound step) =
      Step-IsConsistent s t step (Reach-IsConsistent reached) bound
