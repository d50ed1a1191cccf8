-- ===== src/KvService/Txn/Quiet.antt =====
-- internal/usecase/config/service_txn.go: reads, and the transactions that only read, leave the
-- buckets, the collector and the watcher alone.
use elara.Prelude.{
  ℕ, Bytes, ◌≡◌, refl, ap, ◌∙◌, Bool, true, false, List, [], ◌∷◌, if◌then◌else◌, arith, ◌==◌,
}
use elara.Prelude.Outcome.{Outcome, ok, err}
use elara.Domain.Failure.{Failure}
use elara.Domain.Config.{Format}
use elara.Storage.Backend.{Backend}
use elara.Storage.Tx.{Run, Ctx, continue, ◌>>=◌, pure}
use elara.Storage.Tx.Laws.{with_read_tx-ends}
use elara.ConfigStore.Db.{Db}
use elara.ConfigStore.Write.{rollback_db}
use elara.ConfigStore.Etcd.{range_query, range_query_tx, current_revision_value}
use elara.KvService.{World, RangeOpts, on_db, range_kvs, range_query_kvs}
use elara.KvService.Compare.{KvCompare}
use elara.KvService.Txn.{
  KvOp, KvOps, KvTxnInput, KvOpResults, range_op, put_op, delete_range_op, txn_op, empty_txn_op,
  unknown_op, no_ops, op_then, txn_input, has_writes, ops_write, op_writes, eval_compare,
  eval_compares, header_revision, revision_from_responses, run_branches, txn_boundary, txn, run_ops,
  run_op,
}

-- The state stays as it is, whatever the result.
abbrev pub Quiet : {S A : Type 0} → Run S A → Type 0
Quiet {S} m = (s : S) → (m s).1 ≡ s

continue-Quiet :
    {S A B : Type 0} (f : A → Run S B) (s : S) (p : Outcome Failure A × S)
    → p.1 ≡ s
    → ((a : A) → Quiet (f a))
    → (continue p f).1 ≡ s
continue-Quiet f s (ok a, t) e quiet = quiet a t ∙ e
continue-Quiet f s (err x, t) e quiet = e

pub bind-Quiet :
    {S A B : Type 0} (m : Run S A) (f : A → Run S B)
    → Quiet m
    → ((a : A) → Quiet (f a))
    → Quiet (m >>= f)
bind-Quiet m f quiet onward s = continue-Quiet f s (m s) (quiet s) onward

if-Quiet :
    {S A : Type 0} (b : Bool) (m n : Run S A) → Quiet m → Quiet n → Quiet (if b then m else n)
if-Quiet true m n qm qn = qm
if-Quiet false m n qm qn = qn

module _ {K : Backend} where
  range_query-Quiet :
      (ctx : Ctx) (start_ns start_path end_ns end_path : Bytes) (limit revision : ℕ)
      (keys_only : Bool)
      → Quiet {S = Db K}
          (range_query ctx start_ns start_path end_ns end_path limit revision keys_only)
  unfolding range_query range_query_tx
  range_query-Quiet ctx start_ns start_path end_ns end_path limit revision keys_only s =
      with_read_tx-ends rollback_db (λ p. p.1 ≡ s) ctx _ s refl refl (λ r t e. refl)

  current_revision_value-Quiet : (ctx : Ctx) → Quiet {S = Db K} (current_revision_value ctx)
  unfolding current_revision_value
  current_revision_value-Quiet ctx s =
      with_read_tx-ends rollback_db (λ p. p.1 ≡ s) ctx _ s refl refl (λ r t e. refl)

  on_db-Quiet : {A : Type 0} (m : Run (Db K) A) → Quiet m → Quiet (on_db m)
  on_db-Quiet m quiet w = ap (λ d. record w { db = d }) (quiet w.db)

  pub range_kvs-Quiet :
      (ctx : Ctx) (start_ns start_path end_ns end_path : Bytes) (opts : RangeOpts)
      → Quiet {S = World K} (range_kvs ctx start_ns start_path end_ns end_path opts)
  unfolding range_kvs
  range_kvs-Quiet ctx start_ns start_path end_ns end_path opts =
      on_db-Quiet
        (range_query ctx start_ns start_path end_ns end_path opts.limit opts.revision
          opts.keys_only)
        (range_query-Quiet ctx start_ns start_path end_ns end_path opts.limit opts.revision
          opts.keys_only)

  pub range_query_kvs-Quiet :
      (ctx : Ctx) (start_ns start_path end_ns end_path : Bytes) (opts : RangeOpts)
      → Quiet {S = World K} (range_query_kvs ctx start_ns start_path end_ns end_path opts)
  unfolding range_query_kvs
  range_query_kvs-Quiet ctx start_ns start_path end_ns end_path opts =
      bind-Quiet (range_kvs ctx start_ns start_path end_ns end_path opts) _
        (range_kvs-Quiet ctx start_ns start_path end_ns end_path opts)
        (λ p.
          bind-Quiet (on_db (current_revision_value ctx)) _
            (on_db-Quiet (current_revision_value ctx) (current_revision_value-Quiet ctx))
            (λ rev s. refl))

  pub eval_compares-Quiet :
      (ctx : Ctx) (compares : List KvCompare) → Quiet {S = World K} (eval_compares ctx compares)
  unfolding eval_compares eval_compare
  eval_compares-Quiet ctx [] s = refl
  eval_compares-Quiet ctx (cmp ∷ compares) s =
      bind-Quiet (eval_compare ctx cmp) _
        (bind-Quiet
          (range_kvs ctx cmp.start_ns cmp.start_path cmp.end_ns cmp.end_path
            (record { limit = 0; revision = 0; keys_only = false }))
          _
          (range_kvs-Quiet ctx cmp.start_ns cmp.start_path cmp.end_ns cmp.end_path
            (record { limit = 0; revision = 0; keys_only = false }))
          (λ p s. refl))
        (λ held.
          if-Quiet held (eval_compares ctx compares) (pure false) (eval_compares-Quiet ctx compares)
            (λ s. refl))
        s

  pub header_revision-Quiet :
      (ctx : Ctx) (responses : KvOpResults) (last : ℕ)
      → Quiet {S = World K} (header_revision ctx responses last)
  unfolding header_revision
  header_revision-Quiet ctx responses last =
      if-Quiet (last == 0)
        (if revision_from_responses responses == 0
          then on_db (current_revision_value ctx)
          else pure (revision_from_responses responses))
        (pure last)
        (if-Quiet (revision_from_responses responses == 0) (on_db (current_revision_value ctx))
          (pure (revision_from_responses responses))
          (on_db-Quiet (current_revision_value ctx) (current_revision_value-Quiet ctx)) (λ s. refl))
        (λ s. refl)

  pub run_branches-Quiet :
      (ctx : Ctx) (compares : List KvCompare)
      (success failure : Ctx → Run (World K) (KvOpResults × ℕ))
      → Quiet (success ctx)
      → Quiet (failure ctx)
      → Quiet (run_branches ctx compares success failure)
  unfolding run_branches
  run_branches-Quiet ctx compares success failure qs qf =
      bind-Quiet (eval_compares ctx compares) _ (eval_compares-Quiet ctx compares) (λ succeeded.
        bind-Quiet (if succeeded then success ctx else failure ctx) _
          (if-Quiet succeeded (success ctx) (failure ctx) qs qf)
          (λ p.
            bind-Quiet (header_revision ctx p.0 p.1) _ (header_revision-Quiet ctx p.0 p.1)
              (λ revision s. refl)))

  module _ (validate : Bytes → Bytes → Bytes → Format → Outcome Failure (Unit {0})) where
    mutual
      unfolding txn run_ops run_op has_writes ops_write op_writes txn_boundary

      pub txn-Quiet :
          (input : KvTxnInput) (ctx : Ctx)
          → has_writes input ≡ false
          → Quiet {S = World K} (txn validate input ctx)
      txn-Quiet (txn_input compares success failure) ctx h = rw h (
          run_branches-Quiet ctx compares (run_ops validate success 0) (run_ops validate failure 0)
            (run_ops-Quiet success 0 ctx (ground arith))
            (run_ops-Quiet failure 0 ctx (ground arith)))

      run_ops-Quiet :
          (ops : KvOps) (last : ℕ) (ctx : Ctx)
          → ops_write ops ≡ false
          → Quiet {S = World K} (run_ops validate ops last ctx)
      run_ops-Quiet no_ops last ctx h s = refl
      run_ops-Quiet (op_then op ops) last ctx h s =
          bind-Quiet (run_op validate op ctx) _ (run_op-Quiet op ctx (ground arith))
            (λ p.
              bind-Quiet (run_ops validate ops _ ctx) _ (run_ops-Quiet ops _ ctx (ground arith))
                (λ rest s. refl))
            s

      run_op-Quiet :
          (op : KvOp) (ctx : Ctx)
          → op_writes op ≡ false
          → Quiet {S = World K} (run_op validate op ctx)
      run_op-Quiet (range_op start_ns start_path end_ns end_path opts) ctx h s =
          bind-Quiet (range_query_kvs ctx start_ns start_path end_ns end_path opts) _
            (range_query_kvs-Quiet ctx start_ns start_path end_ns end_path opts) (λ p s. refl) s
      run_op-Quiet (put_op namespace path value) ctx h s = absurd (cc h)
      run_op-Quiet (delete_range_op start_ns start_path end_ns end_path return_prev) ctx h s =
          absurd (cc h)
      run_op-Quiet (txn_op input) ctx h s =
          bind-Quiet (txn validate input ctx) _ (txn-Quiet input ctx h) (λ res s. refl) s
      run_op-Quiet empty_txn_op ctx h s = refl
      run_op-Quiet unknown_op ctx h s = refl

    pub branches-Quiet :
        (compares : List KvCompare) (success failure : KvOps) (ctx : Ctx)
        → has_writes (txn_input compares success failure) ≡ false
        → Quiet (
            run_branches {K = K} ctx compares
              (run_ops validate success 0)
              (run_ops validate failure 0))
    unfolding has_writes
    branches-Quiet compares success failure ctx h =
        run_branches-Quiet ctx compares (run_ops validate success 0) (run_ops validate failure 0)
          (run_ops-Quiet success 0 ctx (ground arith)) (run_ops-Quiet failure 0 ctx (ground arith))
