-- ===== src/KvService/Txn/Hushed.antt =====
-- internal/usecase/config/service_txn.go and kv_events.go: nothing is published while a collector is
-- installed.
use elara.Prelude.{
  ℕ, Bytes, ◌≡◌, refl, ap, sym, ◌∙◌, Bool, true, false, List, if◌then◌else◌, if_true,
}
use elara.Prelude.Outcome.{Outcome, ok, err}
use elara.Domain.Failure.{Failure}
use elara.Domain.Config.{Format, detect_format_from_path}
use elara.Storage.Backend.{Backend}
use elara.Storage.Tx.{Run, Ctx, continue, ◌>>=◌, lift, with_tx}
use elara.Storage.Tx.Laws.{with_tx-ends}
use elara.ConfigStore.EtcdWrite.{put_key, delete_range_keys}
use elara.KvService.{
  World, rollback_world, on_db, collect_in_tx, put_key_kv, delete_range_keys_kv, range_query_kvs,
}
use elara.KvService.Compare.{KvCompare}
use elara.KvService.Txn.{
  KvOp, KvOps, KvTxnInput, KvOpResults, KvTxnResult, range_op, put_op, delete_range_op, txn_op,
  empty_txn_op, unknown_op, no_ops, op_then, txn_input, eval_compares, header_revision,
  run_branches, txn_boundary, txn, run_ops, run_op,
}
use elara.KvService.Txn.Quiet.{
  Quiet, range_query_kvs-Quiet, eval_compares-Quiet, header_revision-Quiet,
}

module _ {K : Backend} where
  abbrev pub Hushed : {A : Type 0} → Run (World K) A → Type 0
  Hushed m = (w : World K) → (m w).1.published ≡ w.published

  continue-Hushed :
      {A B : Type 0} (f : A → Run (World K) B) (w : World K) (p : Outcome Failure A × World K)
      → p.1.published ≡ w.published
      → ((a : A) → Hushed (f a))
      → (continue p f).1.published ≡ w.published
  continue-Hushed f w (ok a, t) e quiet = quiet a t ∙ e
  continue-Hushed f w (err x, t) e quiet = e

  bind-Hushed :
      {A B : Type 0} (m : Run (World K) A) (f : A → Run (World K) B)
      → Hushed m
      → ((a : A) → Hushed (f a))
      → Hushed (m >>= f)
  bind-Hushed m f quiet onward w = continue-Hushed f w (m w) (quiet w) onward

  Quiet-Hushed : {A : Type 0} (m : Run (World K) A) → Quiet m → Hushed m
  Quiet-Hushed m quiet w = ap (λ w. w.published) (quiet w)

  if-Hushed :
      {A : Type 0} (b : Bool) (m n : Run (World K) A)
      → Hushed m
      → Hushed n
      → Hushed (if b then m else n)
  if-Hushed true m n qm qn = qm
  if-Hushed false m n qm qn = qn

  collect_in_tx-Hushed :
      {A : Type 0} (ctx : Ctx) (body : Ctx → Run (World K) A)
      → ctx.collecting ≡ true
      → ((c : Ctx) → c.collecting ≡ true → Hushed (body c))
      → Hushed (collect_in_tx ctx body)
  unfolding collect_in_tx
  collect_in_tx-Hushed ctx body h quiet w =
      ap (λ p. p.1.published) (if_true ctx.collecting (with_tx rollback_world ctx body w) _ h)
      ∙ with_tx-ends rollback_world (λ p. p.1.published ≡ w.published) ctx body w
          (λ _. quiet ctx h w) refl (λ a t e. sym (ap (λ p. p.1.published) e) ∙ quiet _ h w)
          (λ x r t e. sym (ap (λ p. p.1.published) e) ∙ quiet _ h w)

  delete_range_keys_kv-Hushed :
      (ctx : Ctx) (start_ns start_path end_ns end_path : Bytes) (return_prev : Bool)
      → ctx.collecting ≡ true
      → Hushed (delete_range_keys_kv {K = K} ctx start_ns start_path end_ns end_path return_prev)
  unfolding delete_range_keys_kv
  delete_range_keys_kv-Hushed ctx start_ns start_path end_ns end_path return_prev h =
      collect_in_tx-Hushed ctx _ h (λ c _.
        bind-Hushed (on_db (delete_range_keys c start_ns start_path end_ns end_path return_prev)) _
          (λ w. refl) (λ p w. refl))

  run_branches-Hushed :
      (ctx : Ctx) (compares : List KvCompare)
      (success failure : Ctx → Run (World K) (KvOpResults × ℕ))
      → Hushed (success ctx)
      → Hushed (failure ctx)
      → Hushed (run_branches ctx compares success failure)
  unfolding run_branches
  run_branches-Hushed ctx compares success failure qs qf =
      bind-Hushed (eval_compares ctx compares) _
        (Quiet-Hushed (eval_compares ctx compares) (eval_compares-Quiet ctx compares))
        (λ succeeded.
          bind-Hushed (if succeeded then success ctx else failure ctx) _
            (if-Hushed succeeded (success ctx) (failure ctx) qs qf)
            (λ p.
              bind-Hushed (header_revision ctx p.0 p.1) _
                (Quiet-Hushed (header_revision ctx p.0 p.1) (header_revision-Quiet ctx p.0 p.1))
                (λ revision w. refl)))

  txn_boundary-Hushed :
      (writes : Bool) (ctx : Ctx) (body : Ctx → Run (World K) KvTxnResult)
      → ctx.collecting ≡ true
      → ((c : Ctx) → c.collecting ≡ true → Hushed (body c))
      → Hushed (txn_boundary writes ctx body)
  unfolding txn_boundary
  txn_boundary-Hushed false ctx body h quiet = quiet ctx h
  txn_boundary-Hushed true ctx body h quiet = collect_in_tx-Hushed ctx body h quiet

  module _ (validate : Bytes → Bytes → Bytes → Format → Outcome Failure (Unit {0})) where
    put_key_kv-Hushed :
        (ctx : Ctx) (namespace path value : Bytes)
        → ctx.collecting ≡ true
        → Hushed (put_key_kv validate ctx namespace path value)
    unfolding put_key_kv
    put_key_kv-Hushed ctx namespace path value h =
        bind-Hushed (lift (validate namespace path value (detect_format_from_path path))) _
          (λ w. refl)
          (λ u. collect_in_tx-Hushed ctx _ h (λ c _.
            bind-Hushed (on_db (put_key c namespace path value)) _ (λ w. refl) (λ p w. refl)))

    mutual
      unfolding txn run_ops run_op

      pub txn-Hushed :
          (input : KvTxnInput) (ctx : Ctx) → ctx.collecting ≡ true → Hushed (txn validate input ctx)
      txn-Hushed (txn_input compares success failure) ctx h =
          txn_boundary-Hushed _ ctx
            (λ tx.
              run_branches tx compares (run_ops validate success 0) (run_ops validate failure 0))
            h
            (λ c hc.
              run_branches-Hushed c compares (run_ops validate success 0)
                (run_ops validate failure 0) (run_ops-Hushed success 0 c hc)
                (run_ops-Hushed failure 0 c hc))

      pub run_ops-Hushed :
          (ops : KvOps) (last : ℕ) (ctx : Ctx)
          → ctx.collecting ≡ true
          → Hushed (run_ops validate ops last ctx)
      run_ops-Hushed no_ops last ctx h w = refl
      run_ops-Hushed (op_then op ops) last ctx h w =
          bind-Hushed (run_op validate op ctx) _ (run_op-Hushed op ctx h)
            (λ p.
              bind-Hushed (run_ops validate ops _ ctx) _ (run_ops-Hushed ops _ ctx h)
                (λ rest w. refl))
            w

      run_op-Hushed :
          (op : KvOp) (ctx : Ctx) → ctx.collecting ≡ true → Hushed (run_op validate op ctx)
      run_op-Hushed (range_op start_ns start_path end_ns end_path opts) ctx h w =
          bind-Hushed (range_query_kvs ctx start_ns start_path end_ns end_path opts) _
            (Quiet-Hushed (range_query_kvs ctx start_ns start_path end_ns end_path opts)
              (range_query_kvs-Quiet ctx start_ns start_path end_ns end_path opts))
            (λ p w. refl) w
      run_op-Hushed (put_op namespace path value) ctx h w =
          bind-Hushed (put_key_kv validate ctx namespace path value) _
            (put_key_kv-Hushed ctx namespace path value h) (λ p w. refl) w
      run_op-Hushed (delete_range_op start_ns start_path end_ns end_path return_prev) ctx h w =
          bind-Hushed (delete_range_keys_kv ctx start_ns start_path end_ns end_path return_prev) _
            (delete_range_keys_kv-Hushed ctx start_ns start_path end_ns end_path return_prev h)
            (λ p w. refl) w
      run_op-Hushed (txn_op input) ctx h w =
          bind-Hushed (txn validate input ctx) _ (txn-Hushed input ctx h) (λ res w. refl) w
      run_op-Hushed empty_txn_op ctx h w = refl
      run_op-Hushed unknown_op ctx h w = refl

    pub branches-Hushed :
        (compares : List KvCompare) (success failure : KvOps) (c : Ctx)
        → c.collecting ≡ true
        → Hushed (run_branches c compares (run_ops validate success 0) (run_ops validate failure 0))
    branches-Hushed compares success failure c hc =
        run_branches-Hushed c compares (run_ops validate success 0) (run_ops validate failure 0)
          (run_ops-Hushed success 0 c hc) (run_ops-Hushed failure 0 c hc)
