-- ===== src/KvService/Txn/Emits.antt =====
-- internal/usecase/config/service_txn.go and kv_events.go: what an operation adds to the collector.
use elara.Prelude.{
  ℕ, Bytes, ◌≡◌, refl, ap, sym, ◌∙◌, subst, Bool, true, false, List, [], ◌∷◌, ◌++◌, if◌then◌else◌,
  if_true, map,
}
use mathlib.Core.List.{append_assoc, append-nil}
use elara.Prelude.Outcome.{Outcome, ok}
use elara.Domain.Failure.{Failure}
use elara.Domain.Config.{Format, detect_format_from_path}
use elara.Storage.Backend.{Backend}
use elara.Storage.Tx.{Run, Ctx, ◌>>=◌, pure, lift, with_tx, bind_ok}
use elara.Storage.Tx.Laws.{with_tx-ends}
use elara.ConfigStore.Db.{Db}
use elara.ConfigStore.EtcdWrite.{put_key, delete_range_keys}
use elara.KvService.{
  World, Event, rollback_world, on_db, add_events, put_event, deleted_event, collect_in_tx,
  put_key_kv, delete_range_keys_kv, range_query_kvs,
}
use elara.KvService.Compare.{KvCompare}
use elara.KvService.Txn.{
  KvOp, KvOps, KvTxnInput, KvOpResults, KvTxnResult, range_op, put_op, delete_range_op, txn_op,
  empty_txn_op, unknown_op, no_ops, op_then, txn_input, txn_result, has_writes, eval_compares,
  header_revision, run_branches, txn_boundary, txn, run_ops, run_op,
}
use elara.KvService.Txn.Events.{
  branch_events, events_of_txn, events_of_ops, events_of_op, put_event-expected,
  deleted_events-expected,
}
use elara.KvService.Txn.Quiet.{
  Quiet, range_query_kvs-Quiet, eval_compares-Quiet, header_revision-Quiet,
}

module _ {K : Backend} where
  -- On success, the collector has what is expected of the result added at its end.
  abbrev pub Emits : {A : Type 0} → Run (World K) A → (A → List Event) → Type 0
  Emits {A} m events =
      (w w' : World K) (a : A) → m w ≡ (ok a, w') → w'.pending ≡ w.pending ++ events a

  Quiet-ok :
      {A : Type 0} (m : Run (World K) A) (w : World K) {w' : World K} {a : A}
      → Quiet m
      → m w ≡ (ok a, w')
      → w' ≡ w
  Quiet-ok m w quiet h = sym (ap (λ p. p.1) h) ∙ quiet w

  finish :
      {B : Type 0} (w : World K) {t w' : World K} {a b : B} (events : B → List Event)
      → t.pending ≡ w.pending ++ events a
      → ◌≡◌ {A = Outcome Failure B × World K} (ok a, t) (ok b, w')
      → w'.pending ≡ w.pending ++ events b
  finish {B} w {a} {b} events emitted h =
      let same : ◌≡◌ {A = Outcome Failure B} (ok a) (ok b) = ap (λ p. p.0) h in
      let a_is_b : a ≡ b = cc same in
      sym (ap (λ p. p.1.pending) h) ∙ emitted ∙ ap (λ x. w.pending ++ events x) a_is_b

  pub collect_in_tx-Emits :
      {A : Type 0} (ctx : Ctx) (body : Ctx → Run (World K) A) (events : A → List Event)
      → ctx.collecting ≡ true
      → ((c : Ctx) → c.collecting ≡ true → c.now ≡ ctx.now → Emits (body c) events)
      → Emits (collect_in_tx ctx body) events
  unfolding collect_in_tx
  collect_in_tx-Emits {A} ctx body events h emits w w' a e =
      with_tx-ends rollback_world
        (λ p. (a : A) (w' : World K) → p ≡ (ok a, w') → w'.pending ≡ w.pending ++ events a) ctx body
        w (λ _ a w'. emits ctx h refl w w' a) (λ a w' e. cc e)
        (λ b t e a w' same. emits _ h refl w w' a (e ∙ same)) (λ x r t e a w' same. cc same) a w'
        (sym (if_true ctx.collecting (with_tx rollback_world ctx body w) _ h) ∙ e)

  -- A call of the repository, and the events that it is followed by.
  db_then_Emits :
      {A : Type 0} (m : Run (Db K) A) (events : A → List Event)
      → Emits (on_db m >>= λ a. add_events (events a) >>= λ _. pure a) events
  db_then_Emits {A} m events w w' a h =
      let (b, t, e, h1) = bind_ok (on_db m) _ w h in
      finish w events (ap (λ l. l ++ events b) (sym (ap (λ p. p.1.pending) e))) h1

  delete_range_keys_kv-Emits :
      (ctx : Ctx) (start_ns start_path end_ns end_path : Bytes) (return_prev : Bool)
      → ctx.collecting ≡ true
      → Emits
          (delete_range_keys_kv {K = K} ctx start_ns start_path end_ns end_path return_prev)
          (λ p. map (deleted_event p.1) p.0)
  unfolding delete_range_keys_kv
  delete_range_keys_kv-Emits ctx start_ns start_path end_ns end_path return_prev h =
      collect_in_tx-Emits ctx _ (λ p. map (deleted_event p.1) p.0) h
        (λ c _ _.
          db_then_Emits (delete_range_keys c start_ns start_path end_ns end_path return_prev)
            (λ p. map (deleted_event p.1) p.0))

  run_branches-Emits :
      (ctx : Ctx) (compares : List KvCompare)
      (success failure : Ctx → Run (World K) (KvOpResults × ℕ))
      (on_success on_failure : KvOpResults → List Event)
      → Emits (success ctx) (λ p. on_success p.0)
      → Emits (failure ctx) (λ p. on_failure p.0)
      → Emits (run_branches ctx compares success failure) (branch_events on_success on_failure)
  unfolding run_branches
  run_branches-Emits ctx compares success failure on_success on_failure es ef w w'
        (txn_result responses revision succeeded) h =
      let (held, t, e, h1) = bind_ok (eval_compares ctx compares) _ w h in
      let first : t ≡ w =
        Quiet-ok (eval_compares ctx compares) w (eval_compares-Quiet ctx compares) e in
      let (p, u, e2, h2) = bind_ok (if held then success ctx else failure ctx) _ t h1 in
      let (r, v, e3, h3) = bind_ok (header_revision ctx p.0 p.1) _ u h2 in
      let third : v ≡ u =
        Quiet-ok (header_revision ctx p.0 p.1) u (header_revision-Quiet ctx p.0 p.1) e3 in
      let last : v ≡ w' = ap (λ p. p.1) h3 in
      let same : ◌≡◌ {A = Outcome Failure KvTxnResult} (ok (txn_result p.0 r held))
          (ok (txn_result responses revision succeeded)) =
        ap (λ p. p.0) h3 in
      let at_responses : p.0 ≡ responses = cc same in
      let at_held : held ≡ succeeded = cc same in
      let emitted = taken held t u p e2 in cc (emitted, first, third, last, at_responses, at_held)
    where
      taken :
          (held : Bool) (t u : World K) (p : KvOpResults × ℕ)
          → (if held then success ctx else failure ctx) t ≡ (ok p, u)
          → u.pending ≡ t.pending ++ (if held then on_success p.0 else on_failure p.0)
      taken true t u p e = es t u p e
      taken false t u p e = ef t u p e

  txn_boundary-Emits :
      (writes : Bool) (ctx : Ctx) (body : Ctx → Run (World K) KvTxnResult)
      (events : KvTxnResult → List Event)
      → ctx.collecting ≡ true
      → ((c : Ctx) → c.collecting ≡ true → c.now ≡ ctx.now → Emits (body c) events)
      → Emits (txn_boundary writes ctx body) events
  unfolding txn_boundary
  txn_boundary-Emits false ctx body events h emits = emits ctx h refl
  txn_boundary-Emits true ctx body events h emits = collect_in_tx-Emits ctx body events h emits

  module _ (validate : Bytes → Bytes → Bytes → Format → Outcome Failure (Unit {0})) where
    put_key_kv-Emits :
        (ctx : Ctx) (namespace path value : Bytes)
        → ctx.collecting ≡ true
        → Emits
            (put_key_kv {K = K} validate ctx namespace path value)
            (λ p. put_event ctx.now namespace path value (detect_format_from_path path) p ∷ [])
    unfolding put_key_kv
    put_key_kv-Emits ctx namespace path value h w w' a e =
        let (u, t, e1, h1) =
          bind_ok (lift (validate namespace path value (detect_format_from_path path))) _ w e in
        let same : w ≡ t = ap (λ p. p.1) e1 in
        subst
          (λ t.
            w'.pending
            ≡ t.pending
              ++ put_event ctx.now namespace path value (detect_format_from_path path) a ∷ [])
          (sym same)
          (collect_in_tx-Emits ctx _
            (λ p. put_event ctx.now namespace path value (detect_format_from_path path) p ∷ []) h
            (λ c _ now.
              subst
                (λ n.
                  Emits
                    (on_db (put_key c namespace path value) >>= λ p.
                      add_events
                        (put_event c.now namespace path value (detect_format_from_path path) p ∷ [])
                      >>= λ _. pure p)
                    (λ p. put_event n namespace path value (detect_format_from_path path) p ∷ []))
                now
                (db_then_Emits (put_key c namespace path value) (λ p.
                  put_event c.now namespace path value (detect_format_from_path path) p ∷ [])))
            t w' a h1)

    mutual
      unfolding txn run_ops run_op events_of_txn events_of_ops events_of_op

      pub txn-Emits :
          (input : KvTxnInput) (ctx : Ctx)
          → ctx.collecting ≡ true
          → Emits (txn {K = K} validate input ctx) (events_of_txn ctx.now input)
      txn-Emits (txn_input compares success failure) ctx h =
          txn_boundary-Emits (has_writes (txn_input compares success failure)) ctx
            (λ tx.
              run_branches tx compares (run_ops validate success 0) (run_ops validate failure 0))
            (events_of_txn ctx.now (txn_input compares success failure)) h
            (λ c hc now.
              run_branches-Emits c compares (run_ops validate success 0)
                (run_ops validate failure 0) (events_of_ops ctx.now success)
                (events_of_ops ctx.now failure)
                (subst
                  (λ n. Emits (run_ops validate success 0 c) (λ p. events_of_ops n success p.0)) now
                  (run_ops-Emits success 0 c hc))
                (subst
                  (λ n. Emits (run_ops validate failure 0 c) (λ p. events_of_ops n failure p.0)) now
                  (run_ops-Emits failure 0 c hc)))

      run_ops-Emits :
          (ops : KvOps) (last : ℕ) (ctx : Ctx)
          → ctx.collecting ≡ true
          → Emits (run_ops {K = K} validate ops last ctx) (λ p. events_of_ops ctx.now ops p.0)
      run_ops-Emits no_ops last ctx h w w' a e =
          finish w (λ p. events_of_ops ctx.now no_ops p.0) (sym (append-nil w.pending)) e
      run_ops-Emits (op_then op ops) last ctx h w w' a e =
          let ((res, rev), t, e1, h1) = bind_ok (run_op validate op ctx) _ w e in
          let (rest, u, e2, h2) = bind_ok (run_ops validate ops _ ctx) _ t h1 in
          finish w (λ p. events_of_ops ctx.now (op_then op ops) p.0)
            (run_ops-Emits ops _ ctx h t u rest e2
              ∙ ap (λ l. l ++ events_of_ops ctx.now ops rest.0)
                  (run_op-Emits op ctx h w t (res, rev) e1)
              ∙ append_assoc w.pending (events_of_op ctx.now op res)
                  (events_of_ops ctx.now ops rest.0))
            h2

      run_op-Emits :
          (op : KvOp) (ctx : Ctx)
          → ctx.collecting ≡ true
          → Emits (run_op {K = K} validate op ctx) (λ p. events_of_op ctx.now op p.0)
      run_op-Emits (range_op start_ns start_path end_ns end_path opts) ctx h w w' a e =
          let (p, t, e1, h1) =
            bind_ok (range_query_kvs ctx start_ns start_path end_ns end_path opts) _ w e in
          let same =
            Quiet-ok (range_query_kvs ctx start_ns start_path end_ns end_path opts) w
              (range_query_kvs-Quiet ctx start_ns start_path end_ns end_path opts) e1 in
          finish w
            (λ p. events_of_op ctx.now (range_op start_ns start_path end_ns end_path opts) p.0)
            (ap (λ w. w.pending) same ∙ sym (append-nil w.pending)) h1
      run_op-Emits (put_op namespace path value) ctx h w w' a e =
          let (p, t, e1, h1) = bind_ok (put_key_kv validate ctx namespace path value) _ w e in
          finish w (λ p. events_of_op ctx.now (put_op namespace path value) p.0)
            (put_key_kv-Emits ctx namespace path value h w t p e1
              ∙ ap (λ x. w.pending ++ x ∷ [])
                  (put_event-expected ctx.now namespace path value (detect_format_from_path path)
                    p))
            h1
      run_op-Emits (delete_range_op start_ns start_path end_ns end_path return_prev) ctx h w w' a
            e =
          let (p, t, e1, h1) =
            bind_ok (delete_range_keys_kv ctx start_ns start_path end_ns end_path return_prev) _ w
              e in
          finish w
            (λ p.
              events_of_op ctx.now (delete_range_op start_ns start_path end_ns end_path return_prev)
                p.0)
            (delete_range_keys_kv-Emits ctx start_ns start_path end_ns end_path return_prev h w t p
                e1
              ∙ ap (λ l. w.pending ++ l) (deleted_events-expected p.1 p.0))
            h1
      run_op-Emits (txn_op input) ctx h w w' a e =
          let (res, t, e1, h1) = bind_ok (txn validate input ctx) _ w e in
          finish w (λ p. events_of_op ctx.now (txn_op input) p.0) (txn-Emits input ctx h w t res e1)
            h1
      run_op-Emits empty_txn_op ctx h w w' a e = cc e
      run_op-Emits unknown_op ctx h w w' a e = cc e

    pub branches-Emits :
        (compares : List KvCompare) (success failure : KvOps) (now : ℕ) (c : Ctx)
        → c.collecting ≡ true
        → c.now ≡ now
        → Emits
            (run_branches {K = K} c compares
              (run_ops validate success 0)
              (run_ops validate failure 0))
            (events_of_txn now (txn_input compares success failure))
    unfolding events_of_txn
    branches-Emits compares success failure now c hc at =
        subst
          (λ n.
            Emits
              (run_branches c compares (run_ops validate success 0) (run_ops validate failure 0))
              (events_of_txn n (txn_input compares success failure)))
          at
          (run_branches-Emits c compares (run_ops validate success 0) (run_ops validate failure 0)
            (events_of_ops c.now success) (events_of_ops c.now failure)
            (run_ops-Emits success 0 c hc) (run_ops-Emits failure 0 c hc))
