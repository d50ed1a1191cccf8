-- ===== src/KvService/Txn/Atomic.antt =====
-- internal/usecase/config/service_txn.go: a transaction happens as a whole or not at all, and the
-- watcher hears of it only after the commit.
use elara.Prelude.{Bytes, ◌≡◌, ◌≢◌, refl, ap, sym, ◌∙◌, Bool, true, false, List, [], ◌++◌, if_false}
use mathlib.Core.List.{append-nil}
use elara.Prelude.Outcome.{Outcome, ok, err}
use elara.Domain.Failure.{Failure}
use elara.Domain.Config.{Format}
use elara.Storage.Backend.{Backend}
use elara.Storage.Tx.{Run, Ctx, write_tx, with_tx}
use elara.Storage.Tx.Laws.{with_tx-ends}
use elara.KvService.{World, Event, rollback_world, flush_after, collect_in_tx}
use elara.KvService.Txn.{
  KvTxnInput, KvTxnResult, txn_input, has_writes, run_branches, txn_boundary, txn, run_ops,
}
use elara.KvService.Txn.Events.{events_of_txn, events_of_txn-nil}
use elara.KvService.Txn.Quiet.{Quiet, txn-Quiet, branches-Quiet}
use elara.KvService.Txn.Hushed.{Hushed, branches-Hushed}
use elara.KvService.Txn.Emits.{Emits, branches-Emits}

module _ {K : Backend} {A : Type 0} (body : Ctx → Run (World K) A) where
  abbrev NothingDone : World K → Outcome Failure A × World K → Type 0
  NothingDone w p =
      (e : Failure) (w' : World K)
      → flush_after p ≡ (err e, w')
      → (w'.db ≡ w.db) × (w'.published ≡ w.published)

  pub collect_in_tx-atomic :
      (ctx : Ctx) (w : World K) (e : Failure) (w' : World K)
      → ((c : Ctx) → c.collecting ≡ true → Hushed (body c))
      → ctx.mode ≢ write_tx
      → ctx.collecting ≡ false
      → collect_in_tx ctx body w ≡ (err e, w')
      → (w'.db ≡ w.db) × (w'.published ≡ w.published)
  unfolding collect_in_tx
  collect_in_tx-atomic ctx w e w' hushed outside h r =
      let c = record ctx { collecting = true } in
      let empty = record w { pending = [] } in
      with_tx-ends rollback_world (NothingDone w) c body empty (λ joins. absurd (outside joins))
        (λ x v same. (sym (ap (λ p. p.1.db) same), sym (ap (λ p. p.1.published) same)))
        (λ a t ran x v same. cc same)
        (λ x r t ran y v same. (
          sym (ap (λ p. p.1.db) same),
          sym (ap (λ p. p.1.published) same)
              ∙ sym (ap (λ p. p.1.published) ran)
              ∙ hushed _ refl empty,
        ))
        e w' (sym (if_false ctx.collecting (with_tx rollback_world ctx body w) _ h) ∙ r)

  abbrev AllPublished : World K → (A → List Event) → Outcome Failure A × World K → Type 0
  AllPublished w events p =
      (a : A) (w' : World K) → flush_after p ≡ (ok a, w') → w'.published ≡ w.published ++ events a

  published_after :
      (w : World K) (events : A → List Event) (p : Outcome Failure A × World K)
      → p.1.published ≡ w.published
      → ((a : A) (t : World K) → p ≡ (ok a, t) → t.pending ≡ [] ++ events a)
      → AllPublished w events p
  published_after w events (ok b, t) same emitted a w' h =
      let ended : t.published ++ t.pending ≡ w'.published = ap (λ p. p.1.published) h in
      let same_value : ◌≡◌ {A = Outcome Failure A} (ok b) (ok a) = ap (λ p. p.0) h in
      let b_is_a : b ≡ a = cc same_value in cc (ended, same, b_is_a, emitted b t refl)
  published_after w events (err x, t) same emitted a w' h = cc h

  pub collect_in_tx-publishes :
      (ctx : Ctx) (events : A → List Event) (w : World K) (a : A) (w' : World K)
      → ((c : Ctx) → c.collecting ≡ true → Hushed (body c))
      → ((c : Ctx) → c.collecting ≡ true → c.now ≡ ctx.now → Emits (body c) events)
      → ctx.collecting ≡ false
      → collect_in_tx ctx body w ≡ (ok a, w')
      → w'.published ≡ w.published ++ events a
  unfolding collect_in_tx
  collect_in_tx-publishes ctx events w a w' hushed emits h r =
      let c = record ctx { collecting = true } in
      let empty = record w { pending = [] } in
      with_tx-ends rollback_world (AllPublished w events) c body empty
        (λ _.
          published_after w events (body c empty) (hushed c refl empty)
            (λ b t ran. emits c refl refl empty t b ran))
        (λ b v same. cc same)
        (λ b t ran.
          published_after w events (ok b, t)
            (sym (ap (λ p. p.1.published) ran) ∙ hushed _ refl empty)
            (λ b' t' same. emits _ refl refl empty t' b' (ran ∙ same)))
        (λ x r t ran b v same. cc same) a w'
        (sym (if_false ctx.collecting (with_tx rollback_world ctx body w) _ h) ∙ r)

module _ {K : Backend} where
  boundary_atomic :
      (writes : Bool) (body : Ctx → Run (World K) KvTxnResult) (ctx : Ctx) (w : World K)
      (e : Failure) (w' : World K)
      → (writes ≡ false → Quiet (body ctx))
      → ((c : Ctx) → c.collecting ≡ true → Hushed (body c))
      → ctx.mode ≢ write_tx
      → ctx.collecting ≡ false
      → txn_boundary writes ctx body w ≡ (err e, w')
      → (w'.db ≡ w.db) × (w'.published ≡ w.published)
  unfolding txn_boundary
  boundary_atomic true body ctx w e w' quiet hushed outside h r =
      collect_in_tx-atomic body ctx w e w' hushed outside h r
  boundary_atomic false body ctx w e w' quiet hushed outside h r =
      let same : w' ≡ w = sym (ap (λ p. p.1) r) ∙ quiet refl w in
      (ap (λ w. w.db) same, ap (λ w. w.published) same)

  boundary_publishes :
      (writes : Bool) (body : Ctx → Run (World K) KvTxnResult) (ctx : Ctx)
      (events : KvTxnResult → List Event) (w : World K) (a : KvTxnResult) (w' : World K)
      → (writes ≡ false → Quiet (body ctx) × (events a ≡ []))
      → ((c : Ctx) → c.collecting ≡ true → Hushed (body c))
      → ((c : Ctx) → c.collecting ≡ true → c.now ≡ ctx.now → Emits (body c) events)
      → ctx.collecting ≡ false
      → txn_boundary writes ctx body w ≡ (ok a, w')
      → w'.published ≡ w.published ++ events a
  unfolding txn_boundary
  boundary_publishes true body ctx events w a w' quiet hushed emits h r =
      collect_in_tx-publishes body ctx events w a w' hushed emits h r
  boundary_publishes false body ctx events w a w' quiet hushed emits h r =
      let same : w' ≡ w = sym (ap (λ p. p.1) r) ∙ (quiet refl).0 w in
      ap (λ w. w.published) same
      ∙ sym (append-nil w.published)
      ∙ ap (λ l. w.published ++ l) (sym (quiet refl).1)

module _ {K : Backend}
    (validate : Bytes → Bytes → Bytes → Format → Outcome Failure (Unit {0})) where
  -- A Txn that is called outside of every transaction and fails, at whatever operation or at the commit,
  -- leaves all buckets as they were and publishes nothing.
  pub txn_atomic :
      (input : KvTxnInput) (ctx : Ctx) (w : World K) (e : Failure) (w' : World K)
      → ctx.mode ≢ write_tx
      → ctx.collecting ≡ false
      → txn validate input ctx w ≡ (err e, w')
      → (w'.db ≡ w.db) × (w'.published ≡ w.published)
  unfolding txn
  txn_atomic (txn_input compares success failure) ctx w e w' =
      boundary_atomic (has_writes (txn_input compares success failure))
        (λ tx. run_branches tx compares (run_ops validate success 0) (run_ops validate failure 0))
        ctx w e w' (branches-Quiet validate compares success failure ctx)
        (branches-Hushed validate compares success failure)

  -- A Txn that is called without a collector and succeeds publishes exactly the notifications that its
  -- results call for, in the order of its operations, those of nested transactions in their place: a
  -- creation for a put without a previous pair, an update for one with such a pair, each with its
  -- content, revision, version and times, and a deletion for each pair deleted.
  pub txn_publishes :
      (input : KvTxnInput) (ctx : Ctx) (w : World K) (res : KvTxnResult) (w' : World K)
      → ctx.collecting ≡ false
      → txn validate input ctx w ≡ (ok res, w')
      → w'.published ≡ w.published ++ events_of_txn ctx.now input res
  unfolding txn
  txn_publishes (txn_input compares success failure) ctx w res w' =
      boundary_publishes (has_writes (txn_input compares success failure))
        (λ tx. run_branches tx compares (run_ops validate success 0) (run_ops validate failure 0))
        ctx (events_of_txn ctx.now (txn_input compares success failure)) w res w'
        (λ h. (
          branches-Quiet validate compares success failure ctx h,
          events_of_txn-nil (txn_input compares success failure) ctx.now res h,
        ))
        (branches-Hushed validate compares success failure)
        (branches-Emits validate compares success failure ctx.now)

  -- A Txn without a put or a delete in either branch, nested ones included, changes nothing: no bucket,
  -- no collector, no publication, whether it succeeds or not.
  pub txn_read_only :
      (input : KvTxnInput) (ctx : Ctx) (w : World K)
      → has_writes input ≡ false
      → (txn validate input ctx w).1 ≡ w
  txn_read_only input ctx w h = txn-Quiet validate input ctx h w
