-- ===== src/Storage/Tx/Laws.antt =====
-- pkg/bbolt/manager.go: how a call of WithTx can end, and what every end keeps.
use elara.Prelude.{
  ◌≡◌, ◌≢◌, refl, ◌∙◌, Bool, true, false, if◌then◌else◌, inl, inr, Bool-cases, arith,
}
use elara.Prelude.Outcome.{Outcome, ok, err}
use elara.Domain.Failure.{Failure, begin_failed, commit_failed}
use elara.Storage.Tx.{
  Run, lift, Ctx, TxMode, no_tx, read_tx, write_tx, Rollback, with_tx, with_read_tx, join_or_begin,
  join_or_begin_read, begin_write_tx, begin_read_tx, run_write_tx, end_write_tx,
}

-- The context of the body of a transaction that a call opens.
abbrev pub inside : Ctx → Ctx
inside ctx = record ctx { mode = write_tx }

either : {A : Type 0} (Q : A → Type 0) (b : Bool) (x y : A) → Q x → Q y → Q (if b then x else y)
either Q true x y p q = p
either Q false x y p q = q

module _ {S A : Type 0} (rollback : Rollback S) where
  ended :
      (Q : Outcome Failure A × S → Type 0) (commit_fails : Bool) (s : S) (r : Outcome Failure A)
      (t : S)
      → ((a : A) → r ≡ ok a → Q (ok a, t))
      → ((e : Failure) → Q (err e, rollback s t))
      → Q (end_write_tx rollback commit_fails s (r, t))
  ended Q true s (ok a) t good bad = bad commit_failed
  ended Q false s (ok a) t good bad = good a refl
  ended Q c s (err e) t good bad = bad e

  begun :
      (Q : Outcome Failure A × S → Type 0) (ctx : Ctx) (body : Ctx → Run S A) (s : S)
      → Q (err begin_failed, s)
      → ((a : A) (t : S) → body (inside ctx) s ≡ (ok a, t) → Q (ok a, t))
      → ((e : Failure) (r : Outcome Failure A) (t : S)
          → body (inside ctx) s ≡ (r, t)
          → Q (err e, rollback s t))
      → Q (begin_write_tx rollback ctx body s)
  unfolding begin_write_tx run_write_tx
  begun Q ctx body s refused good bad =
      either Q ctx.begin_fails (err begin_failed, s)
        (end_write_tx rollback ctx.commit_fails s (body (inside ctx) s)) refused
        (ended Q ctx.commit_fails s (body (inside ctx) s).0 (body (inside ctx) s).1
          (λ a same. good a (body (inside ctx) s).1 (cc same))
          (λ e. bad e (body (inside ctx) s).0 (body (inside ctx) s).1 refl))

  by_mode :
      (Q : Outcome Failure A × S → Type 0) (mode : TxMode) (ctx : Ctx) (body : Ctx → Run S A)
      (s : S)
      → (mode ≡ write_tx → Q (body ctx s))
      → Q (begin_write_tx rollback ctx body s)
      → Q (join_or_begin rollback mode ctx body s)
  unfolding join_or_begin
  by_mode Q write_tx ctx body s joins begins = joins refl
  by_mode Q read_tx ctx body s joins begins = begins
  by_mode Q no_tx ctx body s joins begins = begins

  -- A call of WithTx joins the writable transaction of its context, or cannot begin one, or ends with
  -- the commit of a body that has succeeded, or rolls back.
  pub with_tx-ends :
      (Q : Outcome Failure A × S → Type 0) (ctx : Ctx) (body : Ctx → Run S A) (s : S)
      → (ctx.mode ≡ write_tx → Q (body ctx s))
      → Q (err begin_failed, s)
      → ((a : A) (t : S) → body (inside ctx) s ≡ (ok a, t) → Q (ok a, t))
      → ((e : Failure) (r : Outcome Failure A) (t : S)
          → body (inside ctx) s ≡ (r, t)
          → Q (err e, rollback s t))
      → Q (with_tx rollback ctx body s)
  unfolding with_tx
  with_tx-ends Q ctx body s joins refused good bad =
      by_mode Q ctx.mode ctx body s joins (begun Q ctx body s refused good bad)

  read_by_mode :
      (Q : Outcome Failure A × S → Type 0) (mode : TxMode) (ctx : Ctx) (body : Ctx → Run S A)
      (s : S)
      → Q (body ctx s)
      → Q (begin_read_tx rollback ctx body s)
      → Q (join_or_begin_read rollback mode ctx body s)
  unfolding join_or_begin_read
  read_by_mode Q write_tx ctx body s joins begins = joins
  read_by_mode Q read_tx ctx body s joins begins = joins
  read_by_mode Q no_tx ctx body s joins begins = begins

  read_begun :
      (Q : Outcome Failure A × S → Type 0) (ctx : Ctx) (body : Ctx → Run S A) (s : S)
      → Q (err begin_failed, s)
      → ((r : Outcome Failure A) (t : S)
          → body (record ctx { mode = read_tx }) s ≡ (r, t)
          → Q (r, rollback s t))
      → Q (begin_read_tx rollback ctx body s)
  unfolding begin_read_tx
  read_begun Q ctx body s refused good =
      let c = record ctx { mode = read_tx } in
      either Q ctx.begin_fails (err begin_failed, s) ((body c s).0, rollback s (body c s).1) refused
        (good (body c s).0 (body c s).1 refl)

  -- A call of WithReadTx joins the transaction of its context, or cannot begin one, or rolls back.
  pub with_read_tx-ends :
      (Q : Outcome Failure A × S → Type 0) (ctx : Ctx) (body : Ctx → Run S A) (s : S)
      → Q (body ctx s)
      → Q (err begin_failed, s)
      → ((r : Outcome Failure A) (t : S)
          → body (record ctx { mode = read_tx }) s ≡ (r, t)
          → Q (r, rollback s t))
      → Q (with_read_tx rollback ctx body s)
  unfolding with_read_tx
  with_read_tx-ends Q ctx body s joins refused good =
      read_by_mode Q ctx.mode ctx body s joins (read_begun Q ctx body s refused good)

module _ {S A B : Type 0} (rollback : Rollback S) where
  read_begun-lift :
      (ctx : Ctx) (f : S → Outcome Failure A) (s : S) (a : A) (s' : S)
      → begin_read_tx rollback ctx (λ tx s. lift (f s) s) s ≡ (ok a, s')
      → (f s ≡ ok a)
        × ((g : S → Outcome Failure B) (b : B)
            → g s ≡ ok b
            → begin_read_tx rollback ctx (λ tx s. lift (g s) s) s ≡ (ok b, s'))
  unfolding begin_read_tx
  read_begun-lift ctx f s a s' h = elim (Bool-cases ctx.begin_fails) [
    | inl e ↦ absurd (ground arith)
    | inr e ↦ (ground arith, λ g b k. ground arith)
  ]

  read_by_mode-lift :
      (mode : TxMode) (ctx : Ctx) (f : S → Outcome Failure A) (s : S) (a : A) (s' : S)
      → join_or_begin_read rollback mode ctx (λ tx s. lift (f s) s) s ≡ (ok a, s')
      → (f s ≡ ok a)
        × ((g : S → Outcome Failure B) (b : B)
            → g s ≡ ok b
            → join_or_begin_read rollback mode ctx (λ tx s. lift (g s) s) s ≡ (ok b, s'))
  unfolding join_or_begin_read
  read_by_mode-lift write_tx ctx f s a s' h = (cc h, λ g b k. ground arith)
  read_by_mode-lift read_tx ctx f s a s' h = (cc h, λ g b k. ground arith)
  read_by_mode-lift no_tx ctx f s a s' h = read_begun-lift ctx f s a s' h

  -- Where one pure read inside of WithReadTx succeeds, so does each that would on the same state.
  pub with_read_tx-lift :
      (ctx : Ctx) (f : S → Outcome Failure A) (s : S) (a : A) (s' : S)
      → with_read_tx rollback ctx (λ tx s. lift (f s) s) s ≡ (ok a, s')
      → (f s ≡ ok a)
        × ((g : S → Outcome Failure B) (b : B)
            → g s ≡ ok b
            → with_read_tx rollback ctx (λ tx s. lift (g s) s) s ≡ (ok b, s'))
  unfolding with_read_tx
  with_read_tx-lift ctx f s a s' h = read_by_mode-lift ctx.mode ctx f s a s' h

-- Outside of every transaction, WithTx keeps what its successful body keeps, whatever its result, when
-- a rollback restores the state.
pub with_tx-keeps :
    {S A : Type 0} (P : S → Type 0) (ctx : Ctx) (body : Ctx → Run S A) (s : S)
    → ctx.mode ≢ write_tx
    → P s
    → ((a : A) (t : S) → body (inside ctx) s ≡ (ok a, t) → P t)
    → P (with_tx (λ before after. before) ctx body s).1
with_tx-keeps P ctx body s outside p kept =
    with_tx-ends (λ before after. before) (λ r. P r.1) ctx body s (λ joins. absurd (outside joins))
      p kept (λ e r t ran. p)

-- A call of WithTx that succeeds has run its body with success.
pub with_tx_ok :
    {S A : Type 0} (rollback : Rollback S) (ctx : Ctx) (body : Ctx → Run S A) (s t : S) (a : A)
    → with_tx rollback ctx body s ≡ (ok a, t)
    → (c : Ctx) × (c.now ≡ ctx.now) × (body c s ≡ (ok a, t))
with_tx_ok rollback ctx body s t a =
    with_tx-ends rollback
      (λ r. r ≡ (ok a, t) → (c : Ctx) × (c.now ≡ ctx.now) × (body c s ≡ (ok a, t))) ctx body s
      (λ joins h. (ctx, refl, h)) (λ h. absurd (cc h)) (λ b u ran h. (inside ctx, refl, ran ∙ h))
      (λ e r u ran h. absurd (cc h))
