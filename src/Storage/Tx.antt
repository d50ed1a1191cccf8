-- ===== src/Storage/Tx.antt =====
-- pkg/bbolt/manager.go: transactions. An operation is a function of the state that it is given, and
-- hands the state back beside a value or an error: what was written before an error stays written,
-- until a transaction rolls it back.
pub mod Laws
use elara.Prelude.{ℕ, ◌≡◌, refl, Bool, true, false, if◌then◌else◌}
use elara.Prelude.Outcome.{Outcome, ok, err}
use elara.Domain.Failure.{Failure, begin_failed, commit_failed}

abbrev pub Run : Type 0 → Type 0 → Type 0
Run S A = S → Outcome Failure A × S

abbrev pub continue :
    {S A B : Type 0} → Outcome Failure A × S → (A → Run S B) → Outcome Failure B × S
continue (ok a, s) f = f a s
continue (err e, s) f = (err e, s)

infixl 5 ◌>>=◌ ◌>>◌
abbrev pub ◌>>=◌ : {S A B : Type 0} → Run S A → (A → Run S B) → Run S B
◌>>=◌ m f s = continue (m s) f

abbrev pub ◌>>◌ : {S B : Type 0} → Run S (Unit {0}) → Run S B → Run S B
m >> k = m >>= λ _. k

abbrev pub pure : {S A : Type 0} → A → Run S A
pure a s = (ok a, s)

abbrev pub fail : {S A : Type 0} → Failure → Run S A
fail e s = (err e, s)

abbrev pub lift : {S A : Type 0} → Outcome Failure A → Run S A
lift r s = (r, s)

abbrev pub gets : {S A : Type 0} → (S → A) → Run S A
gets f s = (ok (f s), s)

-- if test { return err }
abbrev pub refuse_if : {S : Type 0} → Bool → Failure → Run S (Unit {0})
refuse_if true e = fail e
refuse_if false e = pure tt

-- The transaction that a context carries.
pub data TxMode : Type 0 where
  no_tx read_tx write_tx : TxMode

-- The context of a call: its transaction, whether it carries an event collector, the reading of the
-- clock, and whether opening or committing a transaction would fail.
pub record Ctx : Type 0 where
  pub mode : TxMode
  pub collecting : Bool
  pub now : ℕ
  pub begin_fails : Bool
  pub commit_fails : Bool

-- What is left after a rollback, of the state before and the state after.
abbrev pub Rollback : Type 0 → Type 0
Rollback S = S → S → S

abbrev end_write_tx :
    {S A : Type 0} → Rollback S → Bool → S → Outcome Failure A × S → Outcome Failure A × S
end_write_tx rollback commit_fails before (ok a, after) =
    if commit_fails then (err commit_failed, rollback before after) else (ok a, after)
end_write_tx rollback commit_fails before (err e, after) = (err e, rollback before after)

-- runTx, for a writable transaction
unfoldable pub run_write_tx : {S A : Type 0} → Rollback S → Ctx → (Ctx → Run S A) → Run S A
run_write_tx rollback ctx body s =
    end_write_tx rollback ctx.commit_fails s (body (record ctx { mode = write_tx }) s)

begin_write_tx : {S A : Type 0} → Rollback S → Ctx → (Ctx → Run S A) → Run S A
unfolding run_write_tx
begin_write_tx rollback ctx body s =
    if ctx.begin_fails then (err begin_failed, s) else run_write_tx rollback ctx body s

join_or_begin : {S A : Type 0} → Rollback S → TxMode → Ctx → (Ctx → Run S A) → Run S A
unfolding begin_write_tx
join_or_begin rollback write_tx ctx body = body ctx
join_or_begin rollback read_tx ctx body = begin_write_tx rollback ctx body
join_or_begin rollback no_tx ctx body = begin_write_tx rollback ctx body

-- WithTx: a call inside a writable transaction joins it.
unfoldable pub with_tx : {S A : Type 0} → Rollback S → Ctx → (Ctx → Run S A) → Run S A
unfolding join_or_begin
with_tx rollback ctx body = join_or_begin rollback ctx.mode ctx body

-- A read-only transaction is always rolled back.
begin_read_tx : {S A : Type 0} → Rollback S → Ctx → (Ctx → Run S A) → Run S A
begin_read_tx rollback ctx body s =
    if ctx.begin_fails
    then (err begin_failed, s)
    else let (r, after) = body (record ctx { mode = read_tx }) s in (r, rollback s after)

join_or_begin_read : {S A : Type 0} → Rollback S → TxMode → Ctx → (Ctx → Run S A) → Run S A
unfolding begin_read_tx
join_or_begin_read rollback write_tx ctx body = body ctx
join_or_begin_read rollback read_tx ctx body = body ctx
join_or_begin_read rollback no_tx ctx body = begin_read_tx rollback ctx body

-- WithReadTx: a call inside any transaction joins it.
unfoldable pub with_read_tx : {S A : Type 0} → Rollback S → Ctx → (Ctx → Run S A) → Run S A
unfolding join_or_begin_read
with_read_tx rollback ctx body = join_or_begin_read rollback ctx.mode ctx body

-- A successful bind is two successful steps.
bind_step :
    {S A B : Type 0} (f : A → Run S B) (r r' : Outcome Failure A × S) {s' : S} {b : B}
    → r ≡ r'
    → continue r' f ≡ (ok b, s')
    → (a : A) × (t : S) × (r ≡ (ok a, t)) × (f a t ≡ (ok b, s'))
bind_step f r (ok a, t) e h = (a, t, e, h)
bind_step f r (err x, t) e h = cc

pub bind_ok :
    {S A B : Type 0} (m : Run S A) (f : A → Run S B) (s : S) {s' : S} {b : B}
    → (m >>= f) s ≡ (ok b, s')
    → (a : A) × (t : S) × (m s ≡ (ok a, t)) × (f a t ≡ (ok b, s'))
bind_ok m f s h = bind_step f (m s) (m s) refl h

pub pure_ok :
    {S A : Type 0} (a : A) (s : S) {s' : S} {b : A} → pure a s ≡ (ok b, s') → (a ≡ b) × (s ≡ s')
pure_ok a s h = (cc, cc)

pub refuse_if_ok :
    {S : Type 0} (b : Bool) (e : Failure) (s : S) {s' : S} {u : Unit {0}}
    → refuse_if b e s ≡ (ok u, s')
    → (b ≡ false) × (s ≡ s')
refuse_if_ok true e s h = cc
refuse_if_ok false e s h = (refl, cc)
