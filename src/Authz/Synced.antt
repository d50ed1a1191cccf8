-- ===== src/Authz/Synced.antt =====
-- internal/service/auth/casbin: how a write ends, and that the model in memory agrees with the bucket.
use elara.Prelude.{◌≡◌, Option, none, some, [], arith, Option-cases, inl, inr}
use elara.Prelude.Outcome.{Outcome, ok, err}
use elara.Domain.Failure.{Failure}
use elara.Storage.Tx.{Run, Ctx, with_tx}
use elara.Storage.Tx.Laws.{with_tx_ok}
use elara.Authz.Engine.{Engine}
use elara.Authz.Policies.{all_rules}
use elara.Authz.Enforcer.{
  World, write_tx, sync_cache, rollback_world, recovered, apply_ops_to_cache,
}

recovered_err :
    {E : Engine} {A : Type 0} (w w' : World E) (m : Option E.Model) (a : A)
    → ¬ (recovered w m ≡ (ok a, w'))
recovered_err w w' none a h = cc h
recovered_err w w' (some m) a h = cc h

synced :
    {E : Engine} {A : Type 0} (r : Outcome Failure A × World E) (w' : World E) (a : A)
    → sync_cache r ≡ (ok a, w')
    → (w1 : World E) × (m : E.Model) × (r ≡ (ok a, w1))
      × (apply_ops_to_cache E w1.ops w1.model ≡ some m)
      × (w' ≡ record w1 { model = m })
unfolding sync_cache
synced (err e, w) w' a h = absurd (cc h)
synced {E} (ok b, w) w' a h = elim (Option-cases (apply_ops_to_cache E w.ops w.model)) [
  | inl failed ↦
      absurd (recovered_err w w' (E.load (all_rules E (E.seek w.policies []))) a (ground arith))
  | inr (m, applied) ↦ (w, m, ground arith, applied, ground arith)
]

-- A write that succeeds has run its body with success, and keeps the buckets that the body leaves.
pub write_tx_ok :
    {E : Engine} {A : Type 0} (ctx : Ctx) (body : Ctx → Run (World E) A) (w w' : World E) (a : A)
    → write_tx ctx body w ≡ (ok a, w')
    → (c : Ctx) × (w1 : World E) × (m : E.Model) × (c.now ≡ ctx.now)
      × (body c (record w { ops = [] }) ≡ (ok a, w1))
      × (apply_ops_to_cache E w1.ops w1.model ≡ some m)
      × (w' ≡ record w1 { model = m })
unfolding write_tx
write_tx_ok ctx body w w' a h =
    let (w1, m, ran, applied, same) =
      synced (with_tx rollback_world ctx body (record w { ops = [] })) w' a h in
    let (c, now, ran') = with_tx_ok rollback_world ctx body (record w { ops = [] }) w1 a ran in
    (c, w1, m, now, ran', applied, same)
