-- ===== src/Authz/Tracked.antt =====
-- internal/service/auth/casbin and internal/service/authz/pap_tx.go: what a transaction records is what
-- it does to the bucket.
use elara.Prelude.{
  Bytes, ◌≡◌, refl, ap, subst, some, List, [], ◌∷◌, ◌++◌, All, arith, Bool-cases, Option-cases, inl,
  inr,
}
use elara.Prelude.Outcome.{ok}
use elara.Storage.Tx.{Run, bind_ok}
use elara.Authz.Rbac.{Permission, group_resource}
use elara.Authz.Engine.{Engine, Rule}
use elara.Authz.Policies.{rule_key}
use elara.Authz.Enforcer.{
  World, Op, op_add_p, op_remove_p, op_add_g, op_remove_g, sec_p, sec_g, apply_op,
  apply_ops_to_cache, put_rule, delete_rule, tx_add_policy, tx_remove_policy, tx_add_role_for_user,
  tx_remove_role_for_user,
}
use elara.Authz.Points.{
  rule_permission, remove_permissions, add_permissions, apply_permission_deltas,
}
use elara.Authz.Agreement.{IsText, Agrees, on_bucket, IsRuleOp, apply_op-Agrees}

apply_ops_snoc :
    (E : Engine) (ops : List Op) (o : Op) (m m' : E.Model)
    → apply_ops_to_cache E (ops ++ o ∷ []) m ≡ some m'
    → (m1 : E.Model) × (apply_ops_to_cache E ops m ≡ some m1) × (apply_op E o m1 ≡ some m')
unfolding apply_ops_to_cache
apply_ops_snoc E [] o m m' h = elim (Option-cases (apply_op E o m)) [
  | inl failed ↦ absurd (ground arith)
  | inr (m1, e) ↦ (m, refl, ground arith)
]
apply_ops_snoc E (x ∷ ops) o m m' h = elim (Option-cases (apply_op E x m)) [
  | inl failed ↦ absurd (ground arith)
  | inr (m1, e) ↦
      let (m2, ran, last) = apply_ops_snoc E ops o m1 m' (ground arith) in (m2, ground arith, last)
]

-- Rules of permissions that encoding/json writes as they are.
abbrev pub AllText : Engine → Bytes → List Permission → Type 0
AllText E subject ps = All (λ p. IsText E (rule_permission subject p)) ps

module _ {E : Engine} where
  -- The model is untouched, and would agree with the bucket if the recorded mutations were applied.
  abbrev pub IsTracked : E.Model → World E → Type 0
  IsTracked m0 w =
      (w.model ≡ m0)
      × ((m : E.Model) → apply_ops_to_cache E w.ops m0 ≡ some m → Agrees E m w.policies)

  abbrev pub Keeps : {A : Type 0} → Run (World E) A → Type 0
  Keeps {A} body =
      (m0 : E.Model) (w w' : World E) (a : A)
      → IsTracked m0 w
      → body w ≡ (ok a, w')
      → IsTracked m0 w'

  -- The state after a mutation that has been recorded.
  abbrev mutated : Op → World E → World E
  mutated o w = record w { policies = on_bucket E o w.policies; ops = w.ops ++ o ∷ [] }

  mutated-IsTracked :
      (o : Op) (m0 : E.Model) (w : World E)
      → IsRuleOp E o
      → IsTracked m0 w
      → IsTracked m0 (mutated o w)
  mutated-IsTracked o m0 w t (same, agrees) = (
    same,
    λ m h.
        let (m1, ran, last) = apply_ops_snoc E w.ops o m0 m h in
        apply_op-Agrees E o m1 m w.policies t (agrees m1 ran) last,
  )

  add_policy-Keeps : (r : Rule) → IsText E r → Keeps (tx_add_policy {E = E} r)
  unfolding tx_add_policy put_rule
  add_policy-Keeps r t m0 w w' a tracked h = elim (Bool-cases (E.rejects (rule_key E sec_p r) [])) [
    | inl refused ↦ absurd (ground arith)
    | inr taken ↦
        let same : mutated (op_add_p r) w ≡ w' = ground arith in
        subst (IsTracked m0) same (mutated-IsTracked (op_add_p r) m0 w t tracked)
  ]

  pub add_role-Keeps : (r : Rule) → IsText E r → Keeps (tx_add_role_for_user {E = E} r)
  unfolding tx_add_role_for_user put_rule
  add_role-Keeps r t m0 w w' a tracked h = elim (Bool-cases (E.rejects (rule_key E sec_g r) [])) [
    | inl refused ↦ absurd (ground arith)
    | inr taken ↦
        let same : mutated (op_add_g r) w ≡ w' = ground arith in
        subst (IsTracked m0) same (mutated-IsTracked (op_add_g r) m0 w t tracked)
  ]

  remove_policy-Keeps : (r : Rule) → IsText E r → Keeps (tx_remove_policy {E = E} r)
  unfolding tx_remove_policy delete_rule
  remove_policy-Keeps r t m0 w w' a tracked h =
      subst (IsTracked m0) (ap (λ p. p.1) h) (mutated-IsTracked (op_remove_p r) m0 w t tracked)

  pub remove_role-Keeps : (r : Rule) → IsText E r → Keeps (tx_remove_role_for_user {E = E} r)
  unfolding tx_remove_role_for_user delete_rule
  remove_role-Keeps r t m0 w w' a tracked h =
      subst (IsTracked m0) (ap (λ p. p.1) h) (mutated-IsTracked (op_remove_g r) m0 w t tracked)

  add_permissions-Keeps :
      (subject : Bytes) (ps : List Permission)
      → AllText E subject ps
      → Keeps (add_permissions {E = E} subject ps)
  unfolding add_permissions
  add_permissions-Keeps subject [] t m0 w w' a tracked h =
      subst (IsTracked m0) (ap (λ p. p.1) h) tracked
  add_permissions-Keeps subject (p ∷ ps) (t, ts) m0 w w' a tracked h =
      let (u, w1, e1, h1) =
        bind_ok (tx_add_policy (rule_permission subject p)) (λ u. add_permissions subject ps) w h in
      add_permissions-Keeps subject ps ts m0 w1 w' a
        (add_policy-Keeps (rule_permission subject p) t m0 w w1 u tracked e1) h1

  remove_permissions-Keeps :
      (subject : Bytes) (ps : List Permission)
      → AllText E subject ps
      → Keeps (remove_permissions {E = E} subject ps)
  unfolding remove_permissions
  remove_permissions-Keeps subject [] t m0 w w' a tracked h =
      subst (IsTracked m0) (ap (λ p. p.1) h) tracked
  remove_permissions-Keeps subject (p ∷ ps) (t, ts) m0 w w' a tracked h =
      let (u, w1, e1, h1) =
        bind_ok (tx_remove_policy (rule_permission subject p)) (λ u. remove_permissions subject ps)
          w h in
      remove_permissions-Keeps subject ps ts m0 w1 w' a
        (remove_policy-Keeps (rule_permission subject p) t m0 w w1 u tracked e1) h1

  pub apply_permission_deltas-Keeps :
      (name : Bytes) (added removed : List Permission)
      → AllText E (group_resource name) added
      → AllText E (group_resource name) removed
      → Keeps (apply_permission_deltas {E = E} name added removed)
  unfolding apply_permission_deltas
  apply_permission_deltas-Keeps name added removed ta tr m0 w w' a tracked h =
      let subject = group_resource name in
      let (u, w1, e1, h1) =
        bind_ok (remove_permissions subject removed) (λ u. add_permissions subject added) w h in
      add_permissions-Keeps subject added ta m0 w1 w' a
        (remove_permissions-Keeps subject removed tr m0 w w1 u tracked e1) h1
