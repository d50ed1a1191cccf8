-- ===== src/Groups/Deletion.antt =====
-- internal/usecase/group/service_delete.go: what the deletion of a group leaves.
use elara.Prelude.{
  Bytes, not, ◌≡◌, sym, ap, ap₂, ◌∙◌, ◌&&◌, some, [], ◌∷◌, ◌++◌, arith, Option-cases, inl, inr,
}
use elara.Prelude.Outcome.{ok}
use elara.Storage.Tx.{Run, Ctx, ◌>>=◌, ◌>>◌, bind_ok}
use elara.Authz.Rbac.{group_resource}
use elara.Authz.Engine.{Engine, Rule, Group, has_rule, starts_with}
use elara.Authz.Policies.{rule_key}
use elara.Authz.Enforcer.{
  World, Op, op_delete_user, sec_p, tx_delete_user, apply_op, apply_ops_to_cache,
}
use elara.Authz.Points.{delete_group_rules}
use elara.Authz.Agreement.{IsText}
use elara.Authz.Deletion.{tx_delete_user_keeps, apply_op-delete_user}
use elara.Authz.Synced.{write_tx_ok}
use elara.Groups.Store.{get_group, drop_group}
use elara.Groups.{load_mutable_group, delete_group}
use elara.Groups.Checks.{load_mutable_group_ok}

apply_one :
    (E : Engine) (o : Op) (m m' : E.Model)
    → apply_ops_to_cache E (o ∷ []) m ≡ some m'
    → apply_op E o m ≡ some m'
unfolding apply_ops_to_cache
apply_one E o m m' h = elim (Option-cases (apply_op E o m)) [
  | inl failed ↦ absurd (ground arith)
  | inr (m1, e) ↦ ground arith
]

module _ {E : Engine} where
  drop_group_keeps :
      (name : Bytes) (w w' : World E) (a : Unit)
      → drop_group name w ≡ (ok a, w')
      → (w'.policies ≡ w.policies) × (w'.ops ≡ w.ops) × (w'.model ≡ w.model)
  unfolding drop_group
  drop_group_keeps name w w' a h = elim (Option-cases (E.get w.groups name)) [
    | inl gone ↦ absurd (ground arith)
    | inr (b, at) ↦
        let same : record w { groups = E.delete w.groups name } ≡ w' = ground arith in
        (ap (λ v. v.policies) (sym same), ap (λ v. v.ops) (sym same), ap (λ v. v.model) (sym same))
  ]

  -- After a successful Delete of a group, every permission rule that was in the bucket is in it still,
  -- those of the group too, while the rules in memory have lost those of the group and no other.
  pub delete_group_keeps_permissions :
      (ctx : Ctx) (name : Bytes) (w w' : World E) (a : Unit)
      → delete_group ctx name w ≡ (ok a, w')
      → (g : Group) × (get_group name (record w { ops = [] }) ≡ (ok g, record w { ops = [] }))
        × ((q : Rule)
            → IsText E q
            → (E.get w'.policies (rule_key E sec_p q) ≡ E.get w.policies (rule_key E sec_p q))
              × (has_rule q (E.policy w'.model)
                  ≡ (not (starts_with (group_resource g.name) q) && has_rule q (E.policy w.model))))
  unfolding delete_group delete_group_rules
  delete_group_keeps_permissions ctx name w w' a h =
      let w0 : World E = record w { ops = [] } in
      let body : Ctx → Run (World E) Unit =
        λ tx. do g ← load_mutable_group name; delete_group_rules g.name; drop_group name
      in let (c, w1, m, now, ran, applied, same) = write_tx_ok ctx body w w' a h in
        let (g, w2, e2, h2) =
          bind_ok (load_mutable_group name) (λ g. delete_group_rules g.name >> drop_group name) w0
            ran in
        let (found, free, s2) = load_mutable_group_ok name w0 w2 g e2 in
        let user = group_resource g.name in
        let (u, w3, e3, h3) = bind_ok (tx_delete_user user) (λ u. drop_group name) w2 h2 in
        let (policies, ops, model) = drop_group_keeps name w3 w1 a h3 in
        (
          g,
          found,
          λ q t.
              let key = rule_key E sec_p q in
              let (kept, ops3, model3) = tx_delete_user_keeps E user q w2 w3 u t e3 in
              let all_ops : w1.ops ≡ op_delete_user user ∷ [] =
                ops ∙ ops3 ∙ ap (λ v. v.ops ++ op_delete_user user ∷ []) (sym s2) in
              let was : w1.model ≡ w.model = model ∙ model3 ∙ ap (λ v. v.model) (sym s2) in
              let applied' : apply_ops_to_cache E (op_delete_user user ∷ []) w.model ≡ some m =
                ap₂ (apply_ops_to_cache E) (sym all_ops) (sym was) ∙ applied in
              (
                ap (λ v. E.get v.policies key) same
                    ∙ ap (λ b. E.get b key) policies
                    ∙ kept
                    ∙ ap (λ v. E.get v.policies key) (sym s2),
                ap (λ v. has_rule q (E.policy v.model)) same
                    ∙ apply_op-delete_user E user q w.model m
                        (apply_one E (op_delete_user user) w.model m applied'),
              ),
        )
