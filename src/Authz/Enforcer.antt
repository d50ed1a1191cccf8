-- ===== src/Authz/Enforcer.antt =====
-- internal/service/auth/casbin: the enforcer, its transactions, and its cache.
use elara.Prelude.{
  ℕ, Bytes, codes, bytes_eq, Option, none, some, List, [], ◌∷◌, ◌++◌, if◌then◌else◌,
}
use elara.Prelude.Outcome.{Outcome, ok, err}
use elara.Domain.Failure.{Failure, put_failed, cache_desync}
use elara.Storage.Tx.{Run, Ctx, Rollback, ◌>>◌, gets, with_tx}
use elara.Authz.Engine.{Engine, Rule}
use elara.Authz.Policies.{rule_key, delete_matching, rules_for_subject, all_rules}

-- A recorded mutation: kind, and rule or user.
pub data Op : Type 0 where
  op_add_p op_remove_p op_add_g op_remove_g : Rule → Op
  op_delete_user : Bytes → Op

-- The buckets of the groups and of the rules, the model that the enforcer keeps in memory, and what
-- the open transaction has recorded.
pub record World (E : Engine) : Type 0 where
  pub groups : E.Bucket
  pub policies : E.Bucket
  pub model : E.Model
  pub ops : List Op

abbrev pub sec_p : Bytes
sec_p = codes "p"

abbrev pub sec_g : Bytes
sec_g = codes "g"

abbrev then_delete_role : (E : Engine) → Bytes → Option E.Model → Option E.Model
then_delete_role E user none = none
then_delete_role E user (some m) = E.delete_role m user

unfoldable pub apply_op : (E : Engine) → Op → E.Model → Option E.Model
apply_op E (op_add_p rule) m = E.add_policy m rule
apply_op E (op_remove_p rule) m = E.remove_policy m rule
apply_op E (op_add_g rule) m = E.add_grouping m rule
apply_op E (op_remove_g rule) m = E.remove_grouping m rule
apply_op E (op_delete_user user) m = then_delete_role E user (E.delete_user m user)

unfoldable pub apply_ops_to_cache : (E : Engine) → List Op → E.Model → Option E.Model
unfolding apply_op
apply_ops_to_cache E [] m = some m
apply_ops_to_cache E (o ∷ ops) m = elim (apply_op E o m) [
  | none ↦ none
  | some m' ↦ apply_ops_to_cache E ops m'
]

module _ {E : Engine} where
  -- A rollback restores the buckets; the model has not been touched.
  abbrev pub rollback_world : Rollback (World E)
  rollback_world before after = record after { groups = before.groups; policies = before.policies }

  abbrev pub record_op : Op → World E → World E
  record_op o w = record w { ops = w.ops ++ o ∷ [] }

  -- PolicyRepository.AddPolicyCtx
  unfoldable pub put_rule : Bytes → Rule → Run (World E) Unit
  unfolding rule_key
  put_rule sec rule w =
      if E.rejects (rule_key E sec rule) []
      then (err put_failed, w)
      else (ok tt, record w { policies = E.put w.policies (rule_key E sec rule) [] })

  -- PolicyRepository.RemovePolicyCtx
  unfoldable pub delete_rule : Bytes → Rule → Run (World E) Unit
  unfolding rule_key
  delete_rule sec rule w =
      (ok tt, record w { policies = E.delete w.policies (rule_key E sec rule) })

  -- PolicyRepository.RemoveFilteredPolicyCtx, of one field
  unfoldable pub delete_filtered : Bytes → ℕ → Bytes → Run (World E) Unit
  unfolding delete_matching
  delete_filtered sec index value w = (
    ok tt,
    record w { policies = delete_matching E sec index value w.policies (E.seek w.policies []) },
  )

  abbrev note : Op → Run (World E) Unit
  note o w = (ok tt, record_op o w)

  unfoldable pub tx_add_policy : Rule → Run (World E) Unit
  unfolding put_rule
  tx_add_policy rule = do put_rule sec_p rule; note (op_add_p rule)

  unfoldable pub tx_remove_policy : Rule → Run (World E) Unit
  unfolding delete_rule
  tx_remove_policy rule = do delete_rule sec_p rule; note (op_remove_p rule)

  unfoldable pub tx_add_role_for_user : Rule → Run (World E) Unit
  unfolding put_rule
  tx_add_role_for_user rule = do put_rule sec_g rule; note (op_add_g rule)

  unfoldable pub tx_remove_role_for_user : Rule → Run (World E) Unit
  unfolding delete_rule
  tx_remove_role_for_user rule = do delete_rule sec_g rule; note (op_remove_g rule)

  unfoldable pub tx_delete_user : Bytes → Run (World E) Unit
  unfolding delete_filtered
  tx_delete_user user = do
    delete_filtered sec_g 0 user
    delete_filtered sec_g 1 user
    note (op_delete_user user)

  unfoldable pub tx_permissions_for_subject : Bytes → Run (World E) (List Rule)
  unfolding rules_for_subject
  tx_permissions_for_subject subject =
      gets (λ w. rules_for_subject E subject (E.seek w.policies []))

  -- After a failure the model is reloaded; where that fails, the process panics.
  abbrev pub recovered : {A : Type 0} → World E → Option E.Model → Outcome Failure A × World E
  recovered w none = (err cache_desync, w)
  recovered w (some m) = (err cache_desync, record w { model = m })

  -- After the commit.
  unfoldable pub sync_cache :
      {A : Type 0} → Outcome Failure A × World E → Outcome Failure A × World E
  unfolding apply_ops_to_cache all_rules
  sync_cache (err e, w) = (err e, w)
  sync_cache (ok a, w) = elim (apply_ops_to_cache E w.ops w.model) [
    | some m ↦ (ok a, record w { model = m })
    | none ↦ recovered w (E.load (all_rules E (E.seek w.policies [])))
  ]

  -- Commit and application to the cache are one step here; the source holds no lock over both.
  unfoldable pub write_tx : {A : Type 0} → Ctx → (Ctx → Run (World E) A) → Run (World E) A
  unfolding sync_cache
  write_tx ctx body w = sync_cache (with_tx rollback_world ctx body (record w { ops = [] }))

-- The subjects of the grouping rules with this role.
unfoldable pub members_of : Bytes → List Rule → List Bytes
members_of role [] = []
members_of role ((user ∷ r ∷ on ∷ []) ∷ rules) =
    let rest = members_of role rules in if bytes_eq r role then user ∷ rest else rest
members_of role (_ ∷ rules) = members_of role rules
