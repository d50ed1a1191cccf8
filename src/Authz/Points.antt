-- ===== src/Authz/Points.antt =====
-- internal/service/authz: pdp.go, pap.go, pap_tx.go and scope.go.
use elara.Prelude.{
  Bytes, codes, bytes_eq, not, Bool, true, false, ◌&&◌, Option, none, some, List, [], ◌∷◌,
  if◌then◌else◌,
}
use elara.Prelude.Outcome.{Outcome, ok, err}
use elara.Domain.Failure.{Failure, permission_escalation, engine_failed}
use elara.Storage.Tx.{Run, ◌>>=◌, ◌>>◌, pure}
use elara.Authz.Rbac.{
  Permission, object_grants, action_grants, group_resource, namespace_resource, is_group_subject,
  group_name_from_subject, domain_all, membership_domain, object_group, object_namespace,
}
use elara.Authz.Engine.{Engine, Rule}
use elara.Authz.Enforcer.{
  World, members_of, tx_add_policy, tx_remove_policy, tx_add_role_for_user, tx_remove_role_for_user,
  tx_permissions_for_subject, tx_delete_user,
}

-- DomainSet: the explicit domains as a list.
pub record DomainSet : Type 0 where
  pub wildcard : Bool
  pub explicit : List Bytes

unfoldable pub new_domain_set : List Bytes → DomainSet
new_domain_set [] = record { wildcard = false; explicit = [] }
new_domain_set (d ∷ ds) =
    let rest = new_domain_set ds in
    if bytes_eq d (codes "*")
    then record rest { wildcard = true }
    else record rest { explicit = d ∷ rest.explicit }

abbrev listed : Bytes → List Bytes → Bool
listed d [] = false
listed d (e ∷ es) = if bytes_eq e d then true else listed d es

unfoldable pub contains : DomainSet → Bytes → Bool
contains ds on = if ds.wildcard then true else listed on ds.explicit

-- The permissions of rules with four fields or more.
unfoldable pub permissions_of : List Rule → List Permission
permissions_of [] = []
permissions_of ((subject ∷ on ∷ object ∷ action ∷ more) ∷ rules) =
    record { object = object; action = action; on = on } ∷ permissions_of rules
permissions_of (_ ∷ rules) = permissions_of rules

unfoldable pub rule_permission : Bytes → Permission → Rule
rule_permission subject p = subject ∷ p.on ∷ p.object ∷ p.action ∷ []

-- Those rules of the policy whose subject it is.
unfoldable pub rules_of : Bytes → List Rule → List Rule
rules_of subject [] = []
rules_of subject ((s ∷ r) ∷ rules) =
    let rest = rules_of subject rules in if bytes_eq s subject then (s ∷ r) ∷ rest else rest
rules_of subject ([] ∷ rules) = rules_of subject rules

-- The domains of the rules that grant the object and the action.
unfoldable pub granted_domains : Bytes → Bytes → List Rule → List Bytes
unfolding object_grants action_grants
granted_domains object action [] = []
granted_domains object action ((subject ∷ on ∷ o ∷ a ∷ more) ∷ rules) =
    let rest = granted_domains object action rules in
    if object_grants o object && action_grants a action then on ∷ rest else rest
granted_domains object action (_ ∷ rules) = granted_domains object action rules

abbrev answered : Option Bool → Bool
answered none = false
answered (some b) = b

unfoldable pub without_group_subjects : List Bytes → List Bytes
unfolding is_group_subject
without_group_subjects [] = []
without_group_subjects (m ∷ ms) =
    let rest = without_group_subjects ms in if not (is_group_subject m) then m ∷ rest else rest

unfoldable pub group_names : List Bytes → List Bytes
unfolding is_group_subject group_name_from_subject
group_names [] = []
group_names (s ∷ ss) =
    let rest = group_names ss in
    if not (is_group_subject s) then rest else group_name_from_subject s ∷ rest

abbrev pub all_held : (Permission → Bool) → List Permission → Outcome Failure (Unit {0})
all_held has [] = ok tt
all_held has (p ∷ ps) =
    let rest = all_held has ps in if not (has p) then err permission_escalation else rest

abbrev names_or_error : Option (List Bytes) → Outcome Failure (List Bytes)
names_or_error none = err engine_failed
names_or_error (some subjects) = ok (group_names subjects)

module _ (E : Engine) where
  -- PAP.GroupPermissions and PAP.GroupMembers, of the model
  unfoldable pub group_permissions : E.Model → Bytes → List Permission
  unfolding permissions_of rules_of group_resource
  group_permissions m name = permissions_of (rules_of (group_resource name) (E.policy m))

  unfoldable pub group_members : E.Model → Bytes → List Bytes
  unfolding without_group_subjects members_of group_resource
  group_members m name = without_group_subjects (members_of (group_resource name) (E.grouping m))

  unfoldable pub user_group_names : E.Model → Bytes → Outcome Failure (List Bytes)
  unfolding group_names
  user_group_names m user = names_or_error (E.roles_for_user m user membership_domain)

module _ (E : Engine) (skip_permissions : Bool) where
  -- PDP.Has
  unfoldable pub has : E.Model → Bytes → Permission → Bool
  has m principal p =
      if skip_permissions then true else answered (E.enforce m principal p.on p.object p.action)

  unfoldable pub has_group : E.Model → Bytes → Bytes → Bytes → Bool
  unfolding has group_resource
  has_group m actor name action =
      has m actor (record { object = object_group; action = action; on = group_resource name })

  unfoldable pub has_global : E.Model → Bytes → Bytes → Bytes → Bool
  unfolding has
  has_global m actor object action =
      has m actor (record { object = object; action = action; on = domain_all })

  unfoldable pub has_namespace : E.Model → Bytes → Bytes → Bytes → Bool
  unfolding has namespace_resource
  has_namespace m actor name action =
      has m actor
        (record { object = object_namespace; action = action; on = namespace_resource name })

  unfoldable pub has_for_group : E.Model → Bytes → Permission → Bool
  unfolding has group_resource
  has_for_group m name p = has m (group_resource name) p

  abbrev domains_or_none : Bytes → Bytes → Option (List Rule) → DomainSet
  domains_or_none object action none = new_domain_set []
  domains_or_none object action (some rules) = new_domain_set (granted_domains object action rules)

  unfoldable pub effective_domains : E.Model → Bytes → Bytes → Bytes → DomainSet
  unfolding new_domain_set granted_domains
  effective_domains m principal object action =
      if skip_permissions
      then record { wildcard = true; explicit = [] }
      else domains_or_none object action (E.implicit_permissions m principal)

  -- Scope.RequireMembershipGrant
  unfoldable pub require_membership_grant : E.Model → Bytes → Bytes → Outcome Failure (Unit {0})
  unfolding group_permissions has
  require_membership_grant m actor name = all_held (has m actor) (group_permissions E m name)

module _ {E : Engine} where
  -- PAPTx.GroupPermissions, of the transaction. (It would panic at a rule with fewer than four fields;
  -- the enforcer writes none.)
  unfoldable pub tx_group_permissions : Bytes → Run (World E) (List Permission)
  unfolding tx_permissions_for_subject permissions_of group_resource
  tx_group_permissions name = do
    rules ← tx_permissions_for_subject (group_resource name)
    pure (permissions_of rules)

  unfoldable pub remove_permissions : Bytes → List Permission → Run (World E) Unit
  unfolding tx_remove_policy rule_permission
  remove_permissions subject [] = pure tt
  remove_permissions subject (p ∷ ps) = do
    tx_remove_policy (rule_permission subject p)
    remove_permissions subject ps

  unfoldable pub add_permissions : Bytes → List Permission → Run (World E) Unit
  unfolding tx_add_policy rule_permission
  add_permissions subject [] = pure tt
  add_permissions subject (p ∷ ps) = do
    tx_add_policy (rule_permission subject p)
    add_permissions subject ps

  unfoldable pub apply_permission_deltas :
      Bytes → List Permission → List Permission → Run (World E) Unit
  unfolding remove_permissions add_permissions group_resource
  apply_permission_deltas name added removed = do
    remove_permissions (group_resource name) removed
    add_permissions (group_resource name) added

  unfoldable pub remove_members : Bytes → List Bytes → Run (World E) Unit
  unfolding tx_remove_role_for_user
  remove_members subject [] = pure tt
  remove_members subject (user ∷ users) = do
    tx_remove_role_for_user (user ∷ subject ∷ membership_domain ∷ [])
    remove_members subject users

  unfoldable pub add_members : Bytes → List Bytes → Run (World E) Unit
  unfolding tx_add_role_for_user
  add_members subject [] = pure tt
  add_members subject (user ∷ users) = do
    tx_add_role_for_user (user ∷ subject ∷ membership_domain ∷ [])
    add_members subject users

  unfoldable pub apply_member_deltas : Bytes → List Bytes → List Bytes → Run (World E) Unit
  unfolding remove_members add_members group_resource
  apply_member_deltas name added removed = do
    remove_members (group_resource name) removed
    add_members (group_resource name) added

  unfoldable pub delete_group_rules : Bytes → Run (World E) Unit
  unfolding tx_delete_user group_resource
  delete_group_rules name = tx_delete_user (group_resource name)
