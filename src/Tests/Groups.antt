-- ===== src/Tests/Groups.antt =====
-- Changes of a small group, and its deletion.
use elara.Prelude.{
  ℕ, Bytes, codes, bytes_eq, bytes_lt, has_prefix, ◌≡◌, refl, not, false, ◌&&◌, none, some, List,
  [], ◌∷◌, arith, take, drop,
}
use elara.Prelude.Outcome.{ok}
use elara.SliceUtil.{not_in, in_set, first_overlap, compose_post, paginate, paginate_lem}
use elara.Storage.Bolt.Pairs.{find, insert, remove, from}
use elara.Storage.Bolt.Memory.{empty_table}
use elara.Storage.Memory.{split}
use elara.Storage.Tx.{with_tx, run_write_tx}
use elara.Authz.Rbac.{
  Permission, group_resource, is_group_subject, object_namespace, action_read, domain_all,
}
use elara.Authz.Engine.{Group, Rule, rule_eq, starts_with, points_at, has_rule}
use elara.Authz.Policies.{rule_key, rules_for_subject, fields_of, delete_matching, matches_filter}
use elara.Authz.Enforcer.{
  World, write_tx, sync_cache, apply_op, apply_ops_to_cache, put_rule, delete_rule, tx_add_policy,
  tx_remove_policy, tx_add_role_for_user, tx_remove_role_for_user, tx_permissions_for_subject,
  members_of, delete_filtered, tx_delete_user, sec_p, sec_g,
}
use elara.Authz.Points.{
  permissions_of, rule_permission, rules_of, without_group_subjects, has, has_global,
  group_permissions, group_members, require_membership_grant, tx_group_permissions,
  remove_permissions, add_permissions, apply_permission_deltas, remove_members, add_members,
  apply_member_deltas, delete_group_rules,
}
use elara.Authz.Agreement.{Agrees, IsText, key_eq, key_apart}
use elara.Groups.Catalog.{
  validate_permission_assignment, lookup_catalog_entry, build_catalog, validate_assignment_action,
  validate_assignment_domain, validate_global_domain, validate_prefixed_domain,
}
use elara.Groups.Store.{get_group, store_group, drop_group}
use elara.Groups.Scope.{filter_visible_users}
use elara.Groups.{
  Delta, check_version, ensure_mutable, load_mutable_group, validate_permission_deltas,
  commit_permission_delta, commit_member_delta, boundary_check_perms, cascade_check_perms,
  commit_dominated, change_permissions, update_permissions_tx, update_permissions, change_members,
  update_members_tx, update_members, delete_group,
}
use elara.Groups.Escalation.{
  IsGranted, IsAdmitted, update_permissions_no_escalation, update_members_no_escalation,
}
use elara.Groups.Agreement.{update_permissions-Agrees}
use elara.Groups.Deletion.{delete_group_keeps_permissions}
use elara.Tests.Data.{call}
use elara.Tests.Engine.{
  engine, rule_eq_sym, without, write_parts, read_parts, write_group, read_group,
}

abbrev pub reading : Permission
reading = record { object = object_namespace; action = action_read; on = domain_all }

abbrev pub devs : Group
devs = record {
  name = codes "devs";
  display_name = [];
  description = [];
  system = false;
  metadata_version = 1;
  members_version = 0;
  permissions_version = 0;
  created_at = 1;
  updated_at = 1;
}

abbrev pub alice : Bytes
alice = codes "a1"

-- Alice may read every namespace; the group has nothing yet.
abbrev office : World engine
office = record {
  groups = engine.put empty_table (codes "devs") (write_group devs);
  policies = engine.put empty_table (rule_key engine sec_p (rule_permission alice reading)) [];
  model = record { permissions = rule_permission alice reading ∷ []; roles = [] };
  ops = [];
}

abbrev grant : Delta Permission
grant = record {
  group_name = codes "devs";
  add = reading ∷ [];
  remove = [];
  expected_version = none;
}

abbrev granted : World engine
granted = (update_permissions false call alice grant office).1

abbrev granted_group : Group
granted_group = record devs { permissions_version = 1; updated_at = 7 }

granted_ok :
    update_permissions {E = engine} false call alice grant office
    ≡ (ok (granted_group, reading ∷ []), granted)
unfolding empty_table find insert remove from bytes_eq bytes_lt has_prefix split write_parts
    read_parts write_group read_group without not_in in_set first_overlap compose_post with_tx
    run_write_tx write_tx sync_cache apply_op apply_ops_to_cache put_rule delete_rule tx_add_policy
    tx_remove_policy tx_permissions_for_subject members_of permissions_of rule_permission rules_of
    without_group_subjects has group_members group_resource is_group_subject tx_group_permissions
    remove_permissions add_permissions apply_permission_deltas rule_key rules_for_subject fields_of
    rule_eq validate_permission_assignment lookup_catalog_entry build_catalog
    validate_assignment_action validate_assignment_domain validate_global_domain
    validate_prefixed_domain get_group store_group check_version ensure_mutable load_mutable_group
    validate_permission_deltas commit_permission_delta boundary_check_perms cascade_check_perms
    commit_dominated change_permissions update_permissions_tx update_permissions
granted_ok = refl

update_permissions_no_escalation_example :
    IsGranted engine false alice (record office { ops = [] }) granted grant (reading ∷ [])
update_permissions_no_escalation_example =
    update_permissions_no_escalation engine false alice call grant office granted granted_group
      (reading ∷ []) granted_ok

-- The rule of Alice is in memory and in the bucket, and there is no other.
office-Agrees : Agrees engine office.model office.policies
unfolding rule_permission find empty_table
office-Agrees q t =
    let r = rule_permission alice reading in
    (
      ground (
        arith,
        rule_eq_sym q r,
        engine.get-put empty_table (rule_key engine sec_p r) [] (rule_key engine sec_p q),
        key_eq engine sec_p r q refl refl t,
      ),
      ground (
        arith,
        engine.get-put empty_table (rule_key engine sec_p r) [] (rule_key engine sec_g q),
        key_apart engine r q refl t,
      ),
    )

update_permissions-Agrees_example : Agrees engine granted.model granted.policies
unfolding rule_permission
update_permissions-Agrees_example =
    update_permissions-Agrees false alice call grant office granted (granted_group, reading ∷ [])
      (λ g found. ((refl, tt), tt)) office-Agrees granted_ok

abbrev hire : Delta Bytes
hire = record {
  group_name = codes "devs";
  add = alice ∷ [];
  remove = [];
  expected_version = some 0;
}

abbrev hired : World engine
hired = (update_members false call alice hire office).1

abbrev hired_group : Group
hired_group = record devs { members_version = 1; updated_at = 7 }

hired_ok : update_members {E = engine} false call alice hire office ≡ (ok (hired_group, []), hired)
unfolding empty_table find insert remove from bytes_eq bytes_lt has_prefix split write_parts
    read_parts write_group read_group without not_in in_set first_overlap compose_post with_tx
    run_write_tx write_tx sync_cache apply_op apply_ops_to_cache put_rule delete_rule
    tx_add_role_for_user tx_remove_role_for_user members_of permissions_of rule_permission rules_of
    without_group_subjects has group_members group_resource is_group_subject group_permissions
    remove_members add_members apply_member_deltas rule_key rule_eq get_group store_group
    check_version ensure_mutable load_mutable_group has_global filter_visible_users
    require_membership_grant commit_member_delta change_members update_members_tx update_members
hired_ok = refl

update_members_no_escalation_example :
    IsAdmitted engine false alice (record office { ops = [] }) hire
update_members_no_escalation_example =
    update_members_no_escalation engine false alice call hire office hired hired_group [] hired_ok

-- The group that was granted the permission is deleted.
abbrev gone : World engine
gone = (delete_group call (codes "devs") granted).1

gone_ok : delete_group {E = engine} call (codes "devs") granted ≡ (ok tt, gone)
unfolding empty_table find insert remove from bytes_eq bytes_lt has_prefix split write_parts
    read_parts write_group read_group without not_in in_set first_overlap compose_post with_tx
    run_write_tx write_tx sync_cache apply_op apply_ops_to_cache put_rule delete_rule tx_add_policy
    tx_remove_policy tx_permissions_for_subject members_of permissions_of rule_permission rules_of
    without_group_subjects has group_members group_resource is_group_subject tx_group_permissions
    remove_permissions add_permissions apply_permission_deltas rule_key rules_for_subject fields_of
    rule_eq validate_permission_assignment lookup_catalog_entry build_catalog
    validate_assignment_action validate_assignment_domain validate_global_domain
    validate_prefixed_domain get_group store_group check_version ensure_mutable load_mutable_group
    validate_permission_deltas commit_permission_delta boundary_check_perms cascade_check_perms
    commit_dominated change_permissions update_permissions_tx update_permissions delete_group
    drop_group delete_group_rules tx_delete_user delete_filtered delete_matching matches_filter
    starts_with points_at
gone_ok = refl

delete_group_keeps_permissions_example :
    (g : Group) × (get_group (codes "devs") (record granted { ops = [] })
      ≡ (ok g, record granted { ops = [] }))
    × ((q : Rule)
        → IsText engine q
        → (engine.get gone.policies (rule_key engine sec_p q)
            ≡ engine.get granted.policies (rule_key engine sec_p q))
          × (has_rule q gone.model.permissions ≡ (
              not (starts_with (group_resource g.name) q) && has_rule q granted.model.permissions)))
delete_group_keeps_permissions_example =
    delete_group_keeps_permissions call (codes "devs") granted gone tt gone_ok

abbrev three : List ℕ
three = 1 ∷ 2 ∷ 3 ∷ []

paginate_lem_example : paginate three 1 5 ≡ some (take 5 (drop 1 three))
paginate_lem_example = paginate_lem three 1 5 (omega arith) (omega arith)
