-- ===== src/Tests/Creation.antt =====
-- A small group with a manager group is created.
use elara.Prelude.{codes, bytes_eq, bytes_lt, has_prefix, ◌≡◌, refl, true, false, List, [], ◌∷◌}
use elara.Prelude.Outcome.{ok}
use elara.Storage.Bolt.Pairs.{find, insert, remove, from}
use elara.Storage.Bolt.Memory.{empty_table}
use elara.Storage.Memory.{split}
use elara.Storage.Tx.{with_tx, run_write_tx}
use elara.Authz.Rbac.{Permission, group_resource, object_group, action_write}
use elara.Authz.Engine.{Group, Rule, rule_eq}
use elara.Authz.Policies.{rule_key}
use elara.Authz.Enforcer.{
  World, write_tx, sync_cache, apply_op, apply_ops_to_cache, put_rule, delete_rule, tx_add_policy,
  tx_remove_policy, tx_add_role_for_user, tx_remove_role_for_user,
}
use elara.Authz.Points.{
  rule_permission, has, has_group, has_for_group, has_global, remove_permissions, add_permissions,
  apply_permission_deltas, remove_members, add_members, apply_member_deltas,
}
use elara.Groups.Store.{get_group, store_group, add_group}
use elara.Groups.Scope.{filter_visible_users}
use elara.Groups.Create.{
  CreateData, label_characters, ends_alphanumeric, validate_canonical_name, validate_group,
  persist_entity, apply_initial_permissions, apply_initial_members, wire_initial_managers,
  persist_versions, authorize_manager, authorize_managers, authorize_create, set_up,
  create_group_tx, create_group,
}
use elara.Groups.Creation.{IsFounded, create_group_no_escalation}
use elara.Authz.Agreement.{Agrees}
use elara.Groups.Agreement.Create.{create_group-Agrees}
use elara.Tests.Data.{call}
use elara.Tests.Engine.{engine, without, write_parts, read_parts, write_group, read_group}
use elara.Tests.Groups.{reading, devs, alice}

abbrev managing : Permission
managing = record {
  object = object_group;
  action = action_write;
  on = group_resource (codes "devs");
}

abbrev held_rules : List Rule
held_rules =
    rule_permission alice reading
    ∷ rule_permission alice managing
    ∷ rule_permission (group_resource (codes "devs")) reading
    ∷ []

-- Alice may read every namespace and write the group of developers, which may read every namespace.
abbrev staffed : World engine
staffed = record {
  groups = engine.put empty_table (codes "devs") (write_group devs);
  policies = empty_table;
  model = record { permissions = held_rules; roles = [] };
  ops = [];
}

abbrev founding : CreateData
founding = record {
  name = codes "ops-1";
  description = [];
  initial_members = alice ∷ [];
  initial_permissions = reading ∷ [];
  initial_manager_group_names = codes "devs" ∷ [];
}

abbrev founded : World engine
founded = (create_group false alice call founding staffed).1

abbrev founded_group : Group
founded_group = record {
  name = codes "ops-1";
  display_name = [];
  description = [];
  system = false;
  metadata_version = 1;
  members_version = 1;
  permissions_version = 1;
  created_at = 7;
  updated_at = 7;
}

founded_ok :
    create_group {E = engine} false alice call founding staffed
    ≡ (ok (founded_group, [], reading ∷ []), founded)
unfolding empty_table find insert remove from bytes_eq bytes_lt has_prefix split write_parts
    read_parts write_group read_group without with_tx run_write_tx write_tx sync_cache apply_op
    apply_ops_to_cache put_rule delete_rule tx_add_policy tx_remove_policy tx_add_role_for_user
    tx_remove_role_for_user rule_permission has has_group has_for_group has_global group_resource
    remove_permissions add_permissions apply_permission_deltas remove_members add_members
    apply_member_deltas rule_key rule_eq get_group store_group add_group filter_visible_users
    label_characters ends_alphanumeric validate_canonical_name validate_group persist_entity
    apply_initial_permissions apply_initial_members wire_initial_managers persist_versions
    authorize_manager authorize_managers authorize_create set_up create_group_tx create_group
founded_ok = refl

create_group_no_escalation_example :
    IsFounded engine false alice (record staffed { ops = [] }) 7 founding
create_group_no_escalation_example =
    create_group_no_escalation engine false alice call founding staffed founded
      (founded_group, [], reading ∷ []) founded_ok

-- No rule is in memory or in the bucket, and the checks are switched off.
abbrev unruled : World engine
unruled = record staffed { model = record { permissions = []; roles = [] } }

unruled-Agrees : Agrees engine unruled.model unruled.policies
unfolding find empty_table
unruled-Agrees q t = (refl, refl)

abbrev ruled : World engine
ruled = (create_group true alice call founding unruled).1

ruled_ok :
    create_group {E = engine} true alice call founding unruled
    ≡ (ok (founded_group, alice ∷ [], reading ∷ []), ruled)
unfolding empty_table find insert remove from bytes_eq bytes_lt has_prefix split write_parts
    read_parts write_group read_group without with_tx run_write_tx write_tx sync_cache apply_op
    apply_ops_to_cache put_rule delete_rule tx_add_policy tx_remove_policy tx_add_role_for_user
    tx_remove_role_for_user rule_permission has has_group has_for_group has_global group_resource
    remove_permissions add_permissions apply_permission_deltas remove_members add_members
    apply_member_deltas rule_key rule_eq get_group store_group add_group filter_visible_users
    label_characters ends_alphanumeric validate_canonical_name validate_group persist_entity
    apply_initial_permissions apply_initial_members wire_initial_managers persist_versions
    authorize_manager authorize_managers authorize_create set_up create_group_tx create_group
ruled_ok = refl

create_group-Agrees_example : Agrees engine ruled.model ruled.policies
unfolding rule_permission
create_group-Agrees_example =
    create_group-Agrees true alice call founding unruled ruled
      (founded_group, alice ∷ [], reading ∷ []) ((refl, tt), (refl, tt), λ g name found. (refl, tt))
      unruled-Agrees ruled_ok
