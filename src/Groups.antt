-- ===== src/Groups.antt =====
-- internal/usecase/group/service_update.go and service_delete.go, and the repository of groups.
pub mod Catalog
pub mod Store
pub mod Scope
pub mod Stored
pub mod Deltas
pub mod Checks
pub mod Escalation
pub mod Agreement
pub mod Deletion
pub mod Create
pub mod Creation
use elara.Prelude.{
  ℕ, ◌+◌, ◌&&◌, Bytes, bytes_eq, ◌==◌, not, Bool, true, false, Option, none, some, List, [], ◌∷◌,
  length, if◌then◌else◌,
}
use elara.Prelude.Outcome.{Outcome, ok, err}
use elara.Domain.Failure.{
  Failure, resource_not_found, decode_failed, put_failed, not_found, system_immutable,
  version_mismatch, permission_escalation, validation,
}
use elara.SliceUtil.{not_in, in_set, first_overlap, compose_post}
use elara.Storage.Tx.{Run, Ctx, ◌>>=◌, ◌>>◌, pure, fail, lift, gets}
use elara.ConfigStore.Db.{increment}
use elara.Authz.Rbac.{Permission, permission_eq}
use elara.Authz.Engine.{Engine, Group}
use elara.Authz.Enforcer.{World, write_tx}
use elara.Authz.Points.{
  has, all_held, group_members, group_permissions, require_membership_grant, tx_group_permissions,
  apply_permission_deltas, apply_member_deltas, delete_group_rules,
}
use elara.Groups.Store.{get_group, store_group, drop_group}
use elara.Groups.Scope.{filter_visible_users}
use elara.Groups.Catalog.{validate_permission_assignment}

-- domain.CheckVersion
unfoldable pub check_version : Option ℕ → ℕ → Outcome Failure (Unit {0})
check_version none current = ok tt
check_version (some expected) current =
    if not (expected == current) then err version_mismatch else ok tt

pub record UpdateData : Type 0 where
  pub name : Bytes
  pub display_name : Bytes
  pub description : Bytes
  pub expected_version : Option ℕ

-- A change of the members or of the permissions of a group.
pub record Delta (A : Type 0) : Type 0 where
  pub group_name : Bytes
  pub add : List A
  pub remove : List A
  pub expected_version : Option ℕ

-- EnsureMutable
unfoldable pub ensure_mutable : Group → Outcome Failure (Unit {0})
ensure_mutable g = if g.system then err system_immutable else ok tt

-- The error of a missing group, translated.
abbrev pub as_not_found : Outcome Failure Group → Outcome Failure Group
as_not_found (err resource_not_found) = err not_found
as_not_found r = r

abbrev validate_all : List Permission → Outcome Failure (Unit {0})
validate_all [] = ok tt
validate_all (p ∷ ps) = elim (validate_permission_assignment p) [
  | err e ↦ err e
  | ok u ↦ validate_all ps
]

unfoldable pub validate_permission_deltas :
    List Permission → List Permission → Outcome Failure (Unit {0})
unfolding first_overlap validate_permission_assignment
validate_permission_deltas adds removes = elim (first_overlap permission_eq adds removes) [
  | some p ↦ err validation
  | none ↦ validate_all adds
]

abbrev pub nothing : {A : Type 0} → List A → Bool
nothing [] = true
nothing (x ∷ l) = false

module _ {E : Engine} where
  unfoldable pub load_mutable_group : Bytes → Run (World E) Group
  unfolding get_group ensure_mutable
  load_mutable_group name = do
    existing ← λ w. (as_not_found (get_group name w).0, (get_group name w).1)
    lift (ensure_mutable existing)
    pure existing

  unfoldable pub update_group : Ctx → UpdateData → Run (World E) Group
  unfolding write_tx load_mutable_group check_version store_group
  update_group ctx d = write_tx ctx (λ tx. do
    existing ← load_mutable_group d.name
    lift (check_version d.expected_version existing.metadata_version)
    store_group tx.now (record existing {
      display_name = d.display_name;
      description = d.description;
      metadata_version = increment existing.metadata_version;
      updated_at = tx.now;
    }))

  unfoldable pub commit_member_delta : ℕ → Group → List Bytes → List Bytes → Run (World E) Group
  unfolding apply_member_deltas store_group
  commit_member_delta now existing added removed = do
    apply_member_deltas existing.name added removed
    store_group now
        (record existing { members_version = increment existing.members_version; updated_at = now })

  unfoldable pub commit_permission_delta :
      ℕ → Group → List Permission → List Permission → Run (World E) Group
  unfolding apply_permission_deltas store_group
  commit_permission_delta now existing added removed = do
    apply_permission_deltas existing.name added removed
    store_group now (record existing {
      permissions_version = increment existing.permissions_version;
      updated_at = now;
    })

  unfoldable pub delete_group : Ctx → Bytes → Run (World E) Unit
  unfolding write_tx load_mutable_group delete_group_rules drop_group
  delete_group ctx name =
      write_tx ctx
        (λ tx. do g ← load_mutable_group name; delete_group_rules g.name; drop_group name)

-- `skip_permissions` is the option of the decision point.
module _ (E : Engine) (skip_permissions : Bool) where
  abbrev grant_if_added : E.Model → Bytes → Bytes → List Bytes → Outcome Failure (Unit {0})
  grant_if_added m actor name [] = ok tt
  grant_if_added m actor name (u ∷ added) = require_membership_grant E skip_permissions m actor name

  unfoldable pub boundary_check_perms :
      E.Model → Bytes → List Permission → Outcome Failure (Unit {0})
  unfolding has
  boundary_check_perms m actor added = all_held (has E skip_permissions m actor) added

  unfoldable pub cascade_check_perms :
      E.Model → Bytes → Bytes → List Permission → Outcome Failure (Unit {0})
  unfolding has group_members
  cascade_check_perms m actor name post =
      if nothing (group_members E m name)
      then ok tt
      else all_held (has E skip_permissions m actor) post

module _ {E : Engine} (skip_permissions : Bool) where
  -- The change, when the group and its members have been read, with those members after it that the
  -- actor may see.
  unfoldable pub change_members :
      ℕ → Bytes → Delta Bytes → Group → List Bytes → Run (World E) (Group × List Bytes)
  unfolding not_in in_set compose_post commit_member_delta filter_visible_users
  change_members now actor d existing current = do
    let added : List Bytes = not_in bytes_eq d.add current
    let removed : List Bytes = in_set bytes_eq d.remove current
    λ w. lift (grant_if_added E skip_permissions w.model actor existing.name added) w
    if (length added == 0) && (length removed == 0)
        then (λ w. (ok (existing, filter_visible_users skip_permissions w actor current), w))
        else (do
          g ← commit_member_delta now existing added removed
          λ w. (
            ok (
              g,
              filter_visible_users skip_permissions w actor
                  (compose_post bytes_eq current added removed),
            ),
            w,
          ))

  unfoldable pub update_members_tx : ℕ → Bytes → Delta Bytes → Run (World E) (Group × List Bytes)
  unfolding load_mutable_group check_version group_members change_members
  update_members_tx now actor d = do
    existing ← load_mutable_group d.group_name
    lift (check_version d.expected_version existing.members_version)
    current ← gets (λ w. group_members E w.model existing.name)
    change_members now actor d existing current

  unfoldable pub update_members : Ctx → Bytes → Delta Bytes → Run (World E) (Group × List Bytes)
  unfolding write_tx update_members_tx first_overlap
  update_members ctx actor d = elim (first_overlap bytes_eq d.add d.remove) [
    | some v ↦ fail validation
    | none ↦ write_tx ctx (λ tx. update_members_tx tx.now actor d)
  ]

  -- An effective change of the permissions: the cascade check, and the commit.
  unfoldable pub commit_dominated :
      ℕ
      → Bytes
      → Group
      → List Permission
      → List Permission
      → List Permission
      → Run (World E) (Group × List Permission)
  unfolding cascade_check_perms commit_permission_delta compose_post
  commit_dominated now actor existing current added removed = do
    let post : List Permission = compose_post permission_eq current added removed
    λ w. lift (cascade_check_perms E skip_permissions w.model actor existing.name post) w
    g ← commit_permission_delta now existing added removed
    pure (g, post)

  -- The change, when the group and its permissions have been read.
  unfoldable pub change_permissions :
      ℕ
      → Bytes
      → Delta Permission
      → Group
      → List Permission
      → Run (World E) (Group × List Permission)
  unfolding not_in in_set boundary_check_perms commit_dominated
  change_permissions now actor d existing current = do
    let added : List Permission = not_in permission_eq d.add current
    let removed : List Permission = in_set permission_eq d.remove current
    λ w. lift (boundary_check_perms E skip_permissions w.model actor added) w
    if length added + length removed == 0
        then pure (existing, current)
        else commit_dominated now actor existing current added removed

  unfoldable pub update_permissions_tx :
      ℕ → Bytes → Delta Permission → Run (World E) (Group × List Permission)
  unfolding load_mutable_group check_version tx_group_permissions change_permissions
  update_permissions_tx now actor d = do
    existing ← load_mutable_group d.group_name
    lift (check_version d.expected_version existing.permissions_version)
    current ← tx_group_permissions existing.name
    change_permissions now actor d existing current

  unfoldable pub update_permissions :
      Ctx → Bytes → Delta Permission → Run (World E) (Group × List Permission)
  unfolding write_tx update_permissions_tx validate_permission_deltas
  update_permissions ctx actor d w = elim (validate_permission_deltas d.add d.remove) [
    | err e ↦ (err e, w)
    | ok u ↦ write_tx ctx (λ tx. update_permissions_tx tx.now actor d) w
  ]
