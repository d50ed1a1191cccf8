-- ===== src/Groups/Create.antt =====
-- internal/usecase/group/service_create.go, with the tests of names in internal/domain/name.go.
use elara.Prelude.{
  ℕ, ◌==◌, ltb, leb, Bytes, bytes_eq, not, Bool, true, false, ◌&&◌, ◌||◌, List, [], ◌∷◌, length,
  if◌then◌else◌,
}
use elara.Prelude.Outcome.{Outcome, ok, err}
use elara.Domain.Failure.{Failure, resource_not_found, already_exists, validation, forbidden}
use elara.Storage.Tx.{Run, Ctx, ◌>>=◌, ◌>>◌, pure, lift}
use elara.Authz.Rbac.{Permission, group_resource, object_group, action_write}
use elara.Authz.Engine.{Engine, Group}
use elara.Authz.Enforcer.{World, write_tx}
use elara.Authz.Points.{
  has, has_group, has_for_group, all_held, apply_permission_deltas, apply_member_deltas,
}
use elara.Groups.Store.{get_group, store_group, add_group}
use elara.Groups.Scope.{filter_visible_users}
use elara.Groups.{nothing, as_not_found}

pub record CreateData : Type 0 where
  pub name : Bytes
  pub description : Bytes
  pub initial_members : List Bytes
  pub initial_permissions : List Permission
  pub initial_manager_group_names : List Bytes

abbrev alphanumeric : ℕ → Bool
alphanumeric c = (leb 97 c && leb c 122) || (leb 48 c && leb c 57)

unfoldable pub label_characters : Bytes → Bool
label_characters [] = true
label_characters (c ∷ s) = let rest = label_characters s in (alphanumeric c || (c == 45)) && rest

unfoldable pub ends_alphanumeric : Bytes → Bool
ends_alphanumeric [] = false
ends_alphanumeric (c ∷ []) = alphanumeric c
ends_alphanumeric (c ∷ d ∷ s) = ends_alphanumeric (d ∷ s)

abbrev starts_alphanumeric : Bytes → Bool
starts_alphanumeric [] = false
starts_alphanumeric (c ∷ s) = alphanumeric c

-- ^[a-z0-9]([a-z0-9-]*[a-z0-9])?$
abbrev canonical_name : Bytes → Bool
canonical_name s = starts_alphanumeric s && label_characters s && ends_alphanumeric s

unfoldable pub validate_canonical_name : Bytes → Outcome Failure (Unit {0})
unfolding bytes_eq label_characters ends_alphanumeric
validate_canonical_name value =
    if bytes_eq value []
    then err validation
    else if ltb 63 (length value)
    then err validation
    else if not (canonical_name value)
    then err validation
    else ok tt

abbrev within : ℕ → Bytes → Outcome Failure (Unit {0}) → Outcome Failure (Unit {0})
within limit s (err e) = err e
within limit s (ok u) = if ltb limit (length s) then err validation else ok tt

-- Group.Validate
unfoldable pub validate_group : Group → Outcome Failure (Unit {0})
unfolding validate_canonical_name
validate_group g =
    within 1024 g.description (within 128 g.display_name (validate_canonical_name g.name))

-- What reading a group says of a new group of that name.
abbrev pub unused : Outcome Failure Group → Outcome Failure (Unit {0})
unused (ok g) = err already_exists
unused (err resource_not_found) = ok tt
unused (err e) = err e

abbrev pub new_group : ℕ → CreateData → Group
new_group now d = record {
  name = d.name;
  display_name = [];
  description = d.description;
  system = false;
  metadata_version = 1;
  members_version = 0;
  permissions_version = 0;
  created_at = now;
  updated_at = now;
}

module _ {E : Engine} where
  unfoldable pub persist_entity : ℕ → CreateData → Run (World E) Group
  unfolding get_group validate_group add_group
  persist_entity now d = do
    λ w. lift (unused (get_group d.name w).0) w
    lift (validate_group (new_group now d))
    add_group now (new_group now d)

  unfoldable pub apply_initial_permissions : Group → List Permission → Run (World E) Group
  unfolding apply_permission_deltas
  apply_initial_permissions g perms =
      if nothing perms
      then pure g
      else (do apply_permission_deltas g.name perms []; pure (record g { permissions_version = 1 }))

  unfoldable pub apply_initial_members : Group → List Bytes → Run (World E) Group
  unfolding apply_member_deltas
  apply_initial_members g members =
      if nothing members
      then pure g
      else (do apply_member_deltas g.name members []; pure (record g { members_version = 1 }))

  unfoldable pub wire_initial_managers : Group → List Group → Run (World E) Unit
  unfolding apply_permission_deltas group_resource
  wire_initial_managers g [] = pure tt
  wire_initial_managers g (mg ∷ managers) = do
    apply_permission_deltas mg.name
        (record { object = object_group; action = action_write; on = group_resource g.name } ∷ [])
        []
    wire_initial_managers g managers

  unfoldable pub persist_versions : ℕ → Group → Run (World E) Group
  unfolding store_group
  persist_versions now g =
      if ltb 0 g.permissions_version || ltb 0 g.members_version then store_group now g else pure g

module _ {E : Engine} (skip_permissions : Bool) (actor : Bytes) where
  unfoldable pub authorize_manager : List Permission → Bytes → Run (World E) Group
  unfolding has_group get_group has_for_group
  authorize_manager perms name = do
    λ w.
        lift
          (if not (has_group E skip_permissions w.model actor name action_write)
            then err forbidden
            else ok tt)
          w
    mg ← λ w. (as_not_found (get_group name w).0, (get_group name w).1)
    λ w. lift (all_held (has_for_group E skip_permissions w.model mg.name) perms) w
    pure mg

  unfoldable pub authorize_managers : List Permission → List Bytes → Run (World E) (List Group)
  unfolding authorize_manager
  authorize_managers perms [] = pure []
  authorize_managers perms (name ∷ names) = do
    mg ← authorize_manager perms name
    managers ← authorize_managers perms names
    pure (mg ∷ managers)

  unfoldable pub authorize_create : CreateData → Run (World E) (List Group)
  unfolding has authorize_managers
  authorize_create d = do
    λ w. lift (all_held (has E skip_permissions w.model actor) d.initial_permissions) w
    authorize_managers d.initial_permissions d.initial_manager_group_names

  -- What follows when the group has been written.
  unfoldable pub set_up :
      ℕ → CreateData → List Group → Group → Run (World E) (Group × List Bytes × List Permission)
  unfolding apply_initial_permissions apply_initial_members wire_initial_managers persist_versions
      filter_visible_users
  set_up now d managers group = do
    permitted ← apply_initial_permissions group d.initial_permissions
    joined ← apply_initial_members permitted d.initial_members
    wire_initial_managers joined managers
    g ← persist_versions now joined
    λ w. (
      ok (
        g,
        filter_visible_users skip_permissions w actor d.initial_members,
        d.initial_permissions,
      ),
      w,
    )

  unfoldable pub create_group_tx :
      ℕ → CreateData → Run (World E) (Group × List Bytes × List Permission)
  unfolding authorize_create persist_entity set_up
  create_group_tx now d = do
    managers ← authorize_create d
    group ← persist_entity now d
    set_up now d managers group

  unfoldable pub create_group :
      Ctx → CreateData → Run (World E) (Group × List Bytes × List Permission)
  unfolding write_tx create_group_tx
  create_group ctx d = write_tx ctx (λ tx. create_group_tx tx.now d)
