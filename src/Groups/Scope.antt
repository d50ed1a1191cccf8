-- ===== src/Groups/Scope.antt =====
-- internal/service/authz/scope.go: who may see and change whom.
use elara.Prelude.{Bytes, Bool, true, false, List, [], ◌∷◌, if◌then◌else◌}
use elara.Prelude.Outcome.{Outcome, ok, err}
use elara.Domain.Failure.{Failure, forbidden}
use elara.Authz.Rbac.{object_user, action_read, action_write}
use elara.Authz.Engine.{Engine, Group}
use elara.Authz.Enforcer.{World}
use elara.Authz.Points.{has_global, has_group, user_group_names}
use elara.Groups.Store.{get_group}

abbrev group_before :
    Outcome Failure Group → Outcome Failure (List Group) → Outcome Failure (List Group)
group_before (err e) r = err e
group_before (ok g) (err e) = err e
group_before (ok g) (ok gs) = ok (g ∷ gs)

abbrev granted : Outcome Failure Bool → Bool
granted (ok b) = b
granted (err e) = false

abbrev or_forbidden : Outcome Failure Bool → Outcome Failure (Unit {0})
or_forbidden (err e) = err e
or_forbidden (ok true) = ok tt
or_forbidden (ok false) = err forbidden

module _ {E : Engine} where
  unfoldable pub resolve_groups : World E → List Bytes → Outcome Failure (List Group)
  unfolding get_group
  resolve_groups w [] = ok []
  resolve_groups w (name ∷ names) = group_before (get_group name w).0 (resolve_groups w names)

  unfoldable pub resolve_target_groups : World E → Bytes → Outcome Failure (List Group)
  unfolding resolve_groups user_group_names
  resolve_target_groups w target = elim (user_group_names E w.model target) [
    | err e ↦ err e
    | ok names ↦ resolve_groups w names
  ]

module _ {E : Engine} (skip_permissions : Bool) where
  abbrev any_group : World E → Bytes → Bytes → List Group → Bool
  any_group w actor action [] = false
  any_group w actor action (g ∷ gs) =
      let rest = any_group w actor action gs in
      if has_group E skip_permissions w.model actor g.name action then true else rest

  unfoldable pub target_in_group_scope : World E → Bytes → Bytes → Bytes → Outcome Failure Bool
  unfolding resolve_target_groups has_group
  target_in_group_scope w actor target action = elim (resolve_target_groups w target) [
    | err e ↦ err e
    | ok groups ↦ ok (any_group w actor action groups)
  ]

  unfoldable pub can_read_user : World E → Bytes → Bytes → Bool
  unfolding has_global target_in_group_scope
  can_read_user w actor target =
      if has_global E skip_permissions w.model actor object_user action_read
      then true
      else granted (target_in_group_scope w actor target action_read)

  abbrev in_scope : World E → Bytes → List Bytes → List Bytes
  in_scope w actor [] = []
  in_scope w actor (c ∷ cs) =
      let rest = in_scope w actor cs in
      if granted (target_in_group_scope w actor c action_read) then c ∷ rest else rest

  unfoldable pub filter_visible_users : World E → Bytes → List Bytes → List Bytes
  unfolding has_global target_in_group_scope
  filter_visible_users w actor candidates =
      if has_global E skip_permissions w.model actor object_user action_read
      then candidates
      else in_scope w actor candidates

  unfoldable pub require_write_user : World E → Bytes → Bytes → Outcome Failure (Unit {0})
  unfolding has_global target_in_group_scope
  require_write_user w actor target =
      if has_global E skip_permissions w.model actor object_user action_write
      then ok tt
      else or_forbidden (target_in_group_scope w actor target action_write)
