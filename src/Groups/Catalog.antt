-- ===== src/Groups/Catalog.antt =====
-- internal/usecase/filter/service_catalog.go, and the checks of assignments against it in
-- internal/usecase/group/service_update.go.
use elara.Prelude.{
  Bytes, bytes_eq, has_prefix, ◌||◌, Option, none, some, List, [], ◌∷◌, any, if◌then◌else◌,
}
use elara.Prelude.Outcome.{Outcome, ok, err}
use elara.Domain.Failure.{Failure, validation}
use elara.Authz.Rbac.{
  Permission, domain_all, object_namespace, object_group, object_user, object_token, object_webhook,
  object_client, action_all, action_create, action_read, action_write, action_delete,
  namespace_resource_prefix, group_resource_prefix,
}

pub data ObjectScope : Type 0 where
  scope_unspecified scope_global scope_namespace scope_group : ObjectScope

pub record CatalogEntry : Type 0 where
  pub object : Bytes
  pub scope : ObjectScope
  pub actions : List Bytes

abbrev crud : List Bytes
crud = action_read ∷ action_write ∷ action_create ∷ action_delete ∷ action_all ∷ []

unfoldable pub build_catalog : List CatalogEntry
build_catalog =
    record { object = object_namespace; scope = scope_namespace; actions = crud }
    ∷ record { object = object_group; scope = scope_group; actions = crud }
    ∷ record {
      object = object_user;
      scope = scope_global;
      actions = action_read ∷ action_write ∷ action_create ∷ action_all ∷ [];
    }
    ∷ record { object = object_token; scope = scope_global; actions = crud }
    ∷ record { object = object_webhook; scope = scope_global; actions = crud }
    ∷ record { object = object_client; scope = scope_global; actions = action_read ∷ [] }
    ∷ []

entry_in : Bytes → List CatalogEntry → Option CatalogEntry
entry_in object [] = none
entry_in object (e ∷ es) =
    let rest = entry_in object es in if bytes_eq e.object object then some e else rest

unfoldable pub lookup_catalog_entry : Bytes → Option CatalogEntry
unfolding entry_in build_catalog
lookup_catalog_entry object = entry_in object build_catalog

unfoldable pub validate_assignment_action : CatalogEntry → Bytes → Outcome Failure (Unit {0})
validate_assignment_action entry action =
    if any (λ a. bytes_eq a action) entry.actions then ok tt else err validation

unfoldable pub validate_global_domain : Bytes → Outcome Failure (Unit {0})
validate_global_domain on = if bytes_eq on domain_all then ok tt else err validation

unfoldable pub validate_prefixed_domain : Bytes → Bytes → Outcome Failure (Unit {0})
unfolding has_prefix
validate_prefixed_domain on prefix =
    if bytes_eq on []
    then err validation
    else if bytes_eq on domain_all || has_prefix on prefix
    then ok tt
    else err validation

unfoldable pub validate_assignment_domain : ObjectScope → Bytes → Outcome Failure (Unit {0})
unfolding validate_global_domain validate_prefixed_domain
validate_assignment_domain scope_global on = validate_global_domain on
validate_assignment_domain scope_namespace on =
    validate_prefixed_domain on namespace_resource_prefix
validate_assignment_domain scope_group on = validate_prefixed_domain on group_resource_prefix
validate_assignment_domain scope_unspecified on = err validation

unfoldable pub validate_permission_assignment : Permission → Outcome Failure (Unit {0})
unfolding lookup_catalog_entry validate_assignment_action validate_assignment_domain
validate_permission_assignment p = elim (lookup_catalog_entry p.object) [
  | none ↦ err validation
  | some entry ↦ elim (validate_assignment_action entry p.action) [
    | err e ↦ err e
    | ok u ↦ validate_assignment_domain entry.scope p.on
  ]
]
