-- ===== src/Groups/Agreement/Steps.antt =====
-- internal/usecase/group/service_create.go: each step of a creation records what it does to the rules.
use elara.Prelude.{
  ℕ, ltb, ◌==◌, Bytes, ◌≡◌, sym, ap, subst, ◌||◌, List, [], ◌∷◌, All, arith, Bool-cases,
  Option-cases, inl, inr, if◌then◌else◌,
}
use elara.Prelude.Outcome.{ok}
use elara.Storage.Tx.{pure, bind_ok}
use elara.ConfigStore.Read.Cache.{Outcome-cases}
use elara.Authz.Rbac.{Permission, group_resource, object_group, action_write}
use elara.Authz.Engine.{Engine, Group}
use elara.Authz.Enforcer.{World}
use elara.Authz.Points.{apply_permission_deltas, apply_member_deltas}
use elara.Authz.Tracked.{IsTracked, Keeps, AllText, apply_permission_deltas-Keeps}
use elara.Authz.Members.{AllMembersText, apply_member_deltas-Keeps}
use elara.Groups.Store.{get_group, add_group}
use elara.Groups.Create.{
  CreateData, new_group, validate_group, unused, persist_entity, apply_initial_permissions,
  apply_initial_members, wire_initial_managers, persist_versions,
}
use elara.Groups.Agreement.{store_group-Keeps}

-- The permission that a manager group gets.
abbrev management : Bytes → Permission
management name = record { object = object_group; action = action_write; on = group_resource name }

-- The new rule of a manager is text.
abbrev pub ManagesInText : Engine → Bytes → Group → Type 0
ManagesInText E name g = AllText E (group_resource g.name) (management name ∷ [])

module _ {E : Engine} where
  add_group-Keeps :
      (now : ℕ) (g : Group) (m0 : E.Model) (w w' : World E) (a : Group)
      → IsTracked m0 w
      → add_group now g w ≡ (ok a, w')
      → IsTracked m0 w' × (a.name ≡ g.name)
  unfolding add_group
  add_group-Keeps now g m0 w w' a tracked h = elim (Option-cases (E.get w.groups g.name)) [
    | inr (b, at) ↦ absurd (ground arith)
    | inl free ↦
        let row : Group = record g {
          created_at = now;
          updated_at = now;
          metadata_version = if g.metadata_version == 0 then 1 else g.metadata_version;
        } in
        elim (Bool-cases (E.rejects g.name (E.encode_group row))) [
          | inl refused ↦ absurd (ground arith)
          | inr taken ↦
              let same : record w { groups = E.put w.groups g.name (E.encode_group row) } ≡ w' =
                ground arith in
              let is_row : row ≡ a = ground arith in
              (subst (IsTracked m0) same tracked, sym (ap (λ r. r.name) is_row))
        ]
  ]

  pub persist_entity-Keeps :
      (now : ℕ) (d : CreateData) (m0 : E.Model) (w w' : World E) (a : Group)
      → IsTracked m0 w
      → persist_entity now d w ≡ (ok a, w')
      → IsTracked m0 w' × (a.name ≡ d.name)
  unfolding persist_entity
  persist_entity-Keeps now d m0 w w' a tracked h =
      elim (Outcome-cases (unused (get_group d.name w).0)) [
        | inr (e, refused) ↦ absurd (ground arith)
        | inl (u, free) ↦ elim (Outcome-cases (validate_group (new_group now d))) [
          | inr (e, refused) ↦ absurd (ground arith)
          | inl (v, valid) ↦ add_group-Keeps now (new_group now d) m0 w w' a tracked (ground arith)
        ]
      ]

  pub apply_initial_permissions-Keeps :
      (g : Group) (perms : List Permission) (m0 : E.Model) (w w' : World E) (a : Group)
      → AllText E (group_resource g.name) perms
      → IsTracked m0 w
      → apply_initial_permissions g perms w ≡ (ok a, w')
      → IsTracked m0 w' × (a.name ≡ g.name)
  unfolding apply_initial_permissions
  apply_initial_permissions-Keeps g [] m0 w w' a t tracked h =
      (subst (IsTracked m0) (ap (λ p. p.1) h) tracked, cc h)
  apply_initial_permissions-Keeps g (p ∷ ps) m0 w w' a t tracked h =
      let granted : Group = record g { permissions_version = 1 } in
      let (u, w1, e1, h1) =
        bind_ok (apply_permission_deltas g.name (p ∷ ps) []) (λ u. pure granted) w h in
      (
        subst (IsTracked m0) (ap (λ p. p.1) h1)
            (apply_permission_deltas-Keeps g.name (p ∷ ps) [] t tt m0 w w1 u tracked e1),
        (let is_a : granted ≡ a = cc h1 in sym (ap (λ r. r.name) is_a)),
      )

  pub apply_initial_members-Keeps :
      (g : Group) (members : List Bytes) (m0 : E.Model) (w w' : World E) (a : Group)
      → AllMembersText E (group_resource g.name) members
      → IsTracked m0 w
      → apply_initial_members g members w ≡ (ok a, w')
      → IsTracked m0 w' × (a.name ≡ g.name)
  unfolding apply_initial_members
  apply_initial_members-Keeps g [] m0 w w' a t tracked h =
      (subst (IsTracked m0) (ap (λ p. p.1) h) tracked, cc h)
  apply_initial_members-Keeps g (m ∷ ms) m0 w w' a t tracked h =
      let joined : Group = record g { members_version = 1 } in
      let (u, w1, e1, h1) =
        bind_ok (apply_member_deltas g.name (m ∷ ms) []) (λ u. pure joined) w h in
      (
        subst (IsTracked m0) (ap (λ p. p.1) h1)
            (apply_member_deltas-Keeps g.name (m ∷ ms) [] t tt m0 w w1 u tracked e1),
        (let is_a : joined ≡ a = cc h1 in sym (ap (λ r. r.name) is_a)),
      )

  pub wire_initial_managers-Keeps :
      (g : Group) (managers : List Group)
      → All (ManagesInText E g.name) managers
      → Keeps (wire_initial_managers {E = E} g managers)
  unfolding wire_initial_managers
  wire_initial_managers-Keeps g [] t m0 w w' a tracked h =
      subst (IsTracked m0) (ap (λ p. p.1) h) tracked
  wire_initial_managers-Keeps g (mg ∷ managers) (t, ts) m0 w w' a tracked h =
      let (u, w1, e1, h1) =
        bind_ok (apply_permission_deltas mg.name (management g.name ∷ []) [])
          (λ u. wire_initial_managers g managers) w h in
      wire_initial_managers-Keeps g managers ts m0 w1 w' a
        (apply_permission_deltas-Keeps mg.name (management g.name ∷ []) [] t tt m0 w w1 u tracked
          e1)
        h1

  pub persist_versions-Keeps : (now : ℕ) (g : Group) → Keeps (persist_versions {E = E} now g)
  unfolding persist_versions
  persist_versions-Keeps now g m0 w w' a tracked h =
      elim (Bool-cases (ltb 0 g.permissions_version || ltb 0 g.members_version)) [
        | inl bumped ↦ store_group-Keeps now g m0 w w' a tracked (ground arith)
        | inr untouched ↦ let same : w ≡ w' = ground arith in subst (IsTracked m0) same tracked
      ]
