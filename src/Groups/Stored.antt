-- ===== src/Groups/Stored.antt =====
-- internal/service/authz/pap_tx.go and internal/usecase/group/service_update.go: what a change of
-- permissions leaves in the bucket of the rules.
use elara.Prelude.{
  ℕ, ◌+◌, ◌==◌, Bytes, codes, bytes_eq, ◌≡◌, sym, ap, ◌∙◌, Bool, none, some, List, [], ◌∷◌, any,
  length, if◌then◌else◌, arith, Bool-cases, Option-cases, inl, inr,
}
use elara.Prelude.Outcome.{ok}
use elara.Storage.Tx.{pure, lift, bind_ok}
use elara.SliceUtil.{not_in, in_set, compose_post}
use elara.ConfigStore.Db.{increment}
use elara.ConfigStore.Read.Cache.{Outcome-cases}
use elara.Authz.Rbac.{Permission, permission_eq, group_resource}
use elara.Authz.Engine.{Engine, Group}
use elara.Authz.Policies.{rule_key}
use elara.Authz.Enforcer.{World, tx_add_policy, tx_remove_policy, put_rule, delete_rule}
use elara.Authz.Points.{
  rule_permission, add_permissions, remove_permissions, apply_permission_deltas,
}
use elara.Groups.Store.{get_group, store_group}
use elara.Groups.{
  Delta, change_permissions, commit_dominated, commit_permission_delta, boundary_check_perms,
  cascade_check_perms,
}

-- The key under which the bucket has a permission of a subject.
abbrev permission_key : Engine → Bytes → Permission → Bytes
permission_key E subject p = rule_key E (codes "p") (subject ∷ p.on ∷ p.object ∷ p.action ∷ [])

abbrev is_key_of : Engine → Bytes → List Permission → Bytes → Bool
is_key_of E subject ps j = any (λ p. bytes_eq (permission_key E subject p) j) ps

module _ {E : Engine} where
  -- The bucket has gained the rules of `added` and lost those of `removed`, for this subject; every
  -- other key is as it was. What is both is there.
  abbrev pub HasDelta : Bytes → List Permission → List Permission → World E → World E → Type 0
  HasDelta subject added removed w w' =
      (j : Bytes)
      → E.get w'.policies j ≡ (
          if is_key_of E subject added j
          then some []
          else if is_key_of E subject removed j
          then none
          else E.get w.policies j)

  add_permissions_stored :
      (subject : Bytes) (ps : List Permission) (w w' : World E) (u : Unit {0})
      → add_permissions subject ps w ≡ (ok u, w')
      → (j : Bytes)
      → E.get w'.policies j ≡ (if is_key_of E subject ps j then some [] else E.get w.policies j)
  unfolding add_permissions tx_add_policy put_rule rule_permission
  add_permissions_stored subject [] w w' u h j = ap (λ p. E.get p.1.policies j) (sym h)
  add_permissions_stored subject (p ∷ ps) w w' u h j =
      let (v, w1, e1, h1) =
        bind_ok (tx_add_policy (rule_permission subject p)) (λ u. add_permissions subject ps) w h in
      let rest = add_permissions_stored subject ps w1 w' u h1 j in
      let key = permission_key E subject p in
      elim (Bool-cases (E.rejects key [])) [
        | inl refused ↦ absurd (ground arith)
        | inr taken ↦
            let here : E.put w.policies key [] ≡ w1.policies = ground arith in
            ground (arith, rest, here, E.get-put w.policies key [] j)
      ]

  remove_permissions_stored :
      (subject : Bytes) (ps : List Permission) (w w' : World E) (u : Unit {0})
      → remove_permissions subject ps w ≡ (ok u, w')
      → (j : Bytes)
      → E.get w'.policies j ≡ (if is_key_of E subject ps j then none else E.get w.policies j)
  unfolding remove_permissions tx_remove_policy delete_rule rule_permission
  remove_permissions_stored subject [] w w' u h j = ap (λ p. E.get p.1.policies j) (sym h)
  remove_permissions_stored subject (p ∷ ps) w w' u h j =
      let (v, w1, e1, h1) =
        bind_ok (tx_remove_policy (rule_permission subject p)) (λ u. remove_permissions subject ps)
          w h in
      let rest = remove_permissions_stored subject ps w1 w' u h1 j in
      let key = permission_key E subject p in
      let here : E.delete w.policies key ≡ w1.policies = ap (λ p. p.1.policies) e1 in
      ground (arith, rest, here, E.get-delete w.policies key j)

  apply_permission_deltas_stored :
      (name : Bytes) (added removed : List Permission) (w w' : World E) (u : Unit {0})
      → apply_permission_deltas name added removed w ≡ (ok u, w')
      → HasDelta (group_resource name) added removed w w'
  unfolding apply_permission_deltas
  apply_permission_deltas_stored name added removed w w' u h j =
      let subject = group_resource name in
      let (v, w1, e1, h1) =
        bind_ok (remove_permissions subject removed) (λ u. add_permissions subject added) w h in
      add_permissions_stored subject added w1 w' u h1 j
      ∙ ap (λ o. if is_key_of E subject added j then some [] else o)
          (remove_permissions_stored subject removed w w1 v e1 j)

  -- Writing a group's row leaves the rules.
  store_group_stored :
      (now : ℕ) (g a : Group) (w w' : World E)
      → store_group now g w ≡ (ok a, w')
      → w'.policies ≡ w.policies
  unfolding store_group get_group
  store_group_stored now g a w w' h = elim (Option-cases (E.get w.groups g.name)) [
    | inl gone ↦ absurd (ground arith)
    | inr (b, at) ↦ elim (Option-cases (E.decode_group b)) [
      | inl broken ↦ absurd (ground arith)
      | inr (existing, decodes) ↦
          let row : Group = record existing {
            display_name = g.display_name;
            description = g.description;
            metadata_version = g.metadata_version;
            members_version = g.members_version;
            permissions_version = g.permissions_version;
            updated_at = now;
          } in
          elim (Bool-cases (E.rejects g.name (E.encode_group row))) [
            | inl refused ↦ absurd (ground arith)
            | inr taken ↦ ground arith
          ]
    ]
  ]

  commit_permission_delta_stored :
      (now : ℕ) (g a : Group) (added removed : List Permission) (w w' : World E)
      → commit_permission_delta now g added removed w ≡ (ok a, w')
      → HasDelta (group_resource g.name) added removed w w'
  unfolding commit_permission_delta
  commit_permission_delta_stored now g a added removed w w' h j =
      let row : Group = record g {
        permissions_version = increment g.permissions_version;
        updated_at = now;
      } in
      let (u, w1, e1, h1) =
        bind_ok (apply_permission_deltas g.name added removed) (λ u. store_group now row) w h in
      ap (λ b. E.get b j) (store_group_stored now row a w1 w' h1)
      ∙ apply_permission_deltas_stored g.name added removed w w1 u e1 j

module _ {E : Engine} (skip_permissions : Bool) (actor : Bytes) where
  commit_dominated_stored :
      (now : ℕ) (g a : Group) (current added removed post : List Permission) (w w' : World E)
      → commit_dominated skip_permissions now actor g current added removed w ≡ (ok (a, post), w')
      → HasDelta (group_resource g.name) added removed w w'
  unfolding commit_dominated
  commit_dominated_stored now g a current added removed post w w' h j =
      let post' : List Permission = compose_post permission_eq current added removed in
      let (u, w1, e1, h1) =
        bind_ok (λ w. lift (cascade_check_perms E skip_permissions w.model actor g.name post') w) _
          w h in
      let stay : w ≡ w1 = ap (λ p. p.1) e1 in
      let (g', w2, e2, h2) =
        bind_ok (commit_permission_delta now g added removed) (λ g'. pure (g', post')) w1 h1 in
      let last : w2 ≡ w' = ap (λ p. p.1) h2 in
      ap (λ v. E.get v.policies j) (sym last)
      ∙ commit_permission_delta_stored now g g' added removed w1 w2 e2 j
      ∙ ap
          (λ v.
            if is_key_of E (group_resource g.name) added j
            then some []
            else if is_key_of E (group_resource g.name) removed j
            then none
            else E.get v.policies j)
          (sym stay)

  unchanged :
      (subject : Bytes) (added removed : List Permission) (w w' : World E)
      → length added + length removed ≡ 0
      → w ≡ w'
      → HasDelta subject added removed w w'
  unchanged subject [] [] w w' h same j = ap (λ v. E.get v.policies j) (sym same)
  unchanged subject [] (p ∷ ps) w w' h same j = absurd (omega (arith, h))
  unchanged subject (p ∷ ps) removed w w' h same j = absurd (omega (arith, h))

  -- A change of permissions stores what is new to the group, and deletes what it had of the rest.
  pub change_permissions_stored :
      (now : ℕ) (d : Delta Permission) (g a : Group) (current post : List Permission)
      (w w' : World E)
      → change_permissions skip_permissions now actor d g current w ≡ (ok (a, post), w')
      → HasDelta
          (group_resource g.name)
          (not_in permission_eq d.add current)
          (in_set permission_eq d.remove current)
          w
          w'
  unfolding change_permissions
  change_permissions_stored now d g a current post w w' h =
      let added : List Permission = not_in permission_eq d.add current in
      let removed : List Permission = in_set permission_eq d.remove current in
      elim (Outcome-cases (boundary_check_perms E skip_permissions w.model actor added)) [
        | inr (e, refused) ↦ absurd (ground arith)
        | inl (u, passed) ↦ elim (Bool-cases (length added + length removed == 0)) [
          | inl none_new ↦
              let same : w ≡ w' = ground arith in
              unchanged (group_resource g.name) added removed w w' (ground arith) same
          | inr some_new ↦
              commit_dominated_stored now g a current added removed post w w' (ground arith)
        ]
      ]
