-- ===== src/Groups/Checks.antt =====
-- internal/usecase/group/service_update.go: what the checks of a change of permissions make sure of.
use elara.Prelude.{
  ℕ, ◌+◌, ◌==◌, Bytes, ◌≡◌, sym, ap, subst, Bool, true, false, List, [], ◌∷◌, All, length, arith,
  Bool-cases, Option-cases, inl, inr, ◌⊎◌,
}
use elara.Prelude.Outcome.{Outcome, ok}
use elara.Domain.Failure.{Failure}
use elara.SliceUtil.{not_in, in_set, compose_post}
use elara.Storage.Tx.{lift, bind_ok}
use elara.ConfigStore.Read.Cache.{Outcome-cases}
use elara.Authz.Rbac.{Permission, permission_eq, group_resource}
use elara.Authz.Engine.{Engine, Group}
use elara.Authz.Enforcer.{World, tx_permissions_for_subject}
use elara.Authz.Points.{has, all_held, group_members, tx_group_permissions}
use elara.Groups.Store.{get_group}
use elara.Groups.Stored.{HasDelta, change_permissions_stored}
use elara.Groups.Deltas.{
  new_to, held_of, changed, not_in-new_to, in_set-held_of, compose_post-changed,
}
use elara.Groups.{
  Delta, load_mutable_group, ensure_mutable, change_permissions, boundary_check_perms,
  cascade_check_perms, commit_permission_delta, commit_dominated, nothing,
}

pub all_held_ok :
    (has : Permission → Bool) (ps : List Permission)
    → all_held has ps ≡ ok tt
    → All (λ p. has p ≡ true) ps
all_held_ok has [] h = tt
all_held_ok has (p ∷ ps) h = elim (Bool-cases (has p)) [
  | inl e ↦ (e, all_held_ok has ps (ground arith))
  | inr e ↦ absurd (ground arith)
]

-- A lifted result leaves the state.
pub lift_ok :
    {S A : Type 0} (r : Outcome Failure A) (s : S) {t : S} {a : A}
    → lift r s ≡ (ok a, t)
    → (r ≡ ok a) × (s ≡ t)
lift_ok r s h = (ap (λ p. p.0) h, ap (λ p. p.1) h)

module _ {E : Engine} where
  pub load_mutable_group_ok :
      (name : Bytes) (w w' : World E) (g : Group)
      → load_mutable_group name w ≡ (ok g, w')
      → (get_group name w ≡ (ok g, w)) × (g.system ≡ false) × (w ≡ w')
  unfolding load_mutable_group get_group ensure_mutable
  load_mutable_group_ok name w w' g h = elim (Option-cases (E.get w.groups name)) [
    | inl gone ↦ absurd (ground arith)
    | inr (b, at) ↦ elim (Option-cases (E.decode_group b)) [
      | inl broken ↦ absurd (ground arith)
      | inr (row, decodes) ↦ elim (Bool-cases row.system) [
        | inl fixed ↦ absurd (ground arith)
        | inr free ↦ (ground arith, ground arith, ground arith)
      ]
    ]
  ]

module _ (E : Engine) (skip_permissions : Bool) (actor : Bytes) where
  -- The actor holds each of these permissions, by the model.
  abbrev pub Holds : E.Model → List Permission → Type 0
  Holds m ps = All (λ p. has E skip_permissions m actor p ≡ true) ps

  -- A change of the permissions of a group from `current` to `post`, with its effect from `w` to `w'`:
  -- the actor holds what is added; nothing changes, or `post` is `after`, and the group has no members or
  -- the actor holds all of it; and the bucket has gained the rules of what is added and lost those of
  -- what is removed, and no other.
  pub record IsSafeChange (w w' : World E) (g : Group)
      (current added removed after post : List Permission) : Type 0 where
    pub held : Holds w.model added
    pub cascade :
        (post ≡ current) × (length added + length removed ≡ 0)
        ⊎ (post ≡ after) × ((nothing (group_members E w.model g.name) ≡ true) ⊎ Holds w.model post)
    pub stored : HasDelta (group_resource g.name) added removed w w'

  boundary_ok :
      (m : E.Model) (ps : List Permission)
      → boundary_check_perms E skip_permissions m actor ps ≡ ok tt
      → Holds m ps
  unfolding boundary_check_perms
  boundary_ok m ps h = all_held_ok (has E skip_permissions m actor) ps h

  cascade_ok :
      (m : E.Model) (name : Bytes) (post : List Permission)
      → cascade_check_perms E skip_permissions m actor name post ≡ ok tt
      → (nothing (group_members E m name) ≡ true) ⊎ Holds m post
  unfolding cascade_check_perms
  cascade_ok m name post h = elim (Bool-cases (nothing (group_members E m name))) [
    | inl e ↦ inl e
    | inr e ↦ inr (all_held_ok (has E skip_permissions m actor) post (ground arith))
  ]

  commit_ok :
      (now : ℕ) (existing : Group) (current added removed : List Permission) (w w' : World E)
      (g : Group) (post : List Permission)
      → commit_dominated skip_permissions now actor existing current added removed w
        ≡ (ok (g, post), w')
      → (post ≡ compose_post permission_eq current added removed)
        × ((nothing (group_members E w.model existing.name) ≡ true) ⊎ Holds w.model post)
  unfolding commit_dominated
  commit_ok now existing current added removed w w' g post h =
      let post' : List Permission = compose_post permission_eq current added removed in
      let checks = cascade_check_perms E skip_permissions w.model actor existing.name post' in
      let (u, t, e1, h1) =
        bind_ok
          (λ w. lift (cascade_check_perms E skip_permissions w.model actor existing.name post') w) _
          w h in
      let (g', t2, e2, h2) = bind_ok (commit_permission_delta now existing added removed) _ t h1 in
      let same : post' ≡ post = cc h2 in
      (
        sym same,
        subst (λ p. (nothing (group_members E w.model existing.name) ≡ true) ⊎ Holds w.model p) same
            (cascade_ok w.model existing.name post' (lift_ok checks w e1).0),
      )

  pub tx_group_permissions_ok :
      (name : Bytes) (w w' : World E) (ps : List Permission)
      → tx_group_permissions name w ≡ (ok ps, w')
      → w ≡ w'
  unfolding tx_group_permissions tx_permissions_for_subject
  tx_group_permissions_ok name w w' ps h = ap (λ p. p.1) h

  -- The lists of the code are those that are expected.
  as_expected :
      (w w' : World E) (g : Group) (current add remove post : List Permission)
      → IsSafeChange w w' g current
          (not_in permission_eq add current)
          (in_set permission_eq remove current)
          (compose_post permission_eq current
            (not_in permission_eq add current)
            (in_set permission_eq remove current))
          post
      → IsSafeChange w w' g current
          (new_to current add)
          (held_of current remove)
          (changed current add remove)
          post
  as_expected w w' g current add remove post safe =
      let after = changed current add remove in
      subst (λ l. IsSafeChange w w' g current (new_to current add) l after post)
        (in_set-held_of remove current)
        (subst (λ l. IsSafeChange w w' g current l (in_set permission_eq remove current) after post)
          (not_in-new_to add current)
          (subst
            (λ l.
              IsSafeChange w w' g current (not_in permission_eq add current)
                (in_set permission_eq remove current) l post)
            (compose_post-changed current add remove) safe))

  pub change_permissions_ok :
      (now : ℕ) (d : Delta Permission) (existing : Group) (current : List Permission)
      (w w' : World E) (g : Group) (post : List Permission)
      → change_permissions skip_permissions now actor d existing current w ≡ (ok (g, post), w')
      → IsSafeChange w w' existing current
          (new_to current d.add)
          (held_of current d.remove)
          (changed current d.add d.remove)
          post
  unfolding change_permissions
  change_permissions_ok now d existing current w w' g post h =
      let added : List Permission = not_in permission_eq d.add current in
      let removed : List Permission = in_set permission_eq d.remove current in
      let checks = boundary_check_perms E skip_permissions w.model actor added in
      elim (Outcome-cases checks) [
        | inr (e, refused) ↦ absurd (ground arith)
        | inl (u, passed) ↦
            let before =
              change_permissions_stored skip_permissions actor now d existing g current post w w'
                h in
            let safe : IsSafeChange w w' existing current added removed
                (compose_post permission_eq current added removed) post =
              record {
                held = boundary_ok w.model added passed;
                cascade = elim (Bool-cases (length added + length removed == 0)) [
                  | inl none_new ↦ inl (ground arith, ground arith)
                  | inr some_new ↦
                      inr (commit_ok now existing current added removed w w' g post (ground arith))
                ];
                stored = before;
              } in
            as_expected w w' existing current d.add d.remove post safe
      ]
