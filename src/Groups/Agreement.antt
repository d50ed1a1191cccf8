-- ===== src/Groups/Agreement.antt =====
-- internal/usecase/group/service_update.go: after a change of permissions the rules in memory are those
-- in the bucket.
pub mod Steps
pub mod Create
use elara.Prelude.{
  ℕ, ◌+◌, ◌==◌, Bytes, ◌≡◌, refl, sym, ap, ◌∙◌, subst, Bool, some, List, [], ◌∷◌, All, length,
  arith, Bool-cases, Option-cases, inl, inr,
}
use elara.Prelude.Outcome.{ok}
use elara.SliceUtil.{not_in, in_set, compose_post, elem}
use elara.Storage.Tx.{Run, Ctx, ◌>>=◌, pure, lift, bind_ok}
use elara.ConfigStore.Db.{increment}
use elara.ConfigStore.Read.Cache.{Outcome-cases}
use elara.Authz.Rbac.{Permission, permission_eq, group_resource}
use elara.Authz.Engine.{Engine, Group}
use elara.Authz.Enforcer.{World, write_tx, apply_ops_to_cache}
use elara.Authz.Points.{apply_permission_deltas, tx_group_permissions}
use elara.Authz.Agreement.{Agrees}
use elara.Authz.Tracked.{IsTracked, Keeps, AllText, apply_permission_deltas-Keeps}
use elara.Authz.Synced.{write_tx_ok}
use elara.Groups.Store.{get_group, store_group}
use elara.Groups.{
  Delta, load_mutable_group, check_version, update_permissions, update_permissions_tx,
  change_permissions, validate_permission_deltas, boundary_check_perms, cascade_check_perms,
  commit_permission_delta, commit_dominated,
}
use elara.Groups.Checks.{lift_ok, load_mutable_group_ok, tx_group_permissions_ok}

All-not_in :
    {A : Type 0} (P : A → Type 0) (same : A → A → Bool) (s set : List A)
    → All P s
    → All P (not_in same s set)
unfolding not_in
All-not_in P same [] set h = tt
All-not_in P same (v ∷ s) set (p, h) = elim (Bool-cases (elem same v set)) [
  | inl e ↦ rw e (All-not_in P same s set h)
  | inr e ↦ rw e (p, All-not_in P same s set h)
]

All-in_set :
    {A : Type 0} (P : A → Type 0) (same : A → A → Bool) (s set : List A)
    → All P s
    → All P (in_set same s set)
unfolding in_set
All-in_set P same [] set h = tt
All-in_set P same (v ∷ s) set (p, h) = elim (Bool-cases (elem same v set)) [
  | inl e ↦ rw e (p, All-in_set P same s set h)
  | inr e ↦ rw e (All-in_set P same s set h)
]

module _ {E : Engine} where
  -- The rules of the change, for the group that is read, are text that encoding/json writes as it is.
  abbrev pub HasTextFor : World E → Delta Permission → Type 0
  HasTextFor w d =
      (g : Group)
      → get_group d.group_name w ≡ (ok g, w)
      → AllText E (group_resource g.name) d.add × AllText E (group_resource g.name) d.remove

  -- A write of a group's row leaves the rules.
  pub store_group-Keeps : (now : ℕ) (g : Group) → Keeps (store_group {E = E} now g)
  unfolding store_group get_group
  store_group-Keeps now g m0 w w' a tracked h = elim (Option-cases (E.get w.groups g.name)) [
    | inl gone ↦ absurd (ground arith)
    | inr (b, at) ↦ elim (Option-cases (E.decode_group b)) [
      | inl broken ↦ absurd (ground arith)
      | inr (existing, decodes) ↦
          let row : Group = record existing {
            display_name = g.display_name;
            description = g.description;
            metadata_version = g.metadata_version;
            members_version = g.members_version;
            permissions_version = g.permissions_version;
            updated_at = now;
          } in
          elim (Bool-cases (E.rejects g.name (E.encode_group row))) [
            | inl refused ↦ absurd (ground arith)
            | inr taken ↦
                let same : record w { groups = E.put w.groups g.name (E.encode_group row) } ≡ w' =
                  ground arith in
                subst (IsTracked m0) same tracked
          ]
    ]
  ]

  commit_permission_delta-Keeps :
      (now : ℕ) (g : Group) (added removed : List Permission)
      → AllText E (group_resource g.name) added
      → AllText E (group_resource g.name) removed
      → Keeps (commit_permission_delta {E = E} now g added removed)
  unfolding commit_permission_delta
  commit_permission_delta-Keeps now g added removed ta tr m0 w w' a tracked h =
      let row : Group = record g {
        permissions_version = increment g.permissions_version;
        updated_at = now;
      } in
      let (u, w1, e1, h1) =
        bind_ok (apply_permission_deltas g.name added removed) (λ u. store_group now row) w h in
      store_group-Keeps now row m0 w1 w' a
        (apply_permission_deltas-Keeps g.name added removed ta tr m0 w w1 u tracked e1) h1

module _ {E : Engine} (skip_permissions : Bool) (actor : Bytes) where
  commit_dominated-Keeps :
      (now : ℕ) (g : Group) (current added removed : List Permission)
      → AllText E (group_resource g.name) added
      → AllText E (group_resource g.name) removed
      → Keeps (commit_dominated {E = E} skip_permissions now actor g current added removed)
  unfolding commit_dominated
  commit_dominated-Keeps now g current added removed ta tr m0 w w' a tracked h =
      let post : List Permission = compose_post permission_eq current added removed in
      let checks = cascade_check_perms E skip_permissions w.model actor g.name post in
      let (u, w1, e1, h1) =
        bind_ok (λ w. lift (cascade_check_perms E skip_permissions w.model actor g.name post) w) _ w
          h in
      let (passed, s1) = lift_ok checks w e1 in
      let (g', w2, e2, h2) =
        bind_ok (commit_permission_delta now g added removed) (λ g'. pure (g', post)) w1 h1 in
      subst (IsTracked m0) (ap (λ p. p.1) h2) (
        commit_permission_delta-Keeps now g added removed ta tr m0 w1 w2 g'
          (subst (IsTracked m0) s1 tracked) e2)

  change_permissions-Keeps :
      (now : ℕ) (d : Delta Permission) (g : Group) (current : List Permission)
      → AllText E (group_resource g.name) d.add
      → AllText E (group_resource g.name) d.remove
      → Keeps (change_permissions {E = E} skip_permissions now actor d g current)
  unfolding change_permissions
  change_permissions-Keeps now d g current ta tr m0 w w' a tracked h =
      let added : List Permission = not_in permission_eq d.add current in
      let removed : List Permission = in_set permission_eq d.remove current in
      elim (Outcome-cases (boundary_check_perms E skip_permissions w.model actor added)) [
        | inr (e, refused) ↦ absurd (ground arith)
        | inl (u, passed) ↦ elim (Bool-cases (length added + length removed == 0)) [
          | inl none_new ↦ let same : w ≡ w' = ground arith in subst (IsTracked m0) same tracked
          | inr some_new ↦
              commit_dominated-Keeps now g current added removed
                (All-not_in _ permission_eq d.add current ta)
                (All-in_set _ permission_eq d.remove current tr) m0 w w' a tracked (ground arith)
        ]
      ]

  update_permissions_tx-Keeps :
      (now : ℕ) (d : Delta Permission) (m0 : E.Model) (w w' : World E) (a : Group × List Permission)
      → HasTextFor w d
      → IsTracked m0 w
      → update_permissions_tx skip_permissions now actor d w ≡ (ok a, w')
      → IsTracked m0 w'
  unfolding update_permissions_tx
  update_permissions_tx-Keeps now d m0 w w' a text tracked h =
      let change = change_permissions skip_permissions now actor d in
      let (g, w1, e1, h1) = bind_ok (load_mutable_group d.group_name) _ w h in
      let (found, free, s1) = load_mutable_group_ok d.group_name w w1 g e1 in
      let checks = check_version d.expected_version g.permissions_version in
      let (u2, w2, e2, h2) =
        bind_ok (lift checks) (λ u. tx_group_permissions g.name >>= change g) w1 h1 in
      let (version, s2) = lift_ok checks w1 e2 in
      let (current, w3, e3, h3) = bind_ok (tx_group_permissions g.name) (change g) w2 h2 in
      let s3 = tx_group_permissions_ok E skip_permissions actor g.name w2 w3 current e3 in
      change_permissions-Keeps now d g current (text g found).0 (text g found).1 m0 w3 w' a
        (subst (IsTracked m0) (s1 ∙ s2 ∙ s3) tracked) h3

  -- Where the rules of a change are text that encoding/json writes as it is, and the rules in memory are
  -- those in the bucket, they are so again after an UpdatePermissions that succeeds.
  pub update_permissions-Agrees :
      (ctx : Ctx) (d : Delta Permission) (w w' : World E) (a : Group × List Permission)
      → HasTextFor (record w { ops = [] }) d
      → Agrees E w.model w.policies
      → update_permissions skip_permissions ctx actor d w ≡ (ok a, w')
      → Agrees E w'.model w'.policies
  unfolding update_permissions apply_ops_to_cache
  update_permissions-Agrees ctx d w w' a text agrees h =
      elim (Outcome-cases (validate_permission_deltas d.add d.remove)) [
        | inr (e, refused) ↦ absurd (ground arith)
        | inl (u, passed) ↦
            let body : Ctx → Run (World E) (Group × List Permission) =
              λ tx. update_permissions_tx skip_permissions tx.now actor d in
            let ran : write_tx ctx body w ≡ (ok a, w') = ground arith in
            let (c, w1, m, now, ran', applied, same) = write_tx_ok ctx body w w' a ran in
            let begun : IsTracked w.model (record w { ops = [] }) = (
              refl,
              λ m e.
                  let is_m : w.model ≡ m = cc e in subst (λ m. Agrees E m w.policies) is_m agrees,
            ) in
            let (model, tracked) =
              update_permissions_tx-Keeps c.now d w.model (record w { ops = [] }) w1 a text begun
                ran' in
            subst (λ v. Agrees E v.model v.policies) (sym same)
              (tracked m (subst (λ n. apply_ops_to_cache E w1.ops n ≡ some m) model applied))
      ]
