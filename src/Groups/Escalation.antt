-- ===== src/Groups/Escalation.antt =====
-- internal/usecase/group/service_update.go: nobody hands on a permission that they do not hold.
use elara.Prelude.{
  ℕ, Bytes, bytes_eq, ◌≡◌, refl, sym, ap, ◌∙◌, subst, Bool, false, List, [], ◌∷◌, arith,
  Option-cases, inl, inr, ◌⊎◌,
}
use elara.Prelude.Outcome.{ok}
use elara.SliceUtil.{not_in, first_overlap}
use elara.Storage.Tx.{Run, Ctx, ◌>>=◌, lift, gets, bind_ok}
use elara.ConfigStore.Read.Cache.{Outcome-cases}
use elara.Authz.Rbac.{Permission}
use elara.Authz.Engine.{Engine, Group}
use elara.Authz.Enforcer.{World, write_tx}
use elara.Authz.Points.{
  has, group_members, group_permissions, require_membership_grant, tx_group_permissions,
}
use elara.Authz.Synced.{write_tx_ok}
use elara.Groups.Store.{get_group}
use elara.Groups.Deltas.{new_to, held_of, changed}
use elara.Groups.Checks.{
  Holds, IsSafeChange, all_held_ok, lift_ok, load_mutable_group_ok, tx_group_permissions_ok,
  change_permissions_ok,
}
use elara.Groups.{
  Delta, load_mutable_group, check_version, update_permissions, update_permissions_tx,
  change_permissions, change_members, update_members, update_members_tx, validate_permission_deltas,
  grant_if_added,
}

module _ (E : Engine) (skip_permissions : Bool) (actor : Bytes) where
  -- What a change of permissions from `w` to `w'` that ends with `post` has made sure of: the group is
  -- not a system group and has the version that was expected; and the change is safe, of the permissions
  -- that the transaction has read.
  pub record IsGranted (w w' : World E) (d : Delta Permission) (post : List Permission)
      : Type 0 where
    pub existing : Group
    pub current : List Permission
    pub found : get_group d.group_name w ≡ (ok existing, w)
    pub mutable' : existing.system ≡ false
    pub version : check_version d.expected_version existing.permissions_version ≡ ok tt
    pub before : tx_group_permissions existing.name w ≡ (ok current, w)
    pub change :
        IsSafeChange E skip_permissions actor w w' existing current
          (new_to current d.add)
          (held_of current d.remove)
          (changed current d.add d.remove)
          post

  update_permissions_tx_ok :
      (now : ℕ) (d : Delta Permission) (w w' : World E) (g : Group) (post : List Permission)
      → update_permissions_tx skip_permissions now actor d w ≡ (ok (g, post), w')
      → IsGranted w w' d post
  unfolding update_permissions_tx
  update_permissions_tx_ok now d w w' g post h =
      let change = change_permissions skip_permissions now actor d in
      let (existing, w1, e1, h1) = bind_ok (load_mutable_group d.group_name) _ w h in
      let (found, free, s1) = load_mutable_group_ok d.group_name w w1 existing e1 in
      let checks = check_version d.expected_version existing.permissions_version in
      let (u2, w2, e2, h2) =
        bind_ok (lift checks) (λ u. tx_group_permissions existing.name >>= change existing) w1 h1 in
      let (version, s2) = lift_ok checks w1 e2 in
      let (current, w3, e3, h3) =
        bind_ok (tx_group_permissions existing.name) (change existing) w2 h2 in
      let s3 = tx_group_permissions_ok E skip_permissions actor existing.name w2 w3 current e3 in
      let to2 : w2 ≡ w = sym (s1 ∙ s2) in
      let to3 : w3 ≡ w = sym s3 ∙ to2 in
      let safe =
        change_permissions_ok E skip_permissions actor now d existing current w3 w' g post h3 in
      record {
        existing = existing;
        current = current;
        found = found;
        mutable' = free;
        version = version;
        before =
            subst (λ v. tx_group_permissions existing.name v ≡ (ok current, v)) to2
              (e3 ∙ ap (λ v. (ok current, v)) (sym s3));
        change =
            subst
              (λ v.
                IsSafeChange E skip_permissions actor v w' existing current (new_to current d.add)
                  (held_of current d.remove) (changed current d.add d.remove) post)
              to3 safe;
      }

  with_model :
      (w w1 w' : World E) (m : E.Model) (d : Delta Permission) (post : List Permission)
      → w' ≡ record w1 { model = m }
      → IsGranted w w1 d post
      → IsGranted w w' d post
  with_model w w1 w' m d post same i = record {
    existing = i.existing;
    current = i.current;
    found = i.found;
    mutable' = i.mutable';
    version = i.version;
    before = i.before;
    change = record {
      held = i.change.held;
      cascade = i.change.cascade;
      stored = λ j. ap (λ v. E.get v.policies j) same ∙ i.change.stored j;
    };
  }

  -- Where an UpdatePermissions succeeds, the group was no system group and had the version that was
  -- expected; the actor holds every permission that is new to it; where anything changes, the group has
  -- no members, or the actor holds every permission that is returned, which are those it had without
  -- what is removed and with what is added; and the bucket of the rules has gained exactly the rules of
  -- what is added to the group and lost exactly those of what is removed.
  pub update_permissions_no_escalation :
      (ctx : Ctx) (d : Delta Permission) (w w' : World E) (g : Group) (post : List Permission)
      → update_permissions skip_permissions ctx actor d w ≡ (ok (g, post), w')
      → IsGranted (record w { ops = [] }) w' d post
  unfolding update_permissions
  update_permissions_no_escalation ctx d w w' g post h =
      elim (Outcome-cases (validate_permission_deltas d.add d.remove)) [
        | inr (e, refused) ↦ absurd (ground arith)
        | inl (u, passed) ↦
            let body : Ctx → Run (World E) (Group × List Permission) =
              λ tx. update_permissions_tx skip_permissions tx.now actor d in
            let ran : write_tx ctx body w ≡ (ok (g, post), w') = ground arith in
            let (c, w1, m, now, ran', applied, same) = write_tx_ok ctx body w w' (g, post) ran in
            with_model (record w { ops = [] }) w1 w' m d post same
              (update_permissions_tx_ok c.now d (record w { ops = [] }) w1 g post ran')
      ]

  -- What a change of members has made sure of: the group is not a system group and has the version that
  -- was expected; and nobody is added, or the actor holds every permission of the group.
  pub record IsAdmitted (w : World E) (d : Delta Bytes) : Type 0 where
    pub existing : Group
    pub found : get_group d.group_name w ≡ (ok existing, w)
    pub mutable' : existing.system ≡ false
    pub version : check_version d.expected_version existing.members_version ≡ ok tt
    pub admits :
        (not_in bytes_eq d.add (group_members E w.model existing.name) ≡ [])
        ⊎ Holds E skip_permissions actor w.model (group_permissions E w.model existing.name)

  grant_ok :
      (m : E.Model) (name : Bytes) (added : List Bytes)
      → grant_if_added E skip_permissions m actor name added ≡ ok tt
      → (added ≡ []) ⊎ Holds E skip_permissions actor m (group_permissions E m name)
  unfolding require_membership_grant
  grant_ok m name [] h = inl refl
  grant_ok m name (u ∷ added) h =
      inr (all_held_ok (has E skip_permissions m actor) (group_permissions E m name) h)

  update_members_tx_ok :
      (now : ℕ) (d : Delta Bytes) (w w' : World E) (g : Group) (shown : List Bytes)
      → update_members_tx skip_permissions now actor d w ≡ (ok (g, shown), w')
      → IsAdmitted w d
  unfolding update_members_tx change_members
  update_members_tx_ok now d w w' g shown h =
      let change = change_members skip_permissions now actor d in
      let (existing, w1, e1, h1) = bind_ok (load_mutable_group d.group_name) _ w h in
      let (found, free, s1) = load_mutable_group_ok d.group_name w w1 existing e1 in
      let checks = check_version d.expected_version existing.members_version in
      let members : World E → List Bytes = λ w. group_members E w.model existing.name in
      let (u2, w2, e2, h2) = bind_ok (lift checks) (λ u. gets members >>= change existing) w1 h1 in
      let (version, s2) = lift_ok checks w1 e2 in
      let current : List Bytes = members w2 in
      let grant =
        grant_if_added E skip_permissions w2.model actor existing.name
          (not_in bytes_eq d.add current) in
      let to2 : w2 ≡ w = sym (s1 ∙ s2) in
      elim (Outcome-cases grant) [
        | inr (e, refused) ↦ absurd (ground arith)
        | inl (u, passed) ↦ record {
          existing = existing;
          found = found;
          mutable' = free;
          version = version;
          admits =
              subst
                (λ v.
                  (not_in bytes_eq d.add (group_members E v.model existing.name) ≡ [])
                  ⊎ Holds E skip_permissions actor v.model
                      (group_permissions E v.model existing.name))
                to2 (grant_ok w2.model existing.name (not_in bytes_eq d.add current) passed);
        }
      ]

  -- Where an UpdateMembers succeeds, the group was no system group and had the version that was
  -- expected; and nobody is new in it, or the actor holds every permission of the group.
  pub update_members_no_escalation :
      (ctx : Ctx) (d : Delta Bytes) (w w' : World E) (g : Group) (shown : List Bytes)
      → update_members skip_permissions ctx actor d w ≡ (ok (g, shown), w')
      → IsAdmitted (record w { ops = [] }) d
  unfolding update_members
  update_members_no_escalation ctx d w w' g shown h =
      elim (Option-cases (first_overlap bytes_eq d.add d.remove)) [
        | inr (v, both) ↦ absurd (ground arith)
        | inl disjoint ↦
            let body : Ctx → Run (World E) (Group × List Bytes) =
              λ tx. update_members_tx skip_permissions tx.now actor d in
            let ran : write_tx ctx body w ≡ (ok (g, shown), w') = ground arith in
            let (c, w1, m, now, ran', applied, same) = write_tx_ok ctx body w w' (g, shown) ran in
            update_members_tx_ok c.now d (record w { ops = [] }) w1 g shown ran'
      ]
