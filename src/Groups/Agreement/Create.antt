-- ===== src/Groups/Agreement/Create.antt =====
-- internal/usecase/group/service_create.go: after a creation the rules in memory are those in the
-- bucket.
use elara.Prelude.{ℕ, Bytes, ◌≡◌, refl, sym, ap, ◌∙◌, subst, Bool, some, List, [], ◌∷◌, All}
use elara.Prelude.Outcome.{ok}
use elara.Storage.Tx.{Run, Ctx, ◌>>=◌, pure, lift, bind_ok}
use elara.Authz.Points.{all_held, has}
use elara.Authz.Rbac.{Permission, group_resource}
use elara.Authz.Engine.{Engine, Group}
use elara.Authz.Enforcer.{World, apply_ops_to_cache}
use elara.Authz.Agreement.{Agrees}
use elara.Authz.Tracked.{IsTracked, AllText}
use elara.Authz.Members.{AllMembersText}
use elara.Authz.Synced.{write_tx_ok}
use elara.Groups.Store.{get_group}
use elara.Groups.Scope.{filter_visible_users}
use elara.Groups.Create.{
  CreateData, persist_entity, apply_initial_permissions, apply_initial_members,
  wire_initial_managers, persist_versions, authorize_manager, authorize_managers, authorize_create,
  set_up, create_group_tx, create_group,
}
use elara.Groups.Creation.{authorize_manager_ok, authorize_create_ok}
use elara.Groups.Agreement.Steps.{
  ManagesInText, persist_entity-Keeps, apply_initial_permissions-Keeps, apply_initial_members-Keeps,
  wire_initial_managers-Keeps, persist_versions-Keeps,
}

-- The rules of a creation are text that encoding/json writes as it is.
abbrev pub CreatesText : (E : Engine) → World E → CreateData → Type 0
CreatesText E w d =
    AllText E (group_resource d.name) d.initial_permissions
    × AllMembersText E (group_resource d.name) d.initial_members
    × ((g : Group) (name : Bytes) → get_group name w ≡ (ok g, w) → ManagesInText E d.name g)

module _ {E : Engine} (skip_permissions : Bool) (actor : Bytes) where
  -- The managers that have been read are stored groups.
  managers_found :
      (P : Group → Type 0) (perms : List Permission) (names : List Bytes) (w w' : World E)
      (gs : List Group)
      → ((g : Group) (name : Bytes) → get_group name w ≡ (ok g, w) → P g)
      → authorize_managers skip_permissions actor perms names w ≡ (ok gs, w')
      → All P gs
  unfolding authorize_managers
  managers_found P perms [] w w' gs each h = let none : [] ≡ gs = cc h in subst (All P) none tt
  managers_found P perms (name ∷ names) w w' gs each h =
      let rest = authorize_managers skip_permissions actor perms names in
      let (mg, w1, e1, h1) =
        bind_ok (authorize_manager skip_permissions actor perms name)
          (λ mg. rest >>= λ managers. pure (mg ∷ managers)) w h in
      let (manager, s1, at) = authorize_manager_ok E skip_permissions actor perms name w w1 mg e1 in
      let (mgs, w2, e2, h2) = bind_ok rest (λ managers. pure (mg ∷ managers)) w1 h1 in
      let both : mg ∷ mgs ≡ gs = cc h2 in
      subst (All P) both (
        each mg name at,
        managers_found P perms names w w2 mgs each (subst (λ v. rest v ≡ (ok mgs, w2)) (sym s1) e2),
      )

  set_up-Keeps :
      (now : ℕ) (d : CreateData) (managers : List Group) (g : Group) (m0 : E.Model) (w w' : World E)
      (a : Group × List Bytes × List Permission)
      → g.name ≡ d.name
      → AllText E (group_resource d.name) d.initial_permissions
      → AllMembersText E (group_resource d.name) d.initial_members
      → All (ManagesInText E d.name) managers
      → IsTracked m0 w
      → set_up skip_permissions actor now d managers g w ≡ (ok a, w')
      → IsTracked m0 w'
  unfolding set_up
  set_up-Keeps now d managers g m0 w w' a named tp tm tw tracked h =
      let shown : Group → Run (World E) (Group × List Bytes × List Permission) = λ g w. (
        ok (
          g,
          filter_visible_users skip_permissions w actor d.initial_members,
          d.initial_permissions,
        ),
        w,
      ) in
      let finish : Group → Run (World E) (Group × List Bytes × List Permission) = λ joined.
        wire_initial_managers joined managers >>= λ u. persist_versions now joined >>= shown in
      let (permitted, w1, e1, h1) =
        bind_ok (apply_initial_permissions g d.initial_permissions)
          (λ permitted. apply_initial_members permitted d.initial_members >>= finish) w h in
      let (t1, n1) =
        apply_initial_permissions-Keeps g d.initial_permissions m0 w w1 permitted
          (subst (λ n. AllText E (group_resource n) d.initial_permissions) (sym named) tp) tracked
          e1 in
      let (joined, w2, e2, h2) =
        bind_ok (apply_initial_members permitted d.initial_members) finish w1 h1 in
      let (t2, n2) =
        apply_initial_members-Keeps permitted d.initial_members m0 w1 w2 joined
          (subst (λ n. AllMembersText E (group_resource n) d.initial_members) (sym (n1 ∙ named)) tm)
          t1 e2 in
      let (u, w3, e3, h3) =
        bind_ok (wire_initial_managers joined managers) (λ u. persist_versions now joined >>= shown)
          w2 h2 in
      let t3 =
        wire_initial_managers-Keeps joined managers
          (subst (λ n. All (ManagesInText E n) managers) (sym (n2 ∙ n1 ∙ named)) tw) m0 w2 w3 u t2
          e3 in
      let (g', w4, e4, h4) = bind_ok (persist_versions now joined) shown w3 h3 in
      subst (IsTracked m0) (ap (λ p. p.1) h4) (persist_versions-Keeps now joined m0 w3 w4 g' t3 e4)

  create_group_tx-Keeps :
      (now : ℕ) (d : CreateData) (m0 : E.Model) (w w' : World E)
      (a : Group × List Bytes × List Permission)
      → CreatesText E w d
      → IsTracked m0 w
      → create_group_tx skip_permissions actor now d w ≡ (ok a, w')
      → IsTracked m0 w'
  unfolding create_group_tx authorize_create
  create_group_tx-Keeps now d m0 w w' a (tp, tm, tw) tracked h =
      let persist : Run (World E) Group = persist_entity now d in
      let (gs, w1, e1, h1) =
        bind_ok (authorize_create skip_permissions actor d)
          (λ managers. persist >>= set_up skip_permissions actor now d managers) w h in
      let (held, managed, same) = authorize_create_ok E skip_permissions actor d w w1 gs e1 in
      let (u, v, first, read) =
        bind_ok
          (λ w. lift (all_held (has E skip_permissions w.model actor) d.initial_permissions) w)
          (λ u.
            authorize_managers skip_permissions actor d.initial_permissions
              d.initial_manager_group_names)
          w e1 in
      let stay : w ≡ v = ap (λ p. p.1) first in
      let (g, w2, e2, h2) = bind_ok persist (set_up skip_permissions actor now d gs) w1 h1 in
      let (t1, named) =
        persist_entity-Keeps now d m0 w1 w2 g (subst (IsTracked m0) same tracked) e2 in
      set_up-Keeps now d gs g m0 w2 w' a named tp tm
        (managers_found (ManagesInText E d.name) d.initial_permissions d.initial_manager_group_names
          w w1 gs tw
          (subst
            (λ v.
              authorize_managers skip_permissions actor d.initial_permissions
                d.initial_manager_group_names v
              ≡ (ok gs, w1))
            (sym stay) read))
        t1 h2

  -- Where the rules of a creation are text that encoding/json writes as it is, and the rules in memory
  -- are those in the bucket, they are so again after a Create of a group that succeeds.
  pub create_group-Agrees :
      (ctx : Ctx) (d : CreateData) (w w' : World E) (a : Group × List Bytes × List Permission)
      → CreatesText E (record w { ops = [] }) d
      → Agrees E w.model w.policies
      → create_group skip_permissions actor ctx d w ≡ (ok a, w')
      → Agrees E w'.model w'.policies
  unfolding create_group apply_ops_to_cache
  create_group-Agrees ctx d w w' a text agrees h =
      let body : Ctx → Run (World E) (Group × List Bytes × List Permission) =
        λ tx. create_group_tx skip_permissions actor tx.now d in
      let (c, w1, m, now, ran, applied, same) = write_tx_ok ctx body w w' a h in
      let begun : IsTracked w.model (record w { ops = [] }) = (
        refl,
        λ m e. let is_m : w.model ≡ m = cc e in subst (λ m. Agrees E m w.policies) is_m agrees,
      ) in
      let (model, tracked) =
        create_group_tx-Keeps c.now d w.model (record w { ops = [] }) w1 a text begun ran in
      subst (λ v. Agrees E v.model v.policies) (sym same)
        (tracked m (subst (λ n. apply_ops_to_cache E w1.ops n ≡ some m) model applied))
