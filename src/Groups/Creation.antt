-- ===== src/Groups/Creation.antt =====
-- internal/usecase/group/service_create.go: what the creation of a group has made sure of.
use elara.Prelude.{
  ◌≡◌, sym, ap, ◌∙◌, subst, Bytes, Bool, true, List, [], ◌∷◌, All, arith, Bool-cases, inl, inr, ℕ,
  Option-cases,
}
use elara.Prelude.Outcome.{ok, err}
use elara.Domain.Failure.{resource_not_found}
use elara.Storage.Tx.{Run, Ctx, ◌>>=◌, pure, bind_ok}
use elara.ConfigStore.Read.Cache.{Outcome-cases}
use elara.Authz.Rbac.{Permission, action_write}
use elara.Authz.Engine.{Engine, Group}
use elara.Authz.Enforcer.{World}
use elara.Authz.Points.{has, has_group, has_for_group, all_held}
use elara.Authz.Synced.{write_tx_ok}
use elara.Groups.Store.{get_group}
use elara.Groups.Create.{
  CreateData, new_group, validate_group, persist_entity, authorize_manager, authorize_managers,
  authorize_create, set_up, create_group_tx, create_group,
}
use elara.Groups.Checks.{Holds, all_held_ok}

module _ (E : Engine) (skip_permissions : Bool) (actor : Bytes) where
  -- The group exists, the actor may write it, and it holds all these permissions itself.
  pub record IsManager (w : World E) (perms : List Permission) (name : Bytes) : Type 0 where
    pub group : Group
    pub found : get_group name w ≡ (ok group, w)
    pub writable : has_group E skip_permissions w.model actor name action_write ≡ true
    pub dominates : All (λ p. has_for_group E skip_permissions w.model group.name p ≡ true) perms

  -- What a creation has made sure of: the actor holds the initial permissions, each manager dominates
  -- them, and the group is valid and its name was free.
  pub record IsFounded (w : World E) (now : ℕ) (d : CreateData) : Type 0 where
    pub held : Holds E skip_permissions actor w.model d.initial_permissions
    pub managed : All (IsManager w d.initial_permissions) d.initial_manager_group_names
    pub free : get_group d.name w ≡ (err resource_not_found, w)
    pub valid : validate_group (new_group now d) ≡ ok tt

  pub authorize_manager_ok :
      (perms : List Permission) (name : Bytes) (w w' : World E) (g : Group)
      → authorize_manager skip_permissions actor perms name w ≡ (ok g, w')
      → IsManager w perms name × (w ≡ w') × (get_group name w ≡ (ok g, w))
  unfolding authorize_manager get_group
  authorize_manager_ok perms name w w' g h =
      elim (Bool-cases (has_group E skip_permissions w.model actor name action_write)) [
        | inr refused ↦ absurd (ground arith)
        | inl may ↦ elim (Option-cases (E.get w.groups name)) [
          | inl gone ↦ absurd (ground arith)
          | inr (b, at) ↦ elim (Option-cases (E.decode_group b)) [
            | inl broken ↦ absurd (ground arith)
            | inr (row, decodes) ↦
                let checks = all_held (has_for_group E skip_permissions w.model row.name) perms in
                elim (Outcome-cases checks) [
                  | inr (e, refused) ↦ absurd (ground arith)
                  | inl (u, passed) ↦ (
                    record {
                      group = row;
                      found = ground arith;
                      writable = may;
                      dominates =
                          all_held_ok (has_for_group E skip_permissions w.model row.name) perms
                            passed;
                    },
                    ground arith,
                    ground arith,
                  )
                ]
          ]
        ]
      ]

  authorize_managers_ok :
      (perms : List Permission) (names : List Bytes) (w w' : World E) (gs : List Group)
      → authorize_managers skip_permissions actor perms names w ≡ (ok gs, w')
      → All (IsManager w perms) names × (w ≡ w')
  unfolding authorize_managers
  authorize_managers_ok perms [] w w' gs h = (tt, ap (λ p. p.1) h)
  authorize_managers_ok perms (name ∷ names) w w' gs h =
      let rest = authorize_managers skip_permissions actor perms names in
      let (mg, w1, e1, h1) =
        bind_ok (authorize_manager skip_permissions actor perms name)
          (λ mg. rest >>= λ managers. pure (mg ∷ managers)) w h in
      let (manager, s1, at) = authorize_manager_ok perms name w w1 mg e1 in
      let (mgs, w2, e2, h2) = bind_ok rest (λ managers. pure (mg ∷ managers)) w1 h1 in
      let (managers, s2) = authorize_managers_ok perms names w1 w2 mgs e2 in
      (
        (manager, subst (λ v. All (IsManager v perms) names) (sym s1) managers),
        s1 ∙ s2 ∙ ap (λ p. p.1) h2,
      )

  pub authorize_create_ok :
      (d : CreateData) (w w' : World E) (gs : List Group)
      → authorize_create skip_permissions actor d w ≡ (ok gs, w')
      → Holds E skip_permissions actor w.model d.initial_permissions
        × All (IsManager w d.initial_permissions) d.initial_manager_group_names
        × (w ≡ w')
  unfolding authorize_create
  authorize_create_ok d w w' gs h =
      let checks = all_held (has E skip_permissions w.model actor) d.initial_permissions in
      elim (Outcome-cases checks) [
        | inr (e, refused) ↦ absurd (ground arith)
        | inl (u, passed) ↦
            let (managed, same) =
              authorize_managers_ok d.initial_permissions d.initial_manager_group_names w w' gs
                (ground arith) in
            (
              all_held_ok (has E skip_permissions w.model actor) d.initial_permissions passed,
              managed,
              same,
            )
      ]

  persist_entity_ok :
      (now : ℕ) (d : CreateData) (w w' : World E) (g : Group)
      → persist_entity now d w ≡ (ok g, w')
      → (get_group d.name w ≡ (err resource_not_found, w))
        × (validate_group (new_group now d) ≡ ok tt)
  unfolding persist_entity get_group
  persist_entity_ok now d w w' g h = elim (Option-cases (E.get w.groups d.name)) [
    | inl gone ↦ elim (Outcome-cases (validate_group (new_group now d))) [
      | inr (e, refused) ↦ absurd (ground arith)
      | inl (u, passed) ↦ (ground arith, ground arith)
    ]
    | inr (b, at) ↦ elim (Option-cases (E.decode_group b)) [
      | inl broken ↦ absurd (ground arith)
      | inr (row, decodes) ↦ absurd (ground arith)
    ]
  ]

  create_group_tx_ok :
      (now : ℕ) (d : CreateData) (w w' : World E) (r : Group × List Bytes × List Permission)
      → create_group_tx skip_permissions actor now d w ≡ (ok r, w')
      → IsFounded w now d
  unfolding create_group_tx
  create_group_tx_ok now d w w' r h =
      let persist : Run (World E) Group = persist_entity now d in
      let (gs, w1, e1, h1) =
        bind_ok (authorize_create skip_permissions actor d)
          (λ managers. persist >>= set_up skip_permissions actor now d managers) w h in
      let (held, managed, same) = authorize_create_ok d w w1 gs e1 in
      let (g, w2, e2, h2) = bind_ok persist (set_up skip_permissions actor now d gs) w1 h1 in
      let (free, valid) = persist_entity_ok now d w1 w2 g e2 in
      record {
        held = held;
        managed = managed;
        free = subst (λ v. get_group d.name v ≡ (err resource_not_found, v)) (sym same) free;
        valid = valid;
      }

  -- Where a Create of a group succeeds, the actor holds every initial permission; each manager group
  -- exists, the actor may write it, and it holds every initial permission itself; the group is valid;
  -- and no group had its name.
  pub create_group_no_escalation :
      (ctx : Ctx) (d : CreateData) (w w' : World E) (r : Group × List Bytes × List Permission)
      → create_group skip_permissions actor ctx d w ≡ (ok r, w')
      → IsFounded (record w { ops = [] }) ctx.now d
  unfolding create_group
  create_group_no_escalation ctx d w w' r h =
      let body : Ctx → Run (World E) (Group × List Bytes × List Permission) =
        λ tx. create_group_tx skip_permissions actor tx.now d in
      let (c, w1, m, now, ran, applied, same) = write_tx_ok ctx body w w' r h in
      subst (λ n. IsFounded (record w { ops = [] }) n d) now
        (create_group_tx_ok c.now d (record w { ops = [] }) w1 r ran)
