-- ===== src/Authz/Members.antt =====
-- internal/service/authz/pap_tx.go: a change of members records what it does to the bucket.
use elara.Prelude.{Bytes, ap, subst, List, [], ◌∷◌, All}
use elara.Storage.Tx.{bind_ok}
use elara.Authz.Rbac.{group_resource, membership_domain}
use elara.Authz.Engine.{Engine}
use elara.Authz.Enforcer.{tx_add_role_for_user, tx_remove_role_for_user}
use elara.Authz.Points.{add_members, remove_members, apply_member_deltas}
use elara.Authz.Agreement.{IsText}
use elara.Authz.Tracked.{IsTracked, Keeps, add_role-Keeps, remove_role-Keeps}

-- Rules of members that encoding/json writes as they are.
abbrev pub AllMembersText : Engine → Bytes → List Bytes → Type 0
AllMembersText E subject users = All (λ u. IsText E (u ∷ subject ∷ membership_domain ∷ [])) users

module _ {E : Engine} where
  add_members-Keeps :
      (subject : Bytes) (users : List Bytes)
      → AllMembersText E subject users
      → Keeps (add_members {E = E} subject users)
  unfolding add_members
  add_members-Keeps subject [] t m0 w w' a tracked h =
      subst (IsTracked m0) (ap (λ p. p.1) h) tracked
  add_members-Keeps subject (user ∷ users) (t, ts) m0 w w' a tracked h =
      let rule = user ∷ subject ∷ membership_domain ∷ [] in
      let (u, w1, e1, h1) =
        bind_ok (tx_add_role_for_user rule) (λ u. add_members subject users) w h in
      add_members-Keeps subject users ts m0 w1 w' a (add_role-Keeps rule t m0 w w1 u tracked e1) h1

  remove_members-Keeps :
      (subject : Bytes) (users : List Bytes)
      → AllMembersText E subject users
      → Keeps (remove_members {E = E} subject users)
  unfolding remove_members
  remove_members-Keeps subject [] t m0 w w' a tracked h =
      subst (IsTracked m0) (ap (λ p. p.1) h) tracked
  remove_members-Keeps subject (user ∷ users) (t, ts) m0 w w' a tracked h =
      let rule = user ∷ subject ∷ membership_domain ∷ [] in
      let (u, w1, e1, h1) =
        bind_ok (tx_remove_role_for_user rule) (λ u. remove_members subject users) w h in
      remove_members-Keeps subject users ts m0 w1 w' a
        (remove_role-Keeps rule t m0 w w1 u tracked e1) h1

  pub apply_member_deltas-Keeps :
      (name : Bytes) (added removed : List Bytes)
      → AllMembersText E (group_resource name) added
      → AllMembersText E (group_resource name) removed
      → Keeps (apply_member_deltas {E = E} name added removed)
  unfolding apply_member_deltas
  apply_member_deltas-Keeps name added removed ta tr m0 w w' a tracked h =
      let subject = group_resource name in
      let (u, w1, e1, h1) =
        bind_ok (remove_members subject removed) (λ u. add_members subject added) w h in
      add_members-Keeps subject added ta m0 w1 w' a
        (remove_members-Keeps subject removed tr m0 w w1 u tracked e1) h1
