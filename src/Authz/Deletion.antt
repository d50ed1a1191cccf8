-- ===== src/Authz/Deletion.antt =====
-- internal/service/auth/casbin/tx_enforcer.go: DeleteUser, of a group, leaves its permissions in the bucket.
use elara.Prelude.{
  ℕ, Bytes, bytes_eq, bytes_eq_iff, not, ◌≡◌, refl, sym, ap, ◌∙◌, false, ◌&&◌, none, some, [], ◌∷◌,
  ◌++◌, arith, Bool-cases, Option-cases, inl, inr,
}
use elara.Prelude.Outcome.{ok}
use elara.Storage.Bolt.Pairs.{Pairs}
use elara.Authz.Engine.{Engine, Rule, has_rule, starts_with}
use elara.Authz.Policies.{rule_key, delete_matching, fields_of, hit}
use elara.Authz.Enforcer.{
  World, sec_p, sec_g, op_delete_user, delete_filtered, tx_delete_user, apply_op,
}
use elara.Authz.Agreement.{IsText, decoded_key}

-- A key of a permission is none of a grouping rule.
p_fields : (r : Rule) → fields_of sec_g (some (sec_p ∷ sec_p ∷ r)) ≡ none
unfolding fields_of bytes_eq
p_fields [] = refl
p_fields (x ∷ r) = refl

module _ (E : Engine) where
  -- Filtered removal of grouping rules deletes no permission.
  delete_matching-p :
      (index : ℕ) (value : Bytes) (q : Rule) (b : E.Bucket) (l : Pairs)
      → IsText E q
      → E.get (delete_matching E sec_g index value b l) (rule_key E sec_p q)
        ≡ E.get b (rule_key E sec_p q)
  unfolding delete_matching
  delete_matching-p index value q b [] t = refl
  delete_matching-p index value q b ((k, v) ∷ l) t =
      elim (Bool-cases (bytes_eq k (rule_key E sec_p q))) [
        | inl same ↦
            let e : k ≡ rule_key E sec_p q = (bytes_eq_iff k (rule_key E sec_p q)).0 same in
            let decoded : E.decode_rule k ≡ some (sec_p ∷ sec_p ∷ q) =
              ap E.decode_rule e ∙ decoded_key E sec_p q E.utf8-p t in
            let missed : hit index value (fields_of sec_g (E.decode_rule k)) ≡ false =
              ap (λ d. hit index value (fields_of sec_g d)) decoded
              ∙ ap (hit index value) (p_fields q) in
            ground (arith, missed, delete_matching-p index value q b l t)
        | inr other ↦ elim (Bool-cases (hit index value (fields_of sec_g (E.decode_rule k)))) [
          | inl hits ↦ ground (
            arith,
            hits,
            delete_matching-p index value q (E.delete b k) l t,
            E.get-delete b k (rule_key E sec_p q),
            other,
          )
          | inr misses ↦ ground (arith, misses, delete_matching-p index value q b l t)
        ]
      ]

  -- DeleteUser leaves every permission in the bucket.
  pub tx_delete_user_keeps :
      (user : Bytes) (q : Rule) (w w' : World E) (a : Unit)
      → IsText E q
      → tx_delete_user user w ≡ (ok a, w')
      → (E.get w'.policies (rule_key E sec_p q) ≡ E.get w.policies (rule_key E sec_p q))
        × (w'.ops ≡ w.ops ++ op_delete_user user ∷ [])
        × (w'.model ≡ w.model)
  unfolding tx_delete_user delete_filtered
  tx_delete_user_keeps user q w w' a t h =
      let same = sym (ap (λ p. p.1) h) in
      let once = delete_matching E sec_g 0 user w.policies (E.seek w.policies []) in
      (
        ap (λ v. E.get v.policies (rule_key E sec_p q)) same
            ∙ delete_matching-p 1 user q once (E.seek once []) t
            ∙ delete_matching-p 0 user q w.policies (E.seek w.policies []) t,
        ap (λ v. v.ops) same,
        ap (λ v. v.model) same,
      )

  -- In memory, the permissions of which the user is the subject are gone.
  pub apply_op-delete_user :
      (user : Bytes) (q : Rule) (m m' : E.Model)
      → apply_op E (op_delete_user user) m ≡ some m'
      → has_rule q (E.policy m') ≡ (not (starts_with user q) && has_rule q (E.policy m))
  unfolding apply_op
  apply_op-delete_user user q m m' h = elim (Option-cases (E.delete_user m user)) [
    | inl failed ↦ absurd (ground arith)
    | inr (m1, e) ↦
        let second : E.delete_role m1 user ≡ some m' = ground arith in
        E.policy-delete_role m1 m' user q second ∙ E.policy-delete_user m m1 user q e
  ]
