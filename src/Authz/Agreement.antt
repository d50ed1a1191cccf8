-- ===== src/Authz/Agreement.antt =====
-- internal/service/auth/casbin: the model in memory agrees with the rules in the bucket.
use elara.Prelude.{
  Bytes, bytes_eq, bytes_eq_iff, ◌≡◌, ◌≢◌, sym, ap, ap₂, ◌∙◌, Bool, true, false, Option, none, some,
  List, [], ◌∷◌, map, arith, Bool-cases, inl, inr,
}
use elara.Authz.Engine.{Engine, Rule, rule_eq, rule_eq_iff, has_rule}
use elara.Authz.Policies.{rule_key}
use elara.Authz.Enforcer.{
  Op, op_add_p, op_remove_p, op_add_g, op_remove_g, op_delete_user, sec_p, sec_g, apply_op,
}

abbrev pub is_some : {A : Type 0} → Option A → Bool
is_some none = false
is_some (some a) = true

abbrev front : List Bytes → Bytes
front [] = []
front (x ∷ l) = x

sections_pg : sec_p ≢ sec_g
unfolding bytes_eq
sections_pg h = let apart : true ≡ false = ap (bytes_eq sec_p) h in cc apart

sections_gp : sec_g ≢ sec_p
sections_gp h = sections_pg (sym h)

module _ (E : Engine) where
  -- A rule that encoding/json writes as it is.
  abbrev pub IsText : Rule → Type 0
  IsText rule = map E.utf8 rule ≡ rule

  some_eq : {A : Type 0} {a b : A} → ◌≡◌ {A = Option A} (some a) (some b) → a ≡ b
  some_eq h = cc h

  pub decoded_key :
      (sec : Bytes) (r : Rule)
      → E.utf8 sec ≡ sec
      → IsText r
      → E.decode_rule (rule_key E sec r) ≡ some (sec ∷ sec ∷ r)
  unfolding rule_key
  decoded_key sec r s t =
      E.decode-encode_rule (sec ∷ sec ∷ r) ∙ ap some (ap₂ (λ a b. a ∷ a ∷ b) s t)

  key_injective :
      (sec sec' : Bytes) (r q : Rule)
      → E.utf8 sec ≡ sec
      → E.utf8 sec' ≡ sec'
      → IsText r
      → IsText q
      → rule_key E sec r ≡ rule_key E sec' q
      → sec ∷ sec ∷ r ≡ sec' ∷ sec' ∷ q
  key_injective sec sec' r q s s' t t' h =
      some_eq (sym (decoded_key sec r s t) ∙ ap E.decode_rule h ∙ decoded_key sec' q s' t')

  -- Keys of one section are those of different rules.
  pub key_eq :
      (sec : Bytes) (r q : Rule)
      → E.utf8 sec ≡ sec
      → IsText r
      → IsText q
      → bytes_eq (rule_key E sec r) (rule_key E sec q) ≡ rule_eq r q
  key_eq sec r q s t t' = elim (Bool-cases (rule_eq r q)) [
    | inl same ↦
        let e : r ≡ q = (rule_eq_iff r q).0 same in
        (bytes_eq_iff (rule_key E sec r) (rule_key E sec q)).1 (ap (rule_key E sec) e) ∙ sym same
    | inr other ↦ elim (Bool-cases (bytes_eq (rule_key E sec r) (rule_key E sec q))) [
      | inr apart ↦ apart ∙ sym other
      | inl together ↦
          let h =
            key_injective sec sec r q s s t t'
              ((bytes_eq_iff (rule_key E sec r) (rule_key E sec q)).0 together) in
          let e : r ≡ q = cc h in absurd (cc (other, (rule_eq_iff r q).1 e))
    ]
  ]

  -- Keys of the two sections differ.
  pub key_apart :
      (r q : Rule)
      → IsText r
      → IsText q
      → bytes_eq (rule_key E sec_p r) (rule_key E sec_g q) ≡ false
  key_apart r q t t' = elim (Bool-cases (bytes_eq (rule_key E sec_p r) (rule_key E sec_g q))) [
    | inr apart ↦ apart
    | inl together ↦ absurd (
        sections_pg (
          ap front (
            key_injective sec_p sec_g r q E.utf8-p E.utf8-g t t'
              ((bytes_eq_iff (rule_key E sec_p r) (rule_key E sec_g q)).0 together))))
  ]

  key_apart' :
      (r q : Rule)
      → IsText r
      → IsText q
      → bytes_eq (rule_key E sec_g r) (rule_key E sec_p q) ≡ false
  key_apart' r q t t' = elim (Bool-cases (bytes_eq (rule_key E sec_g r) (rule_key E sec_p q))) [
    | inr apart ↦ apart
    | inl together ↦ absurd (
        sections_gp (
          ap front (
            key_injective sec_g sec_p r q E.utf8-g E.utf8-p t t'
              ((bytes_eq_iff (rule_key E sec_g r) (rule_key E sec_p q)).0 together))))
  ]

  -- The model has the rules that the bucket has.
  abbrev pub Agrees : E.Model → E.Bucket → Type 0
  Agrees m b =
      (q : Rule)
      → IsText q
      → (has_rule q (E.policy m) ≡ is_some (E.get b (rule_key E sec_p q)))
        × (has_rule q (E.grouping m) ≡ is_some (E.get b (rule_key E sec_g q)))

  -- What a recorded mutation has done to the bucket.
  abbrev pub on_bucket : Op → E.Bucket → E.Bucket
  on_bucket (op_add_p r) b = E.put b (rule_key E sec_p r) []
  on_bucket (op_remove_p r) b = E.delete b (rule_key E sec_p r)
  on_bucket (op_add_g r) b = E.put b (rule_key E sec_g r) []
  on_bucket (op_remove_g r) b = E.delete b (rule_key E sec_g r)
  on_bucket (op_delete_user user) b = b

  -- A mutation of one rule, which is text.
  abbrev pub IsRuleOp : Op → Type 0
  IsRuleOp (op_add_p r) = IsText r
  IsRuleOp (op_remove_p r) = IsText r
  IsRuleOp (op_add_g r) = IsText r
  IsRuleOp (op_remove_g r) = IsText r
  IsRuleOp (op_delete_user user) = ⊥

  pub apply_op-Agrees :
      (o : Op) (m m' : E.Model) (b : E.Bucket)
      → IsRuleOp o
      → Agrees m b
      → apply_op E o m ≡ some m'
      → Agrees m' (on_bucket o b)
  unfolding apply_op
  apply_op-Agrees (op_add_p r) m m' b t agrees h q tq =
      let (p, g) = agrees q tq in
      (
        ground (
          arith,
          p,
          E.policy-add_policy m m' r q h,
          E.get-put b (rule_key E sec_p r) [] (rule_key E sec_p q),
          key_eq sec_p r q E.utf8-p t tq,
        ),
        ground (
          arith,
          g,
          E.grouping-add_policy m m' r q h,
          E.get-put b (rule_key E sec_p r) [] (rule_key E sec_g q),
          key_apart r q t tq,
        ),
      )
  apply_op-Agrees (op_remove_p r) m m' b t agrees h q tq =
      let (p, g) = agrees q tq in
      (
        ground (
          arith,
          p,
          E.policy-remove_policy m m' r q h,
          E.get-delete b (rule_key E sec_p r) (rule_key E sec_p q),
          key_eq sec_p r q E.utf8-p t tq,
        ),
        ground (
          arith,
          g,
          E.grouping-remove_policy m m' r q h,
          E.get-delete b (rule_key E sec_p r) (rule_key E sec_g q),
          key_apart r q t tq,
        ),
      )
  apply_op-Agrees (op_add_g r) m m' b t agrees h q tq =
      let (p, g) = agrees q tq in
      (
        ground (
          arith,
          p,
          E.policy-add_grouping m m' r q h,
          E.get-put b (rule_key E sec_g r) [] (rule_key E sec_p q),
          key_apart' r q t tq,
        ),
        ground (
          arith,
          g,
          E.grouping-add_grouping m m' r q h,
          E.get-put b (rule_key E sec_g r) [] (rule_key E sec_g q),
          key_eq sec_g r q E.utf8-g t tq,
        ),
      )
  apply_op-Agrees (op_remove_g r) m m' b t agrees h q tq =
      let (p, g) = agrees q tq in
      (
        ground (
          arith,
          p,
          E.policy-remove_grouping m m' r q h,
          E.get-delete b (rule_key E sec_g r) (rule_key E sec_p q),
          key_apart' r q t tq,
        ),
        ground (
          arith,
          g,
          E.grouping-remove_grouping m m' r q h,
          E.get-delete b (rule_key E sec_g r) (rule_key E sec_g q),
          key_eq sec_g r q E.utf8-g t tq,
        ),
      )
  apply_op-Agrees (op_delete_user user) m m' b t agrees h q tq = absurd t
