-- ===== src/Tests/Engine.antt =====
-- A small policy engine in memory: the interface `Engine` can be met.
use elara.Prelude.{
  ℕ, zero, suc, Bytes, not, ◌≡◌, refl, sym, ap, ap₂, ◌∙◌, Bool, true, false, ◌&&◌, ◌||◌, Option,
  none, some, List, [], ◌∷◌, map, length, arith, Bool-cases, inl, inr, if◌then◌else◌, ◌==◌,
}
use elara.Storage.Bolt.Memory.{memory}
use elara.Storage.Memory.{write_text, read_text, split-append, split}
use elara.Authz.Engine.{Engine, Group, Rule, rule_eq, rule_eq_iff, has_rule, starts_with, points_at}

pub record Rules : Type 0 where
  pub permissions : List Rule
  pub roles : List Rule

-- The rules that do not pass a test.
unfoldable pub without : (Rule → Bool) → List Rule → List Rule
without test [] = []
without test (r ∷ rules) = let rest = without test rules in if test r then rest else r ∷ rest

pub rule_eq_sym : (r s : Rule) → rule_eq r s ≡ rule_eq s r
rule_eq_sym r s = elim (Bool-cases (rule_eq r s)) [
  | inl e ↦ let same : r ≡ s = (rule_eq_iff r s).0 e in ap₂ rule_eq same (sym same)
  | inr e ↦ elim (Bool-cases (rule_eq s r)) [
    | inr e' ↦ e ∙ sym e'
    | inl e' ↦
        let same : s ≡ r = (rule_eq_iff s r).0 e' in absurd (cc (e, (rule_eq_iff r s).1 (sym same)))
  ]
]

pub has_rule-without :
    (test : Rule → Bool) (q : Rule) (rules : List Rule)
    → has_rule q (without test rules) ≡ (not (test q) && has_rule q rules)
unfolding without
has_rule-without test q [] = ground arith
has_rule-without test q (r ∷ rules) = elim (Bool-cases (rule_eq q r)) [
  | inl e ↦
      let same : test q ≡ test r = ap test ((rule_eq_iff q r).0 e) in
      ground (arith, same, e, has_rule-without test q rules)
  | inr e ↦ ground (arith, e, has_rule-without test q rules)
]

pub added :
    (r q : Rule) (rules : List Rule) → has_rule q (r ∷ rules) ≡ (rule_eq r q || has_rule q rules)
added r q rules = ap (λ b. b || has_rule q rules) (rule_eq_sym q r)

unfoldable pub write_parts : List Bytes → Bytes
write_parts [] = []
write_parts (p ∷ ps) = write_text p (write_parts ps)

abbrev joined : Bytes → Option (List Bytes) → Option (List Bytes)
joined p none = none
joined p (some ps) = some (p ∷ ps)

unfoldable pub read_parts : ℕ → Bytes → Option (List Bytes)
unfolding split
read_parts zero b = some []
read_parts (suc n) b = elim (read_text b) [
  | none ↦ none
  | some (p, rest) ↦ joined p (read_parts n rest)
]

pub read-write_parts : (ps : List Bytes) → read_parts (length ps) (write_parts ps) ≡ some ps
unfolding read_parts write_parts
read-write_parts [] = refl
read-write_parts (p ∷ ps) =
    ap
      (λ r. elim r as (λ x. Option (List Bytes)) [
        | none ↦ none
        | some (q, rest) ↦ joined q (read_parts (length ps) rest)
      ])
      (split-append p (write_parts ps))
    ∙ ap (joined p) (read-write_parts ps)

abbrev pub decode_parts : Bytes → Option (List Bytes)
decode_parts [] = none
decode_parts (n ∷ b) = read_parts n b

pub value_of : {A : Type 0} {a b : A} → ◌≡◌ {A = Option A} (some a) (some b) → a ≡ b
value_of h = cc h

pub map-id : (l : List Bytes) → map (λ s. s) l ≡ l
map-id [] = refl
map-id (x ∷ l) = ap (λ r. x ∷ r) (map-id l)

abbrev write_flag : Bool → ℕ
write_flag true = 1
write_flag false = 0

unfoldable pub write_group : Group → Bytes
write_group g = write_text g.name (
    write_text g.display_name (
      write_text g.description (
        write_flag g.system
        ∷ g.metadata_version
        ∷ g.members_version
        ∷ g.permissions_version
        ∷ g.created_at
        ∷ g.updated_at
        ∷ [])))

abbrev counters : Bytes → Bytes → Bytes → Bytes → Option Group
counters name display description (s ∷ a ∷ b ∷ c ∷ t ∷ u ∷ []) = some (record {
  name = name;
  display_name = display;
  description = description;
  system = s == 1;
  metadata_version = a;
  members_version = b;
  permissions_version = c;
  created_at = t;
  updated_at = u;
})
counters name display description _ = none

abbrev third : Bytes → Bytes → Option (Bytes × Bytes) → Option Group
third name display none = none
third name display (some (description, rest)) = counters name display description rest

abbrev second : Bytes → Option (Bytes × Bytes) → Option Group
second name none = none
second name (some (display, rest)) = third name display (read_text rest)

abbrev first : Option (Bytes × Bytes) → Option Group
first none = none
first (some (name, rest)) = second name (read_text rest)

unfoldable pub read_group : Bytes → Option Group
unfolding split
read_group b = first (read_text b)

abbrev pub engine : Engine
engine = record {
  bolt = memory;
  encode_rule = λ parts. length parts ∷ write_parts parts;
  decode_rule = decode_parts;
  utf8 = λ s. s;
  decode-encode_rule = λ parts. read-write_parts parts ∙ ap some (sym (map-id parts));
  utf8-p = refl;
  utf8-g = refl;
  encode_group = write_group;
  decode_group = read_group;
  Model = Rules;
  policy = λ m. m.permissions;
  grouping = λ m. m.roles;
  add_policy = λ m r. some (record m { permissions = r ∷ m.permissions });
  remove_policy = λ m r. some (record m { permissions = without (rule_eq r) m.permissions });
  add_grouping = λ m r. some (record m { roles = r ∷ m.roles });
  remove_grouping = λ m r. some (record m { roles = without (rule_eq r) m.roles });
  delete_user = λ m user. some (record {
    permissions = without (starts_with user) m.permissions;
    roles = without (starts_with user) m.roles;
  });
  delete_role = λ m role. some (record m { roles = without (points_at role) m.roles });
  load = λ rules. none;
  enforce = λ m subject on object action.
      some (has_rule (subject ∷ on ∷ object ∷ action ∷ []) m.permissions);
  implicit_permissions = λ m user. some m.permissions;
  roles_for_user = λ m user on. some [];
  policy-add_policy =
      λ m m' r q h. ap (λ n. has_rule q n.permissions) (sym (value_of h)) ∙ added r q m.permissions;
  grouping-add_policy = λ m m' r q h. ap (λ n. has_rule q n.roles) (sym (value_of h));
  policy-remove_policy = λ m m' r q h.
      ap (λ n. has_rule q n.permissions) (sym (value_of h))
      ∙ has_rule-without (rule_eq r) q m.permissions;
  grouping-remove_policy = λ m m' r q h. ap (λ n. has_rule q n.roles) (sym (value_of h));
  policy-add_grouping = λ m m' r q h. ap (λ n. has_rule q n.permissions) (sym (value_of h));
  grouping-add_grouping =
      λ m m' r q h. ap (λ n. has_rule q n.roles) (sym (value_of h)) ∙ added r q m.roles;
  policy-remove_grouping = λ m m' r q h. ap (λ n. has_rule q n.permissions) (sym (value_of h));
  grouping-remove_grouping = λ m m' r q h.
      ap (λ n. has_rule q n.roles) (sym (value_of h)) ∙ has_rule-without (rule_eq r) q m.roles;
  policy-delete_user = λ m m' user q h.
      ap (λ n. has_rule q n.permissions) (sym (value_of h))
      ∙ has_rule-without (starts_with user) q m.permissions;
  policy-delete_role = λ m m' role q h. ap (λ n. has_rule q n.permissions) (sym (value_of h));
}
