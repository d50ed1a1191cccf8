-- ===== src/Authz/Engine.antt =====
-- What the administration of rules is given: the key-value library, encoding/json, and casbin, the
-- policy engine, which is not part of the repository: its model of rules in memory, with the
-- behaviour that its documentation gives to the calls.
use elara.Prelude.{
  ℕ, Bytes, codes, bytes_eq, not, ◌≡◌, ◌↔◌, refl, Bool, true, false, ◌&&◌, ◌||◌, Option, some, List,
  [], ◌∷◌, map, any, arith, bytes_eq_iff,
}
use elara.Storage.Bolt.Api.{Bolt}

-- The row of a group, which has the fields of domain.Group.
pub record Group : Type 0 where
  pub name : Bytes
  pub display_name : Bytes
  pub description : Bytes
  pub system : Bool
  pub metadata_version : ℕ
  pub members_version : ℕ
  pub permissions_version : ℕ
  pub created_at : ℕ
  pub updated_at : ℕ

-- The fields of a rule: subject, domain, object and action, or user, role and domain.
abbrev pub Rule : Type 0
Rule = List Bytes

unfoldable pub rule_eq : Rule → Rule → Bool
rule_eq [] [] = true
rule_eq [] (y ∷ s) = false
rule_eq (x ∷ r) [] = false
rule_eq (x ∷ r) (y ∷ s) = let rest = rule_eq r s in bytes_eq x y && rest

pub rule_eq_iff : (r s : Rule) → (rule_eq r s ≡ true) ↔ (r ≡ s)
unfolding rule_eq
rule_eq_iff [] [] = (λ _. refl, λ _. refl)
rule_eq_iff [] (y ∷ s) = (λ h. cc, λ h. cc)
rule_eq_iff (x ∷ r) [] = (λ h. cc, λ h. cc)
rule_eq_iff (x ∷ r) (y ∷ s) = (
  λ h. ground (arith, bytes_eq_iff x y, rule_eq_iff r s),
  λ h. ground (arith, bytes_eq_iff x y, rule_eq_iff r s),
)

abbrev pub has_rule : Rule → List Rule → Bool
has_rule r rules = any (rule_eq r) rules

-- The first field of a rule is this one.
unfoldable pub starts_with : Bytes → Rule → Bool
starts_with subject [] = false
starts_with subject (x ∷ r) = bytes_eq x subject

-- The second field of a rule is this one.
unfoldable pub points_at : Bytes → Rule → Bool
points_at role [] = false
points_at role (x ∷ []) = false
points_at role (x ∷ y ∷ r) = bytes_eq y role

pub record Engine : Type 1 where
  pub bolt : Bolt
  pub open bolt use *
  pub encode_rule : List Bytes → Bytes
  pub decode_rule : Bytes → Option (List Bytes)
  -- What encoding/json makes of a string that is not UTF-8.
  pub utf8 : Bytes → Bytes
  pub decode-encode_rule :
      (parts : List Bytes) → decode_rule (encode_rule parts) ≡ some (map utf8 parts)
  pub utf8-p : utf8 (codes "p") ≡ codes "p"
  pub utf8-g : utf8 (codes "g") ≡ codes "g"
  pub encode_group : Group → Bytes
  pub decode_group : Bytes → Option Group
  -- The model, with GetPolicy and GetGroupingPolicy; `none` is an error of a call.
  pub Model : Type 0
  pub policy : Model → List Rule
  pub grouping : Model → List Rule
  pub add_policy : Model → Rule → Option Model
  pub remove_policy : Model → Rule → Option Model
  pub add_grouping : Model → Rule → Option Model
  pub remove_grouping : Model → Rule → Option Model
  pub delete_user : Model → Bytes → Option Model
  -- RemoveFilteredGroupingPolicy(1, role)
  pub delete_role : Model → Bytes → Option Model
  -- LoadPolicy, of the rules that the adapter reads, each behind its type.
  pub load : List Rule → Option Model
  pub enforce : Model → Bytes → Bytes → Bytes → Bytes → Option Bool
  pub implicit_permissions : Model → Bytes → Option (List Rule)
  pub roles_for_user : Model → Bytes → Bytes → Option (List Bytes)
  pub policy-add_policy :
      (m m' : Model) (r q : Rule)
      → add_policy m r ≡ some m'
      → has_rule q (policy m') ≡ (rule_eq r q || has_rule q (policy m))
  pub grouping-add_policy :
      (m m' : Model) (r q : Rule)
      → add_policy m r ≡ some m'
      → has_rule q (grouping m') ≡ has_rule q (grouping m)
  pub policy-remove_policy :
      (m m' : Model) (r q : Rule)
      → remove_policy m r ≡ some m'
      → has_rule q (policy m') ≡ (not (rule_eq r q) && has_rule q (policy m))
  pub grouping-remove_policy :
      (m m' : Model) (r q : Rule)
      → remove_policy m r ≡ some m'
      → has_rule q (grouping m') ≡ has_rule q (grouping m)
  pub policy-add_grouping :
      (m m' : Model) (r q : Rule)
      → add_grouping m r ≡ some m'
      → has_rule q (policy m') ≡ has_rule q (policy m)
  pub grouping-add_grouping :
      (m m' : Model) (r q : Rule)
      → add_grouping m r ≡ some m'
      → has_rule q (grouping m') ≡ (rule_eq r q || has_rule q (grouping m))
  pub policy-remove_grouping :
      (m m' : Model) (r q : Rule)
      → remove_grouping m r ≡ some m'
      → has_rule q (policy m') ≡ has_rule q (policy m)
  pub grouping-remove_grouping :
      (m m' : Model) (r q : Rule)
      → remove_grouping m r ≡ some m'
      → has_rule q (grouping m') ≡ (not (rule_eq r q) && has_rule q (grouping m))
  -- DeleteUser strips the rules of which the user is the subject.
  pub policy-delete_user :
      (m m' : Model) (user : Bytes) (q : Rule)
      → delete_user m user ≡ some m'
      → has_rule q (policy m') ≡ (not (starts_with user q) && has_rule q (policy m))
  pub policy-delete_role :
      (m m' : Model) (role : Bytes) (q : Rule)
      → delete_role m role ≡ some m'
      → has_rule q (policy m') ≡ has_rule q (policy m)
