-- ===== src/Authz/Policies.antt =====
-- internal/storage/bbolt/policy/repository.go: rules as the keys of a bucket.
use elara.Prelude.{
  ℕ, Bytes, codes, bytes_eq, Bool, true, false, ◌&&◌, Option, none, some, List, [], ◌∷◌,
  if◌then◌else◌, get_elem?,
}
use elara.Storage.Bolt.Pairs.{Pairs}
use elara.Authz.Engine.{Engine, Rule}

-- The section of a rule is its type, too.
unfoldable pub rule_key : (E : Engine) → Bytes → Rule → Bytes
rule_key E sec rule = E.encode_rule (sec ∷ sec ∷ rule)

-- A field that is filtered by one value; an empty value matches everything.
unfoldable pub matches_filter : Rule → ℕ → Bytes → Bool
matches_filter fields index [] = true
matches_filter fields index (c ∷ value) = elim (get_elem? fields index) [
  | none ↦ false
  | some field ↦ bytes_eq field (c ∷ value)
]

-- The fields of the rule of a key, when it is of this section and type.
unfoldable pub fields_of : Bytes → Option (List Bytes) → Option Rule
fields_of sec none = none
fields_of sec (some []) = none
fields_of sec (some (s ∷ [])) = none
fields_of sec (some (s ∷ ptype ∷ [])) = none
fields_of sec (some (s ∷ ptype ∷ x ∷ fields)) =
    if bytes_eq s sec && bytes_eq ptype sec then some (x ∷ fields) else none

abbrev pub hit : ℕ → Bytes → Option Rule → Bool
hit index value none = false
hit index value (some fields) = matches_filter fields index value

-- What RemoveFilteredPolicyCtx leaves: the keys that its scan has collected are deleted.
unfoldable pub delete_matching : (E : Engine) → Bytes → ℕ → Bytes → E.Bucket → Pairs → E.Bucket
unfolding matches_filter fields_of
delete_matching E sec index value bucket [] = bucket
delete_matching E sec index value bucket ((k, v) ∷ rest) =
    delete_matching E sec index value
      (if hit index value (fields_of sec (E.decode_rule k)) then E.delete bucket k else bucket) rest

abbrev of_subject : Bytes → Option Rule → Bool
of_subject subject none = false
of_subject subject (some []) = false
of_subject subject (some (x ∷ fields)) = bytes_eq x subject

abbrev keep : Bool → Option Rule → List Rule → List Rule
keep false r rules = rules
keep true none rules = rules
keep true (some r) rules = r ∷ rules

-- ListPermissionsForSubject
unfoldable pub rules_for_subject : (E : Engine) → Bytes → Pairs → List Rule
unfolding fields_of
rules_for_subject E subject [] = []
rules_for_subject E subject ((k, v) ∷ rest) =
    keep (of_subject subject (fields_of (codes "p") (E.decode_rule k)))
      (fields_of (codes "p") (E.decode_rule k)) (rules_for_subject E subject rest)

abbrev typed : Option (List Bytes) → List Rule → List Rule
typed none rules = rules
typed (some []) rules = rules
typed (some (s ∷ [])) rules = rules
typed (some (s ∷ ptype ∷ [])) rules = rules
typed (some (s ∷ ptype ∷ x ∷ fields)) rules = (ptype ∷ x ∷ fields) ∷ rules

-- LoadPolicyCtx: the rules of the bucket, each behind its type.
unfoldable pub all_rules : (E : Engine) → Pairs → List Rule
all_rules E [] = []
all_rules E ((k, v) ∷ rest) = typed (E.decode_rule k) (all_rules E rest)
