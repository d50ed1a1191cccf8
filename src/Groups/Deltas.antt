-- ===== src/Groups/Deltas.antt =====
-- internal/usecase/group/service_update.go: the effective change of a list of permissions, written
-- apart from internal/util/sliceutil.
use elara.Prelude.{
  ◌≡◌, refl, ap, ◌∙◌, not, Bool, List, [], ◌∷◌, ◌++◌, any, if◌then◌else◌, Bool-cases, inl, inr,
}
use elara.SliceUtil.{not_in, in_set, compose_post}
use elara.Authz.Rbac.{Permission, permission_eq}

abbrev listed : List Permission → Permission → Bool
listed ps p = any (permission_eq p) ps

abbrev select : (Permission → Bool) → List Permission → List Permission
select test [] = []
select test (p ∷ ps) = let rest = select test ps in if test p then p ∷ rest else rest

-- Those that are not there yet.
abbrev pub new_to : List Permission → List Permission → List Permission
new_to current add = select (λ p. not (listed current p)) add

-- Those that are there.
abbrev pub held_of : List Permission → List Permission → List Permission
held_of current remove = select (listed current) remove

-- What is there without what is removed, and then what is new.
abbrev pub changed : List Permission → List Permission → List Permission → List Permission
changed current add remove =
    select (λ p. not (listed (held_of current remove) p)) current ++ new_to current add

pub not_in-new_to :
    (add current : List Permission) → not_in permission_eq add current ≡ new_to current add
unfolding not_in
not_in-new_to [] current = refl
not_in-new_to (p ∷ ps) current = elim (Bool-cases (listed current p)) [
  | inl e ↦ rw e (not_in-new_to ps current)
  | inr e ↦ rw e (ap (λ l. p ∷ l) (not_in-new_to ps current))
]

pub in_set-held_of :
    (remove current : List Permission)
    → in_set permission_eq remove current ≡ held_of current remove
unfolding in_set
in_set-held_of [] current = refl
in_set-held_of (p ∷ ps) current = elim (Bool-cases (listed current p)) [
  | inl e ↦ rw e (ap (λ l. p ∷ l) (in_set-held_of ps current))
  | inr e ↦ rw e (in_set-held_of ps current)
]

pub compose_post-changed :
    (current add remove : List Permission)
    → compose_post permission_eq current
        (not_in permission_eq add current)
        (in_set permission_eq remove current)
      ≡ changed current add remove
unfolding compose_post
compose_post-changed current add remove =
    ap (λ l. not_in permission_eq current l ++ not_in permission_eq add current)
      (in_set-held_of remove current)
    ∙ ap (λ l. l ++ not_in permission_eq add current)
        (not_in-new_to current (held_of current remove))
    ∙ ap (λ l. select (λ p. not (listed (held_of current remove) p)) current ++ l)
        (not_in-new_to add current)
