-- ===== src/ConfigStore/Read/Cache.antt =====
-- internal/storage/bbolt/config/repository.go: nsLockCache, and runs of scanMeta side by side.
use elara.Prelude.{
  Bytes, bytes_eq, bytes_eq_iff, ◌≡◌, refl, ap, sym, ◌∙◌, subst, Bool, Option, some, [], ◌∷◌, arith,
  Bool-cases, Option-cases, inl, inr, ◌⊎◌,
}
use elara.Prelude.Outcome.{Outcome, ok, err}
use elara.Domain.Failure.{Failure}
use elara.Domain.Row.{ConfigMeta}
use elara.Storage.Bolt.Pairs.{Pairs}
use elara.Storage.Backend.{Backend}
use elara.ConfigStore.Db.{Db, is_namespace_locked}
use elara.ConfigStore.Read.{
  NsLockCache, cached, remember, cache_get, scan_loop, outside, should_skip_by_path,
}

-- A fallible value is a value or an error.
pub Outcome-cases :
    {A : Type 0} (r : Outcome Failure A) → ((a : A) × (r ≡ ok a)) ⊎ ((e : Failure) × (r ≡ err e))
Outcome-cases (ok a) = inl (a, refl)
Outcome-cases (err e) = inr (e, refl)

module _ {K : Backend} where
  -- Each entry is what a read of the namespace would find.
  abbrev pub IsCoherent : Db K → NsLockCache → Type 0
  IsCoherent s cache =
      (ns : Bytes) (locked : Bool)
      → cached ns cache ≡ some locked
      → (is_namespace_locked ns s).0 ≡ ok locked

  remembered :
      (s : Db K) (ns : Bytes) (cache : NsLockCache) (locked : Bool) (cache' : NsLockCache)
      → IsCoherent s cache
      → remember ns cache (is_namespace_locked ns s).0 ≡ ok (locked, cache')
      → ((is_namespace_locked ns s).0 ≡ ok locked) × IsCoherent s cache'
  unfolding cached
  remembered s ns cache locked cache' coherent h =
      elim (Outcome-cases (is_namespace_locked ns s).0) [
        | inl (found, e) ↦
            let same : ok (found, (ns, found) ∷ cache) ≡ ok (locked, cache') =
              ap (remember ns cache) (sym e) ∙ h in
            let value : found ≡ locked = cc same in
            let grown : (ns, found) ∷ cache ≡ cache' = cc same in
            (
              e ∙ ap ok value,
              subst (IsCoherent s) grown λ j l at. elim (Bool-cases (bytes_eq ns j)) [
                | inl here ↦ ground (arith, bytes_eq_iff ns j)
                | inr there ↦ coherent j l (ground arith)
              ],
            )
        | inr (x, e) ↦ absurd (cc (h, e))
      ]

  -- With a cache that is coherent, the lock is what a read would find, and the cache stays coherent.
  pub cache_get-IsCoherent :
      (s : Db K) (ns : Bytes) (cache : NsLockCache) (locked : Bool) (cache' : NsLockCache)
      → IsCoherent s cache
      → cache_get s ns cache ≡ ok (locked, cache')
      → ((is_namespace_locked ns s).0 ≡ ok locked) × IsCoherent s cache'
  unfolding cache_get
  cache_get-IsCoherent s ns cache locked cache' coherent h = elim (Option-cases (cached ns cache)) [
    | inl gone ↦ remembered s ns cache locked cache' coherent (ground arith)
    | inr (l, found) ↦
        let value : l ≡ locked = ground arith in
        let same : cache ≡ cache' = ground arith in
        (coherent ns l found ∙ ap ok value, subst (IsCoherent s) same coherent)
  ]

  -- A coherent cache answers where a read does.
  pub cache_get-ok :
      (s : Db K) (ns : Bytes) (cache : NsLockCache) (locked : Bool)
      → IsCoherent s cache
      → (is_namespace_locked ns s).0 ≡ ok locked
      → (cache' : NsLockCache) × (cache_get s ns cache ≡ ok (locked, cache'))
  unfolding cache_get
  cache_get-ok s ns cache locked coherent h = elim (Option-cases (cached ns cache)) [
    | inl gone ↦ ((ns, locked) ∷ cache, ground arith)
    | inr (l, found) ↦
        let at = coherent ns l found in let value : l ≡ locked = cc (at, h) in (cache, ground arith)
  ]

-- Two runs of scanMeta over the same pairs: where each step of the one that succeeds is matched by a
-- step of the other, so is the whole run.
pub scan_loop-matched :
    {T U : Type 0} (R : T → U → Type 0) (decode : Bytes → Option ConfigMeta) (prefix : Option Bytes)
    (ns path_prefix : Bytes) (fn : T → Bytes → ConfigMeta → Outcome Failure T)
    (gn : U → Bytes → ConfigMeta → Outcome Failure U)
    → ((t : T) (u : U) (k : Bytes) (m : ConfigMeta) (t' : T)
        → R t u
        → fn t k m ≡ ok t'
        → (u' : U) × (gn u k m ≡ ok u') × R t' u')
    → (l : Pairs) (t : T) (u : U) (t' : T) → R t u
    → scan_loop decode prefix ns path_prefix fn t l ≡ ok t'
    → (u' : U) × (scan_loop decode prefix ns path_prefix gn u l ≡ ok u') × R t' u'
unfolding scan_loop
scan_loop-matched R decode prefix ns path_prefix fn gn step [] t u t' r h =
    let same : t ≡ t' = cc h in (u, refl, subst (λ t. R t u) same r)
scan_loop-matched {T} {U} R decode prefix ns path_prefix fn gn step ((k, v) ∷ rest) t u t' r h =
    elim (Bool-cases (outside prefix k)) [
      | inl e ↦ let same : t ≡ t' = ground arith in (u, ground arith, subst (λ t. R t u) same r)
      | inr e ↦ elim (Bool-cases (should_skip_by_path k ns path_prefix)) [
        | inl skips ↦
            let onward : scan_loop decode prefix ns path_prefix fn t rest ≡ ok t' = ground arith in
            let (u', found, r') =
              scan_loop-matched R decode prefix ns path_prefix fn gn step rest t u t' r onward in
            (u', ground arith, r')
        | inr takes ↦ elim (Option-cases (decode v)) [
          | inl broken ↦ absurd (ground arith)
          | inr (m, decodes) ↦ elim (Outcome-cases (fn t k m)) [
            | inr (x, failed) ↦ absurd (ground arith)
            | inl (t1, took) ↦
                let (u1, took', r1) = step t u k m t1 r took in
                let onward : scan_loop decode prefix ns path_prefix fn t1 rest ≡ ok t' =
                  ground arith in
                let (u', found, r') =
                  scan_loop-matched R decode prefix ns path_prefix fn gn step rest t1 u1 t' r1
                    onward in
                (u', ground arith, r')
          ]
        ]
      ]
    ]
