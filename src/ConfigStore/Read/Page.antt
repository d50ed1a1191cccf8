-- ===== src/ConfigStore/Read/Page.antt =====
-- internal/storage/bbolt/config/repository.go: ListSummaryPage and ListConfigPage beside the lists,
-- and CountByNamespace.
use elara.Prelude.{
  ℕ, zero, suc, ◌+◌, ◌≤◌, Bytes, ◌≡◌, refl, sym, ap, ap₂, ◌∙◌, subst, Bool, true, false, ◌&&◌, List,
  [], ◌∷◌, ◌++◌, length, take, drop, ltb, leb, arith, Bool-cases, inl, inr, if◌then◌else◌,
  drop-append, take-append, length-append, length-take, take_all, drop_all,
}
use elara.Prelude.Outcome.{Outcome, ok, err}
use elara.Domain.Failure.{Failure}
use elara.Domain.Row.{ConfigMeta}
use elara.Storage.Backend.{Backend}
use elara.Storage.Tx.{Ctx}
use elara.Storage.Tx.Laws.{with_read_tx-lift}
use elara.ConfigStore.Write.{rollback_db}
use elara.Domain.Config.{Config, ConfigSummary}
use elara.ConfigStore.Keys.{parse_config_key, config_key_prefix}
use elara.ConfigStore.Db.{Db}
use elara.ConfigStore.Read.{
  NsLockCache, Collected, Item, collect, counted, listed, paged, cache_get, scan_meta, list_items,
  page_items, count_items, summary_item, config_item, list_by_prefix, list_summaries_by_prefix,
  list_summary_page, list_config_page, count_by_namespace, scan_start,
}
use elara.ConfigStore.Read.Cache.{IsCoherent, cache_get-IsCoherent, cache_get-ok, scan_loop-matched}

-- The part of a list that a page shows.
abbrev pub slice : {A : Type 0} → ℕ → ℕ → List A → List A
slice limit offset l = take limit (drop offset l)

module _ {A : Type 0} where
  -- A further element is on the page where it is not before the offset and the page has room.
  slice-snoc-on :
      (limit offset : ℕ) (l : List A) (x : A)
      → leb offset (length l) && ltb (length (slice limit offset l)) limit ≡ true
      → slice limit offset (l ++ x ∷ []) ≡ slice limit offset l ++ x ∷ []
  slice-snoc-on limit offset l x h =
      let after : offset ≤ length l = ground arith in
      let n = length-take limit (drop offset l) in
      let room : length (drop offset l ++ x ∷ []) ≤ limit =
        ground (arith, length-append (drop offset l) (x ∷ []), n) in
      ap (take limit) (drop-append offset l (x ∷ []) after)
      ∙ take_all limit (drop offset l ++ x ∷ []) room
      ∙ ap (λ k. k ++ x ∷ []) (sym (take_all limit (drop offset l) (ground (arith, n))))

  slice-snoc-off :
      (limit offset : ℕ) (l : List A) (x : A)
      → leb offset (length l) && ltb (length (slice limit offset l)) limit ≡ false
      → slice limit offset (l ++ x ∷ []) ≡ slice limit offset l
  slice-snoc-off limit offset l x h = elim (Bool-cases (leb offset (length l))) [
    | inl after ↦
        let n = length-take limit (drop offset l) in
        let full : limit ≤ length (drop offset l) = ground (arith, n) in
        ap (take limit) (drop-append offset l (x ∷ []) (ground arith))
        ∙ take-append limit (drop offset l) (x ∷ []) full
    | inr before ↦
        let short : length (l ++ x ∷ []) ≤ offset = ground (arith, length-append l (x ∷ [])) in
        ap (take limit)
          (drop_all offset (l ++ x ∷ []) short ∙ sym (drop_all offset l (ground arith)))
  ]

-- What has been collected gained one element.
collect_cases :
    {A : Type 0} (found : List A) (item : Bool → A) (r : Outcome Failure (Bool × NsLockCache))
    (t : Collected A)
    → collect found item r ≡ ok t
    → (locked : Bool) × (cache : NsLockCache) × (r ≡ ok (locked, cache))
      × (t ≡ (found ++ item locked ∷ [], cache))
collect_cases found item (ok (locked, cache)) t h = (locked, cache, refl, sym (cc h))
collect_cases found item (err e) t h = absurd (cc h)

listed_ok :
    {A : Type 0} (r : Outcome Failure (Collected A)) (all : List A)
    → listed r ≡ ok all
    → (c : Collected A) × (r ≡ ok c) × (c.0 ≡ all)
listed_ok (ok c) all h = (c, refl, cc h)
listed_ok (err e) all h = absurd (cc h)

slice-empty : {A : Type 0} (limit offset : ℕ) → [] ≡ slice {A = A} limit offset []
slice-empty zero offset = refl
slice-empty (suc limit) zero = refl
slice-empty (suc limit) (suc offset) = refl

module _ {K : Backend} {A : Type 0} (s : Db K) (item : Item A) (limit offset : ℕ) where
  -- A list so far, and the page of it.
  abbrev IsPageOf : Collected A → ℕ × Collected A → Type 0
  IsPageOf l p =
      (p.0 ≡ length l.0) × (p.1.0 ≡ slice limit offset l.0) × IsCoherent s l.1 × IsCoherent s p.1.1

  abbrev list_step : Collected A → Bytes → ConfigMeta → Outcome Failure (Collected A)
  list_step c key m = collect c.0 (item key m) (cache_get s (parse_config_key key).0 c.1)

  abbrev page_step : ℕ × Collected A → Bytes → ConfigMeta → Outcome Failure (ℕ × Collected A)
  page_step p key m =
      let (idx, c) = p in
      if leb offset idx && ltb (length c.0) limit
      then counted idx (collect c.0 (item key m) (cache_get s (parse_config_key key).0 c.1))
      else ok (idx + 1, c)

  page_step-IsPageOf :
      (t : Collected A) (u : ℕ × Collected A) (key : Bytes) (m : ConfigMeta) (t' : Collected A)
      → IsPageOf t u
      → list_step t key m ≡ ok t'
      → (u' : ℕ × Collected A) × (page_step u key m ≡ ok u') × IsPageOf t' u'
  page_step-IsPageOf (found, cache) (idx, (shown, seen)) key m t' (hi, hs, coherent, coherent') h =
      let (locked, cache1, got, grown) =
        collect_cases found (item key m) (cache_get s (parse_config_key key).0 cache) t' h in
      let (known, coherent1) =
        cache_get-IsCoherent s (parse_config_key key).0 cache locked cache1 coherent got in
      let counts : idx + 1 ≡ length (found ++ item key m locked ∷ []) =
        ground (arith, length-append found (item key m locked ∷ [])) in
      elim (Bool-cases (leb offset idx && ltb (length shown) limit)) [
        | inl on ↦
            let (seen1, got') =
              cache_get-ok s (parse_config_key key).0 seen locked coherent' known in
            let (known', coherent2) =
              cache_get-IsCoherent s (parse_config_key key).0 seen locked seen1 coherent' got' in
            let there : leb offset (length found) && ltb (length (slice limit offset found)) limit
                ≡ true =
              ap₂ (λ n l. leb offset n && ltb (length l) limit) (sym hi) (sym hs) ∙ on in
            (
              (idx + 1, (shown ++ item key m locked ∷ [], seen1)),
              ground arith,
              subst (λ t. IsPageOf t (idx + 1, (shown ++ item key m locked ∷ [], seen1)))
                  (sym grown)
                  (
                    counts,
                    ap (λ l. l ++ item key m locked ∷ []) hs
                        ∙ sym (slice-snoc-on limit offset found (item key m locked) there),
                    coherent1,
                    coherent2,
                  ),
            )
        | inr off ↦
            let there : leb offset (length found) && ltb (length (slice limit offset found)) limit
                ≡ false =
              ap₂ (λ n l. leb offset n && ltb (length l) limit) (sym hi) (sym hs) ∙ off in
            (
              (idx + 1, (shown, seen)),
              ground arith,
              subst (λ t. IsPageOf t (idx + 1, (shown, seen))) (sym grown)
                  (
                    counts,
                    hs ∙ sym (slice-snoc-off limit offset found (item key m locked) there),
                    coherent1,
                    coherent',
                  ),
            )
      ]

  page_items-list_items :
      (namespace path_prefix : Bytes) (all : List A)
      → listed (list_items s namespace path_prefix item) ≡ ok all
      → paged (page_items s namespace path_prefix item limit offset)
        ≡ ok (slice limit offset all, length all)
  unfolding list_items page_items scan_meta
  page_items-list_items namespace path_prefix all h =
      let prefix = config_key_prefix namespace path_prefix in
      let (c, ran, same) = listed_ok (list_items s namespace path_prefix item) all h in
      let (p, ran', (hi, hs, coherent, coherent')) =
        scan_loop-matched IsPageOf K.decode_meta prefix namespace path_prefix list_step page_step
          page_step-IsPageOf (K.seek s.meta (scan_start prefix)) ([], []) (0, ([], [])) c
          (refl, slice-empty limit offset, (λ n l e. absurd (cc e)), (λ n l e. absurd (cc e)))
          ran in
      ap paged ran'
      ∙ ap₂ (λ l n. ok (l, n)) (hs ∙ ap (slice limit offset) same) (hi ∙ ap length same)

  count_items-list_items :
      (namespace : Bytes) (all : List A)
      → listed (list_items s namespace (47 ∷ []) item) ≡ ok all
      → count_items s namespace ≡ ok (length all)
  unfolding list_items count_items scan_meta
  count_items-list_items namespace all h =
      let prefix = config_key_prefix namespace (47 ∷ []) in
      let (c, ran, same) = listed_ok (list_items s namespace (47 ∷ []) item) all h in
      let (n, ran', counts) =
        scan_loop-matched (λ c n. n ≡ length c.0) K.decode_meta prefix namespace (47 ∷ []) list_step
          (λ count key m. ok (count + 1))
          (λ t u key m t' hi step.
            let (locked, cache, got, grown) =
              collect_cases t.0 (item key m) (cache_get s (parse_config_key key).0 t.1) t' step in
            (u + 1, refl, ground (arith, grown, length-append t.0 (item key m locked ∷ []))))
          (K.seek s.meta (scan_start prefix)) ([], []) 0 c refl ran in
      ran' ∙ ap ok (counts ∙ ap length same)

module _ {K : Backend} (ctx : Ctx) (s : Db K) where
  -- Where ListSummariesByPrefix succeeds, a page succeeds with the part of its list from the offset on,
  -- at most as long as the limit, and with the length of the whole list.
  pub list_summary_page_lem :
      (path_prefix namespace : Bytes) (limit offset : ℕ) (all : List ConfigSummary) (s' : Db K)
      → list_summaries_by_prefix ctx path_prefix namespace s ≡ (ok all, s')
      → list_summary_page ctx path_prefix namespace limit offset s
        ≡ (ok (take limit (drop offset all), length all), s')
  unfolding list_summaries_by_prefix list_summary_page
  list_summary_page_lem path_prefix namespace limit offset all s' h =
      let (read, again) =
        with_read_tx-lift rollback_db ctx
          (λ s. listed (list_items s namespace path_prefix summary_item)) s all s' h in
      again (λ s. paged (page_items s namespace path_prefix summary_item limit offset))
        (slice limit offset all, length all)
        (page_items-list_items s summary_item limit offset namespace path_prefix all read)

  -- Where ListByPrefix succeeds, a page succeeds with the part of its list from the offset on, at most
  -- as long as the limit, and with the length of the whole list.
  pub list_config_page_lem :
      (path_prefix namespace : Bytes) (limit offset : ℕ) (all : List Config) (s' : Db K)
      → list_by_prefix ctx path_prefix namespace s ≡ (ok all, s')
      → list_config_page ctx path_prefix namespace limit offset s
        ≡ (ok (take limit (drop offset all), length all), s')
  unfolding list_by_prefix list_config_page
  list_config_page_lem path_prefix namespace limit offset all s' h =
      let (read, again) =
        with_read_tx-lift rollback_db ctx
          (λ s. listed (list_items s namespace path_prefix (config_item s))) s all s' h in
      again (λ s. paged (page_items s namespace path_prefix (config_item s) limit offset))
        (slice limit offset all, length all)
        (page_items-list_items s (config_item s) limit offset namespace path_prefix all read)

  -- Where the list of the configs of a namespace under "/" succeeds, CountByNamespace is its length.
  pub count_by_namespace_lem :
      (namespace : Bytes) (all : List ConfigSummary) (s' : Db K)
      → list_summaries_by_prefix ctx (47 ∷ []) namespace s ≡ (ok all, s')
      → count_by_namespace ctx namespace s ≡ (ok (length all), s')
  unfolding list_summaries_by_prefix count_by_namespace
  count_by_namespace_lem namespace all s' h =
      let (read, again) =
        with_read_tx-lift rollback_db ctx
          (λ s. listed (list_items s namespace (47 ∷ []) summary_item)) s all s' h in
      again (λ s. count_items s namespace) (length all)
        (count_items-list_items s summary_item 0 0 namespace all read)
