-- ===== src/ConfigStore/Read.antt =====
-- internal/storage/bbolt/config/repository.go: Get, and the lists and pages of configs.
pub mod Cache
pub mod Page
pub mod Search
use elara.Prelude.{
  ℕ, ◌+◌, Bytes, bytes_eq, has_prefix, ltb, leb, not, Bool, true, false, ◌&&◌, ◌||◌, Option, none,
  some, List, [], ◌∷◌, ◌++◌, length, if◌then◌else◌,
}
use elara.Prelude.Outcome.{Outcome, ok, err}
use elara.Domain.Failure.{Failure, decode_failed}
use elara.Domain.Config.{Config, ConfigSummary}
use elara.Domain.Row.{ConfigMeta, config_meta_to_domain, config_meta_to_summary}
use elara.Storage.Bolt.Pairs.{Pairs}
use elara.Storage.Backend.{Backend}
use elara.Storage.Tx.{Run, Ctx, ◌>>=◌, pure, lift, gets, with_read_tx}
use elara.ConfigStore.Keys.{config_key, parse_config_key, config_key_prefix}
use elara.ConfigStore.Db.{Db, bytes_of, is_namespace_locked}
use elara.ConfigStore.Write.{rollback_db, require_meta}

unfoldable pub should_skip_by_path : Bytes → Bytes → Bytes → Bool
unfolding parse_config_key has_prefix bytes_eq
should_skip_by_path k namespace path_prefix =
    if not (bytes_eq namespace []) || bytes_eq path_prefix [] || bytes_eq path_prefix (47 ∷ [])
    then false
    else not (has_prefix (parse_config_key k).1 path_prefix)

-- A key that the loop breaks at; without a prefix there is none.
abbrev pub outside : Option Bytes → Bytes → Bool
outside none k = false
outside (some p) k = not (has_prefix k p)

abbrev pub scan_start : Option Bytes → Bytes
scan_start none = []
scan_start (some p) = p

-- The locks of namespaces that have been looked up.
abbrev pub NsLockCache : Type 0
NsLockCache = List (Bytes × Bool)

unfoldable pub cached : Bytes → NsLockCache → Option Bool
unfolding bytes_eq
cached namespace [] = none
cached namespace ((ns, locked) ∷ cache) =
    if bytes_eq ns namespace then some locked else cached namespace cache

-- What has been collected, beside the cache.
abbrev pub Collected : Type 0 → Type 0
Collected A = List A × NsLockCache

abbrev pub with_lock : Config → Bool → Config
with_lock cfg locked = record cfg { namespace_locked = locked }

abbrev pub with_lock_summary : ConfigSummary → Bool → ConfigSummary
with_lock_summary s locked = record s { namespace_locked = locked }

-- scanMeta over what the cursor yields; the variables of the callback are its state.
unfoldable pub scan_loop :
    {T : Type 0}
    → (Bytes → Option ConfigMeta)
    → Option Bytes
    → Bytes
    → Bytes
    → (T → Bytes → ConfigMeta → Outcome Failure T)
    → T
    → Pairs
    → Outcome Failure T
unfolding should_skip_by_path
scan_loop decode prefix namespace path_prefix fn t [] = ok t
scan_loop decode prefix namespace path_prefix fn t ((k, v) ∷ rest) = elim (outside prefix k) [
  | true ↦ ok t
  | false ↦ elim (should_skip_by_path k namespace path_prefix) [
    | true ↦ scan_loop decode prefix namespace path_prefix fn t rest
    | false ↦ elim (decode v) [
      | none ↦ err decode_failed
      | some m ↦ elim (fn t k m) [
        | err e ↦ err e
        | ok u ↦ scan_loop decode prefix namespace path_prefix fn u rest
      ]
    ]
  ]
]

abbrev pub counted : {A : Type 0} → ℕ → Outcome Failure A → Outcome Failure (ℕ × A)
counted idx (ok a) = ok (idx + 1, a)
counted idx (err e) = err e

abbrev pub listed : {A : Type 0} → Outcome Failure (Collected A) → Outcome Failure (List A)
listed (ok c) = ok c.0
listed (err e) = err e

abbrev pub paged : {A : Type 0} → Outcome Failure (ℕ × Collected A) → Outcome Failure (List A × ℕ)
paged (ok (idx, c)) = ok (c.0, idx)
paged (err e) = err e

abbrev pub remember :
    Bytes → NsLockCache → Outcome Failure Bool → Outcome Failure (Bool × NsLockCache)
remember namespace cache (ok locked) = ok (locked, (namespace, locked) ∷ cache)
remember namespace cache (err e) = err e

abbrev pub collect :
    {A : Type 0}
    → List A
    → (Bool → A)
    → Outcome Failure (Bool × NsLockCache)
    → Outcome Failure (Collected A)
collect found item (ok (locked, cache)) = ok (found ++ item locked ∷ [], cache)
collect found item (err e) = err e

-- The item of a config, by its key and its row, that waits for the lock of its namespace.
abbrev pub Item : Type 0 → Type 0
Item A = Bytes → ConfigMeta → Bool → A

abbrev pub summary_item : Bytes → ConfigMeta → Bool → ConfigSummary
summary_item key m =
    let (ns, path) = parse_config_key key in with_lock_summary (config_meta_to_summary m path ns)

module _ {K : Backend} where
  unfoldable pub get : Ctx → Bytes → Bytes → Run (Db K) Config
  unfolding require_meta config_meta_to_domain is_namespace_locked
  get ctx path namespace = with_read_tx rollback_db ctx (λ tx. do
    m ← require_meta (config_key namespace path)
    content ← gets (λ s. bytes_of (K.get s.content (config_key namespace path)))
    ns_locked ← is_namespace_locked namespace
    pure (with_lock (config_meta_to_domain m content path namespace) ns_locked))

  unfoldable pub scan_meta :
      {T : Type 0}
      → Db K
      → Bytes
      → Bytes
      → (T → Bytes → ConfigMeta → Outcome Failure T)
      → T
      → Outcome Failure T
  unfolding scan_loop config_key_prefix
  scan_meta s namespace path_prefix fn t =
      scan_loop K.decode_meta (config_key_prefix namespace path_prefix) namespace path_prefix fn t
        (K.seek s.meta (scan_start (config_key_prefix namespace path_prefix)))

  -- nsLockCache.get
  unfoldable pub cache_get : Db K → Bytes → NsLockCache → Outcome Failure (Bool × NsLockCache)
  unfolding cached is_namespace_locked
  cache_get s namespace cache = elim (cached namespace cache) [
    | some locked ↦ ok (locked, cache)
    | none ↦ remember namespace cache (is_namespace_locked namespace s).0
  ]

  unfoldable pub config_item : Db K → Item Config
  unfolding parse_config_key config_meta_to_domain
  config_item s key m =
      let (ns, path) = parse_config_key key in
      with_lock (config_meta_to_domain m (bytes_of (K.get s.content key)) path ns)

  unfoldable pub list_items :
      {A : Type 0} → Db K → Bytes → Bytes → Item A → Outcome Failure (Collected A)
  unfolding scan_meta cache_get
  list_items s namespace path_prefix item =
      scan_meta s namespace path_prefix
        (λ c key m. collect c.0 (item key m) (cache_get s (parse_config_key key).0 c.1)) ([], [])

  -- A page: how many keys have been seen, and what is on the page. A negative limit is 0, and so is a
  -- negative offset.
  unfoldable pub page_items :
      {A : Type 0} → Db K → Bytes → Bytes → Item A → ℕ → ℕ → Outcome Failure (ℕ × Collected A)
  unfolding scan_meta cache_get
  page_items s namespace path_prefix item limit offset =
      scan_meta s namespace path_prefix
        (λ p key m.
          let (idx, c) = p in
          if leb offset idx && ltb (length c.0) limit
          then counted idx (collect c.0 (item key m) (cache_get s (parse_config_key key).0 c.1))
          else ok (idx + 1, c))
        (0, ([], []))

  unfoldable pub list_by_prefix : Ctx → Bytes → Bytes → Run (Db K) (List Config)
  unfolding list_items config_item
  list_by_prefix ctx path_prefix namespace =
      with_read_tx rollback_db ctx
        (λ tx s. lift (listed (list_items s namespace path_prefix (config_item s))) s)

  unfoldable pub list_all_by_namespace : Ctx → Bytes → Run (Db K) (List Config)
  unfolding list_by_prefix
  list_all_by_namespace ctx namespace = list_by_prefix ctx [] namespace

  unfoldable pub list_summaries_by_prefix : Ctx → Bytes → Bytes → Run (Db K) (List ConfigSummary)
  unfolding list_items
  list_summaries_by_prefix ctx path_prefix namespace =
      with_read_tx rollback_db ctx
        (λ tx s. lift (listed (list_items s namespace path_prefix summary_item)) s)

  unfoldable pub list_summary_page :
      Ctx → Bytes → Bytes → ℕ → ℕ → Run (Db K) (List ConfigSummary × ℕ)
  unfolding page_items
  list_summary_page ctx path_prefix namespace limit offset =
      with_read_tx rollback_db ctx
        (λ tx s. lift (paged (page_items s namespace path_prefix summary_item limit offset)) s)

  unfoldable pub list_config_page : Ctx → Bytes → Bytes → ℕ → ℕ → Run (Db K) (List Config × ℕ)
  unfolding page_items config_item
  list_config_page ctx path_prefix namespace limit offset =
      with_read_tx rollback_db ctx
        (λ tx s. lift (paged (page_items s namespace path_prefix (config_item s) limit offset)) s)

  unfoldable pub count_items : Db K → Bytes → Outcome Failure ℕ
  unfolding scan_meta
  count_items s namespace = scan_meta s namespace (47 ∷ []) (λ count key m. ok (count + 1)) 0

  unfoldable pub count_by_namespace : Ctx → Bytes → Run (Db K) ℕ
  unfolding count_items
  count_by_namespace ctx namespace =
      with_read_tx rollback_db ctx (λ tx s. lift (count_items s namespace) s)
