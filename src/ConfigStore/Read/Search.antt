-- ===== src/ConfigStore/Read/Search.antt =====
-- internal/storage/bbolt/config/repository.go: SearchByPath.
use elara.Prelude.{Bytes, has_prefix, Bool, true, false, ◌||◌, Option, none, some, List, [], ◌∷◌}
use elara.Prelude.Outcome.{Outcome, ok, err}
use elara.Domain.Failure.{Failure, decode_failed}
use elara.Domain.Config.{ConfigSummary}
use elara.Domain.Row.{ConfigMeta, config_meta_to_summary}
use elara.Storage.Bolt.Pairs.{Pairs}
use elara.Storage.Backend.{Backend}
use elara.Storage.Tx.{Run, Ctx, lift, with_read_tx}
use elara.ConfigStore.Keys.{parse_config_key, config_key_prefix}
use elara.ConfigStore.Db.{Db}
use elara.ConfigStore.Write.{rollback_db}
use elara.ConfigStore.Read.{outside, scan_start}

-- strings.Contains
unfoldable pub contains : Bytes → Bytes → Bool
unfolding has_prefix
contains [] part = has_prefix [] part
contains (c ∷ s) part = has_prefix (c ∷ s) part || contains s part

abbrev found_before : {A : Type 0} → A → Outcome Failure (List A) → Outcome Failure (List A)
found_before a (ok l) = ok (a ∷ l)
found_before a (err e) = err e

-- The loop of SearchByPath; `lower` is strings.ToLower.
unfoldable pub search_loop :
    (Bytes → Option ConfigMeta)
    → (Bytes → Bytes)
    → Option Bytes
    → Bytes
    → Pairs
    → Outcome Failure (List ConfigSummary)
unfolding contains parse_config_key config_meta_to_summary
search_loop decode lower prefix query_lower [] = ok []
search_loop decode lower prefix query_lower ((k, v) ∷ rest) = elim (outside prefix k) [
  | true ↦ ok []
  | false ↦
      let onward = search_loop decode lower prefix query_lower rest in
      elim (contains (lower (parse_config_key k).1) query_lower) [
        | false ↦ onward
        | true ↦ elim (decode v) [
          | none ↦ err decode_failed
          | some m ↦
              found_before (config_meta_to_summary m (parse_config_key k).1 (parse_config_key k).0)
                onward
        ]
      ]
]

module _ {K : Backend} where
  unfoldable pub search_by_path :
      (Bytes → Bytes) → Ctx → Bytes → Bytes → Run (Db K) (List ConfigSummary)
  unfolding search_loop config_key_prefix
  search_by_path lower ctx query namespace = with_read_tx rollback_db ctx (λ tx s.
      lift
        (search_loop K.decode_meta lower (config_key_prefix namespace []) (lower query)
          (K.seek s.meta (scan_start (config_key_prefix namespace []))))
        s)
