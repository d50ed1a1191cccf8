-- ===== src/ConfigStore/History.antt =====
-- internal/storage/bbolt/config/repository.go: the history of a config and the changelog.
pub mod Changes
pub mod AtRevision
use elara.Prelude.{
  ℕ, zero, suc, Bytes, has_prefix, ◌==◌, ◌&&◌, Bool, true, false, not, Option, none, some, List, [],
  ◌∷◌, ◌++◌, length, take, drop, if◌then◌else◌, ◌-◌,
}
use elara.Prelude.Outcome.{Outcome, ok, err}
use elara.Domain.Failure.{Failure, decode_failed, resource_not_found}
use elara.Domain.Config.{ChangelogEntry, HistoryEntry}
use elara.Domain.Row.{ChangeRow, LockRow, change_row_to_domain}
use elara.Storage.Bolt.Pairs.{Pairs}
use elara.Storage.Backend.{Backend}
use elara.Storage.Tx.{Run, Ctx, lift, gets, with_read_tx}
use elara.ConfigStore.Keys.{
  history_key, history_prefix, revision_bytes, revision_size, parse_revision,
}
use elara.ConfigStore.Db.{Db, bytes_of, increment, sys_value, sys_revision_key}
use elara.ConfigStore.Write.{rollback_db}
use elara.ConfigStore.Etcd.{at_or_before}

-- sort.Slice by Timestamp.After, for the two kinds of entries.
pub record NewestFirst : Type 0 where
  pub sort_history : List HistoryEntry → List HistoryEntry
  pub sort_changes : List ChangelogEntry → List ChangelogEntry

-- The entry of an unmarshalled change, where there is one: its kind and its time.
abbrev pub with_change : HistoryEntry → Option ChangeRow → HistoryEntry
with_change e none = e
with_change e (some row) = record e { kind = row.kind; timestamp = row.timestamp }

abbrev pub then_decode : {A : Type 0} → (Bytes → Option A) → Option Bytes → Option A
then_decode decode none = none
then_decode decode (some b) = decode b

abbrev pub lock_entry : LockRow → HistoryEntry
lock_entry row = record {
  revision = 0;
  content = [];
  content_hash = [];
  kind = row.kind;
  timestamp = row.timestamp;
}

abbrev pub add_change :
    ChangelogEntry → Outcome Failure (List ChangelogEntry) → Outcome Failure (List ChangelogEntry)
add_change e (ok l) = ok (e ∷ l)
add_change e (err x) = err x

-- The loop of ListChanges: the room that is left under the limit, and what the cursor yields.
unfoldable pub change_loop :
    (Bytes → Option ChangeRow) → ℕ → Pairs → Outcome Failure (List ChangelogEntry)
unfolding change_row_to_domain parse_revision
change_loop decode room [] = ok []
change_loop decode zero ((k, v) ∷ rest) = ok []
change_loop decode (suc room) ((k, v) ∷ rest) = elim (decode v) [
  | none ↦ err decode_failed
  | some e ↦ add_change (change_row_to_domain e (parse_revision k)) (change_loop decode room rest)
]

-- The loop of collectRecentChangelog over what the cursor yields, backwards.
unfoldable pub recent_loop : (Bytes → Option ChangeRow) → ℕ → Pairs → List ChangelogEntry
unfolding change_row_to_domain parse_revision
recent_loop decode room [] = []
recent_loop decode zero ((k, v) ∷ rest) = []
recent_loop decode (suc room) ((k, v) ∷ rest) = elim (decode v) [
  | none ↦ recent_loop decode (suc room) rest
  | some e ↦ change_row_to_domain e (parse_revision k) ∷ recent_loop decode room rest
]

-- The lock events under a prefix; `exact` where only keys of the prefix and a sequence number count.
unfoldable pub lock_loop : (Bytes → Option LockRow) → Bool → Bytes → Pairs → List HistoryEntry
unfolding has_prefix
lock_loop decode exact prefix [] = []
lock_loop decode exact prefix ((k, v) ∷ rest) = elim (has_prefix k prefix) [
  | false ↦ []
  | true ↦
      let more = lock_loop decode exact prefix rest in
      if exact && not (length k - length prefix == revision_size)
      then more
      else elim (decode v) [ none ↦ more | some row ↦ lock_entry row ∷ more ]
]

unfoldable pub merge_history_entries :
    NewestFirst → List HistoryEntry → List HistoryEntry → ℕ → List HistoryEntry
merge_history_entries S content lock limit = take limit (S.sort_history (content ++ lock))

unfoldable pub collect_recent_changelog : (K : Backend) → K.Bucket → ℕ → List ChangelogEntry
unfolding recent_loop
collect_recent_changelog K bucket limit = recent_loop K.decode_change limit (K.backward bucket)

module _ {K : Backend} where
  -- The history entry of a revision, with the kind and the time of its change.
  unfoldable pub history_entry : Db K → ℕ → Bytes → HistoryEntry
  unfolding revision_bytes
  history_entry s rev content =
      with_change
        (record {
          revision = rev;
          content = content;
          content_hash = K.hash content;
          kind = 0;
          timestamp = 0;
        })
        (then_decode K.decode_change (K.get s.changelog (revision_bytes rev)))

  unfoldable pub content_loop : Db K → Bytes → Pairs → List HistoryEntry
  unfolding history_entry has_prefix parse_revision
  content_loop s prefix [] = []
  content_loop s prefix ((k, v) ∷ rest) = elim (has_prefix k prefix) [
    | false ↦ []
    | true ↦
        history_entry s (parse_revision (drop (length prefix) k)) (bytes_of (K.get s.history k))
        ∷ content_loop s prefix rest
  ]

  unfoldable pub collect_content_history : Db K → Bytes → List HistoryEntry
  unfolding content_loop
  collect_content_history s prefix = content_loop s prefix (K.seek s.history prefix)

  unfoldable pub collect_config_lock_history : Db K → Bytes → List HistoryEntry
  unfolding lock_loop
  collect_config_lock_history s prefix =
      lock_loop K.decode_lock false prefix (K.seek s.lock_history prefix)

  unfoldable pub collect_namespace_lock_history : Db K → Bytes → List HistoryEntry
  unfolding lock_loop history_prefix
  collect_namespace_lock_history s namespace =
      let prefix = history_prefix namespace [] in
      lock_loop K.decode_lock true prefix (K.seek s.lock_history prefix)

  unfoldable pub config_history : NewestFirst → Db K → Bytes → Bytes → ℕ → List HistoryEntry
  unfolding collect_content_history collect_config_lock_history collect_namespace_lock_history
      merge_history_entries history_prefix
  config_history S s path namespace limit =
      let prefix = history_prefix namespace path in
      merge_history_entries S (collect_content_history s prefix)
        (collect_config_lock_history s prefix ++ collect_namespace_lock_history s namespace) limit

  unfoldable pub get_config_history :
      NewestFirst → Ctx → Bytes → Bytes → ℕ → Run (Db K) (List HistoryEntry)
  unfolding config_history
  get_config_history S ctx path namespace limit =
      with_read_tx rollback_db ctx (λ tx s. lift (ok (config_history S s path namespace limit)) s)

  -- The entry that the cursor stops at, if it is one of this config.
  abbrev found_entry : Db K → Bytes → Option (Bytes × Bytes) → Outcome Failure HistoryEntry
  found_entry s prefix none = err resource_not_found
  found_entry s prefix (some (k, v)) =
      if not (has_prefix k prefix)
      then err resource_not_found
      else ok (history_entry s (parse_revision (drop (length prefix) k)) v)

  unfoldable pub entry_at_revision : Db K → Bytes → Bytes → ℕ → Outcome Failure HistoryEntry
  unfolding history_entry at_or_before history_key history_prefix parse_revision
  entry_at_revision s path namespace revision =
      let seek_key = history_key namespace path revision in
      let prefix = history_prefix namespace path in
      found_entry s prefix (at_or_before s seek_key prefix (K.seek s.history seek_key))

  unfoldable pub get_at_revision : Ctx → Bytes → Bytes → ℕ → Run (Db K) HistoryEntry
  unfolding entry_at_revision
  get_at_revision ctx path namespace revision =
      with_read_tx rollback_db ctx (λ tx s. lift (entry_at_revision s path namespace revision) s)

  unfoldable pub current_revision : Ctx → Run (Db K) ℕ
  current_revision ctx =
      with_read_tx rollback_db ctx (λ tx. gets (λ s. sys_value s sys_revision_key))

  unfoldable pub changes_after : Db K → ℕ → ℕ → Outcome Failure (List ChangelogEntry)
  unfolding change_loop revision_bytes
  changes_after s since limit =
      change_loop K.decode_change limit (K.seek s.changelog (revision_bytes (increment since)))

  unfoldable pub list_changes : Ctx → ℕ → ℕ → Run (Db K) (List ChangelogEntry)
  unfolding changes_after
  list_changes ctx since limit =
      with_read_tx rollback_db ctx (λ tx s. lift (changes_after s since limit) s)

  unfoldable pub recent_changes : NewestFirst → Db K → ℕ → List ChangelogEntry
  unfolding collect_recent_changelog
  recent_changes S s limit = take limit (
      S.sort_changes (
        collect_recent_changelog K s.changelog limit
        ++ collect_recent_changelog K s.lock_changelog limit))

  unfoldable pub list_recent_changes : NewestFirst → Ctx → ℕ → Run (Db K) (List ChangelogEntry)
  unfolding recent_changes
  list_recent_changes S ctx limit =
      with_read_tx rollback_db ctx
        (λ tx s. lift (ok (recent_changes S s (if limit == 0 then 50 else limit))) s)
