-- ===== src/Tests/Reads.antt =====
-- Lists, pages and the changelog of a small repository.
use elara.Prelude.{
  ℕ, ◌≤◌, Bytes, ◌≡◌, refl, sym, ◌∙◌, false, none, some, [], ◌∷◌, bytes_eq, bytes_lt, has_prefix,
  has_suffix, arith, inl, inr, ◌⊎◌, if◌then◌else◌, if_false, Bool-cases, bytes_eq_iff, length, take,
  drop,
}
use elara.Prelude.Outcome.{ok, err}
use elara.Domain.Failure.{resource_not_found}
use elara.Domain.Config.{
  Config, ChangelogEntry, event_created, detect_format_from_path, parse_format, set_defaults,
}
use elara.Domain.Row.{ChangeRow, domain_to_config_meta, config_meta_to_domain, change_row_to_domain}
use elara.Storage.Bolt.Pairs.{find, insert, remove, from}
use elara.Storage.Bolt.Memory.{empty_table}
use elara.Storage.Memory.{
  memory_backend, write_meta, read_meta, write_change, read_change, write_namespace,
}
use elara.Storage.Tx.{with_read_tx}
use elara.ConfigStore.Keys.{
  config_key, history_key, history_prefix, revision_bytes, big_endian, parse_revision, cut,
  parse_config_key, config_key_prefix, big_endian_value,
}
use elara.ConfigStore.Db.{
  find_meta, is_namespace_locked, validate_namespace_unlocked, put_content, put_meta,
  delete_content, delete_meta, next_revision, write_history, write_changelog, write_config_entry,
}
use elara.ConfigStore.Etcd.{resolve_existing_key, build_put_meta, check_put_allowed}
use elara.ConfigStore.EtcdWrite.{write_put, put_key_tx}
use elara.ConfigStore.Read.{
  should_skip_by_path, cached, scan_loop, scan_meta, cache_get, config_item, list_items,
  list_by_prefix, list_config_page, with_lock,
}
use elara.ConfigStore.Read.Page.{list_config_page_lem}
use elara.ConfigStore.History.{change_loop, changes_after, list_changes, entry_at_revision}
use elara.ConfigStore.History.Changes.{list_changes-IsRising, HasRevisionKeys, IsRising}
use elara.ConfigStore.History.AtRevision.{entry_at_revision_decides, IsLatest, expected_entry}
use elara.ConfigStore.TimeTravel.{entry_at}
use elara.Tests.Data.{empty_db, call, prod, app, hello}
use elara.Tests.Store.{S, stored, with_history, with_history-IsTidy}

abbrev row_domain : Config
row_domain =
    with_lock
      (config_meta_to_domain (build_put_meta memory_backend 7 app hello 1 none).0 hello app prod)
      false

listed_ok :
    list_by_prefix {K = memory_backend} call (47 ∷ []) prod stored ≡ (ok (row_domain ∷ []), stored)
unfolding empty_table find insert remove from bytes_eq bytes_lt has_prefix has_suffix write_meta
    read_meta write_change write_namespace config_key history_key history_prefix revision_bytes
    big_endian parse_revision big_endian_value find_meta validate_namespace_unlocked
    is_namespace_locked next_revision put_content put_meta delete_content delete_meta write_history
    write_changelog write_config_entry domain_to_config_meta set_defaults put_key_tx
    resolve_existing_key check_put_allowed write_put build_put_meta detect_format_from_path
    list_by_prefix list_items scan_meta scan_loop should_skip_by_path cache_get cached config_item
    parse_config_key cut config_key_prefix config_meta_to_domain parse_format with_read_tx
listed_ok = refl

list_config_page_lem_example :
    list_config_page {K = memory_backend} call (47 ∷ []) prod 1 0 stored
    ≡ (ok (take 1 (drop 0 (row_domain ∷ [])), length (row_domain ∷ [])), stored)
list_config_page_lem_example =
    list_config_page_lem call stored (47 ∷ []) prod 1 0 (row_domain ∷ []) stored listed_ok

abbrev change : ChangeRow
change = record { kind = event_created; path = app; namespace = prod; version = 1; timestamp = 7 }

-- One change, of revision 1.
abbrev with_change : S
with_change = record empty_db {
  changelog =
      memory_backend.put empty_db.changelog (revision_bytes 1)
        (memory_backend.encode_change change);
}

change_there :
    (k : Bytes)
    → memory_backend.get with_change.changelog k
      ≡ (if bytes_eq (revision_bytes 1) k then some (memory_backend.encode_change change) else none)
unfolding empty_table find
change_there k =
    memory_backend.get-put empty_table (revision_bytes 1) (memory_backend.encode_change change) k

with_change_keys : HasRevisionKeys {K = memory_backend} with_change
with_change_keys k b at = elim (Bool-cases (bytes_eq (revision_bytes 1) k)) [
  | inl same ↦ (1, omega arith, sym ((bytes_eq_iff _ k).0 same))
  | inr other ↦ absurd (not_there (sym (if_false _ _ _ other) ∙ sym (change_there k) ∙ at))
]
  where
    not_there : {v : Bytes} → ¬ (none ≡ some v)
    not_there h = cc h

abbrev entry : ChangelogEntry
entry = record {
  revision = 1;
  kind = event_created;
  path = app;
  namespace = prod;
  version = 1;
  timestamp = 7;
}

changes_ok : list_changes {K = memory_backend} call 0 5 with_change ≡ (ok (entry ∷ []), with_change)
unfolding empty_table find insert from bytes_eq bytes_lt write_change read_change revision_bytes
    big_endian parse_revision big_endian_value list_changes changes_after change_loop
    change_row_to_domain with_read_tx
changes_ok = refl

list_changes-IsRising_example : (length (entry ∷ []) ≤ 5) × IsRising 1 (entry ∷ [])
list_changes-IsRising_example =
    list_changes-IsRising call with_change with_change 0 5 (entry ∷ []) with_change_keys changes_ok

entry_at_revision_decides_example :
    ((a : ℕ) × (v : Bytes) × IsLatest {K = memory_backend} with_history prod app 5 a v
      × (entry_at_revision {K = memory_backend} with_history app prod 5
          ≡ ok (expected_entry {K = memory_backend} with_history a v)))
    ⊎ (((i : ℕ) → i ≤ 5 → entry_at {K = memory_backend} with_history prod app i ≡ none)
        × (entry_at_revision {K = memory_backend} with_history app prod 5 ≡ err resource_not_found))
entry_at_revision_decides_example =
    entry_at_revision_decides with_history prod app 5 with_history-IsTidy (omega arith)
