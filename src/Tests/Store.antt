-- ===== src/Tests/Store.antt =====
-- Runs of the repository of configs.
use elara.Prelude.{
  Bytes, ◌≡◌, ◌≢◌, refl, true, false, none, some, [], ◌∷◌, codes, bytes_eq, bytes_lt, has_prefix,
  has_suffix, arith, inl, inr, ◌⊎◌, ◌∙◌, if◌then◌else◌, if_false, Bool-cases, bytes_eq_iff, sym,
}
use elara.Prelude.Outcome.{ok}
use elara.Domain.Config.{
  Config, event_created, event_updated, detect_format_from_path, set_defaults,
}
use elara.Domain.Row.{ConfigMeta, domain_to_config_meta}
use elara.Storage.Bolt.Pairs.{find, insert, remove, from}
use elara.Storage.Bolt.Memory.{empty_table}
use elara.Storage.Memory.{memory_backend, write_meta, read_meta, write_change, write_namespace}
use elara.ConfigStore.Keys.{
  config_key, history_key, history_prefix, revision_bytes, big_endian, parse_revision,
  big_endian_value,
}
use elara.ConfigStore.Db.{
  Db, find_meta, is_namespace_locked, validate_namespace_unlocked, put_content, put_meta,
  delete_content, delete_meta, next_revision, next_lock_seq, write_history, write_changelog,
  write_lock_history, write_config_entry, sys_value, sys_revision_key, increment,
}
use elara.ConfigStore.Write.{
  require_meta, exists, write_created, create_tx, validate_update_preconditions, write_updated,
  update_config_tx, created, updated, write_deleted, delete_config_tx, set_lock,
  toggle_config_lock_tx,
}
use elara.ConfigStore.Etcd.{
  resolve_existing_key, build_put_meta, check_put_allowed, lookup_history_at_revision,
}
use elara.ConfigStore.EtcdWrite.{write_put, put_key_tx, put_key}
use elara.ConfigStore.Expected.{new_config, next_config}
use elara.ConfigStore.Writes.{create_tx_ok, update_config_tx_ok, WroteConfig}
use elara.ConfigStore.Writes.Delete.{delete_config_tx_ok, Removed}
use elara.ConfigStore.Writes.Lock.{toggle_config_lock_tx_ok, LockSet}
use elara.ConfigStore.ReadBack.{put_then_read, put_pair, read_key, read_of}
use elara.ConfigStore.Consistent.{IsConsistent}
use elara.ConfigStore.Reach.{start, next, by_put, Reach-IsConsistent}
use elara.ConfigStore.TimeTravel.{lookup_latest, latest, IsTidy}
use elara.Tests.Data.{empty_db, call, prod, app, hello, config}

abbrev pub S : Type 0
S = Db memory_backend

abbrev pub stored : S
stored = (put_key_tx 7 prod app hello empty_db).1

pub stored_ok : put_key_tx {K = memory_backend} 7 prod app hello empty_db ≡ (ok (none, 1), stored)
unfolding empty_table find insert remove from bytes_eq bytes_lt has_prefix has_suffix write_meta
    read_meta write_change write_namespace config_key history_key history_prefix revision_bytes
    big_endian parse_revision big_endian_value find_meta validate_namespace_unlocked
    is_namespace_locked next_revision put_content put_meta delete_content delete_meta write_history
    write_changelog write_config_entry domain_to_config_meta set_defaults put_key_tx
    resolve_existing_key check_put_allowed write_put build_put_meta detect_format_from_path
stored_ok = refl

put_then_read_example :
    (1 ≡ increment (sys_value {K = memory_backend} empty_db sys_revision_key))
    × (read_key {K = memory_backend} prod app empty_db ≡ read_of [] empty_db)
    × (read_key prod app stored ≡ read_of (put_pair prod app hello 1 none ∷ []) stored)
put_then_read_example = put_then_read 7 prod app hello empty_db stored none 1 refl stored_ok

Reach-IsConsistent_example :
    IsConsistent {K = memory_backend} (put_key call prod app hello empty_db).1
unfolding empty_table find parse_revision
Reach-IsConsistent_example = Reach-IsConsistent (
    next empty_db (put_key call prod app hello empty_db).1 (start empty_db (λ key. refl))
      (omega arith) (by_put call prod app hello (λ h. cc h)))

abbrev pub first : Config
first = created (λ c. c) 7 config 1

abbrev pub after_create : S
after_create = (create_tx 7 config empty_db).1

after_create_ok : create_tx {K = memory_backend} 7 config empty_db ≡ (ok first, after_create)
unfolding empty_table find insert remove from bytes_eq bytes_lt has_prefix has_suffix write_meta
    read_meta write_change write_namespace config_key history_key history_prefix revision_bytes
    big_endian parse_revision big_endian_value find_meta validate_namespace_unlocked
    is_namespace_locked next_revision put_content put_meta delete_content delete_meta write_history
    write_changelog write_config_entry domain_to_config_meta set_defaults create_tx exists
    write_created
after_create_ok = refl

create_tx_ok_example :
    (memory_backend.get empty_db.meta (config_key prod app) ≡ none)
    × (first
        ≡ new_config
            (λ c. c)
            7
            config
            (increment (sys_value {K = memory_backend} empty_db sys_revision_key)))
    × WroteConfig {K = memory_backend} empty_db after_create 7 first event_created
create_tx_ok_example = create_tx_ok 7 config empty_db after_create_ok

abbrev pub edited : Config
edited = record first { content = codes "ho" }

abbrev after_update : S
after_update = (update_config_tx 8 edited after_create).1

abbrev row : ConfigMeta
row = record {
  content_hash = hello;
  format = codes "json";
  version = 1;
  revision = 1;
  create_revision = 1;
  metadata = none;
  locked = false;
  created_at = 7;
  updated_at = 7;
}

abbrev second : Config
second = updated (λ c. c) 8 edited row 2

after_update_ok :
    update_config_tx {K = memory_backend} 8 edited after_create ≡ (ok second, after_update)
unfolding empty_table find insert remove from bytes_eq bytes_lt has_prefix has_suffix write_meta
    read_meta write_change write_namespace config_key history_key history_prefix revision_bytes
    big_endian parse_revision big_endian_value find_meta validate_namespace_unlocked
    is_namespace_locked next_revision put_content put_meta delete_content delete_meta write_history
    write_changelog write_config_entry domain_to_config_meta set_defaults create_tx exists
    write_created update_config_tx require_meta write_updated validate_update_preconditions
after_update_ok = refl

update_config_tx_ok_example :
    (m : ConfigMeta) × (find_meta after_create (config_key prod app) ≡ ok (some m))
    × (m.locked ≡ false)
    × (m.version ≡ edited.version)
    × (second
        ≡ next_config (λ c. c) 8 edited m (increment (sys_value after_create sys_revision_key)))
    × WroteConfig after_create after_update 8 second event_updated
unfolding set_defaults
update_config_tx_ok_example = update_config_tx_ok 8 edited after_create after_update_ok

abbrev pub after_delete : S
after_delete = (delete_config_tx 9 app prod stored).1

pub after_delete_ok : delete_config_tx {K = memory_backend} 9 app prod stored ≡ (ok 2, after_delete)
unfolding empty_table find insert remove from bytes_eq bytes_lt has_prefix has_suffix write_meta
    read_meta write_change write_namespace config_key history_key history_prefix revision_bytes
    big_endian parse_revision big_endian_value find_meta validate_namespace_unlocked
    is_namespace_locked next_revision put_content put_meta delete_content delete_meta write_history
    write_changelog write_config_entry domain_to_config_meta set_defaults put_key_tx
    resolve_existing_key check_put_allowed write_put build_put_meta detect_format_from_path
    delete_config_tx require_meta write_deleted
after_delete_ok = refl

delete_config_tx_ok_example :
    (m : ConfigMeta) × (find_meta stored (config_key prod app) ≡ ok (some m))
    × (m.locked ≡ false)
    × Removed stored after_delete 9 prod app 2
delete_config_tx_ok_example = delete_config_tx_ok 9 app prod stored after_delete_ok

abbrev after_lock : S
after_lock = (toggle_config_lock_tx 9 prod app true stored).1

after_lock_ok :
    toggle_config_lock_tx {K = memory_backend} 9 prod app true stored ≡ (ok tt, after_lock)
unfolding empty_table find insert remove from bytes_eq bytes_lt has_prefix has_suffix write_meta
    read_meta write_change write_namespace config_key history_key history_prefix revision_bytes
    big_endian parse_revision big_endian_value find_meta validate_namespace_unlocked
    is_namespace_locked next_revision put_content put_meta delete_content delete_meta write_history
    write_changelog write_config_entry domain_to_config_meta set_defaults put_key_tx
    resolve_existing_key check_put_allowed write_put build_put_meta detect_format_from_path
    toggle_config_lock_tx require_meta set_lock next_lock_seq write_lock_history
after_lock_ok = refl

toggle_config_lock_tx_ok_example :
    (m : ConfigMeta) × (find_meta stored (config_key prod app) ≡ ok (some m))
    × ((m.locked ≡ true) × (after_lock ≡ stored)
        ⊎ (m.locked ≢ true) × LockSet stored after_lock prod app m true)
toggle_config_lock_tx_ok_example = toggle_config_lock_tx_ok 9 prod app true stored after_lock_ok

-- One history entry, of revision 1.
abbrev pub with_history : S
with_history = record empty_db {
  history = memory_backend.put empty_db.history (history_key prod app 1) hello;
}

history_there :
    (k : Bytes)
    → memory_backend.get with_history.history k
      ≡ (if bytes_eq (history_key prod app 1) k then some hello else none)
unfolding empty_table find
history_there k = memory_backend.get-put empty_table (history_key prod app 1) hello k

pub with_history-IsTidy : IsTidy {K = memory_backend} with_history prod app
with_history-IsTidy k v at prefixed = elim (Bool-cases (bytes_eq (history_key prod app 1) k)) [
  | inl same ↦ (1, omega arith, sym ((bytes_eq_iff _ k).0 same))
  | inr other ↦ absurd (not_there (sym (if_false _ _ _ other) ∙ sym (history_there k) ∙ at))
]
  where
    not_there : {v : Bytes} → ¬ (none ≡ some v)
    not_there h = cc h

lookup_latest_example :
    lookup_history_at_revision {K = memory_backend} with_history prod app 5
    ≡ latest with_history prod app 5
lookup_latest_example = lookup_latest with_history prod app 5 with_history-IsTidy (omega arith)
