-- ===== src/Tests/Writes.antt =====
-- Runs of the writes of the repository, their errors, and reads elsewhere.
use elara.Prelude.{Bytes, ◌≡◌, refl, none, some, [], ◌∷◌, codes, bytes_eq}
use elara.Domain.Config.{event_deleted, set_defaults}
use elara.Storage.Memory.{memory_backend}
use elara.ConfigStore.Keys.{config_key, history_key, history_prefix, revision_bytes, big_endian}
use elara.ConfigStore.Rows.{change_row}
use elara.ConfigStore.RangeChanges.{delete_targets-change}
use elara.Prelude.Outcome.{ok}
use elara.ConfigStore.Db.{
  delete_content, delete_meta, write_changelog, find_meta, validate_namespace_unlocked,
}
use elara.ConfigStore.Write.{create_tx, update_config_tx, delete_config_tx}
use elara.ConfigStore.EtcdWrite.{put_key_tx, DeleteTarget, delete_targets}
use elara.ConfigStore.ReadBack.{read_key, read_of}
use elara.ConfigStore.Expected.{new_config, next_config}
use elara.ConfigStore.Decisions.{
  next_of, create_decision, row_decision, update_test, delete_test, put_decision, put_returns,
  create_decides, update_decides, delete_decides, put_decides,
}
use elara.ConfigStore.Frame.{put_elsewhere, delete_then_read}
use elara.Tests.Data.{empty_db, prod, app, hello, config}
use elara.Tests.Store.{S, stored, stored_ok, after_delete, after_delete_ok, after_create, first}

-- The key is taken.
create_decides_example :
    (create_tx 7 config stored).0
    ≡ create_decision
        (validate_namespace_unlocked prod stored).0
        (memory_backend.get stored.meta (config_key prod app))
        (new_config (λ c. c) 7 config (next_of stored))
unfolding config_key history_key history_prefix revision_bytes
create_decides_example = create_decides {K = memory_backend} 7 config stored (record {
  change = record { at_sys = refl; at_change = refl };
  at_content = refl;
  at_meta = refl;
  at_history = refl;
})

update_decides_example :
    (update_config_tx 8 first after_create).0
    ≡ row_decision
        (validate_namespace_unlocked first.namespace after_create).0
        (find_meta after_create (config_key first.namespace first.path))
        (update_test 1 (λ m. next_config (λ c. c) 8 first m (next_of after_create)))
unfolding config_key history_key history_prefix revision_bytes set_defaults
update_decides_example = update_decides {K = memory_backend} 8 first after_create (λ m found.
    record {
      change = record { at_sys = refl; at_change = refl };
      at_content = refl;
      at_meta = refl;
      at_history = refl;
    })

delete_decides_example :
    (delete_config_tx 9 app prod stored).0
    ≡ row_decision
        (validate_namespace_unlocked prod stored).0
        (find_meta stored (config_key prod app))
        (delete_test (next_of stored))
unfolding revision_bytes
delete_decides_example =
    delete_decides {K = memory_backend} 9 app prod stored
      (record { at_sys = refl; at_change = refl })

put_decides_example :
    (put_key_tx 9 prod app hello stored).0
    ≡ put_decision
        (find_meta stored (config_key prod app))
        (validate_namespace_unlocked prod stored).0
        (put_returns prod app stored)
unfolding config_key history_key history_prefix revision_bytes
put_decides_example = put_decides {K = memory_backend} 9 prod app hello stored (λ found at. record {
  change = record { at_sys = refl; at_change = refl };
  at_content = refl;
  at_meta = refl;
  at_history = refl;
})

put_elsewhere_example :
    (read_key prod (codes "/b") stored).0
    ≡ (read_key {K = memory_backend} prod (codes "/b") empty_db).0
unfolding bytes_eq
put_elsewhere_example =
    put_elsewhere 7 prod app hello prod (codes "/b") empty_db stored (none, 1) refl refl refl
      stored_ok

delete_then_read_example :
    (read_key prod app after_delete ≡ read_of [] after_delete)
    × ((read_key prod (codes "/b") after_delete).0 ≡ (read_key prod (codes "/b") stored).0)
unfolding bytes_eq
delete_then_read_example =
    delete_then_read 9 app prod (codes "/b") prod stored after_delete 2 refl refl refl
      after_delete_ok

abbrev target : Bytes → DeleteTarget
target path = record {
  key = config_key prod path;
  kv = record {
    namespace = prod;
    path = path;
    value = [];
    create_revision = 0;
    mod_revision = 0;
    version = 0;
  };
}

abbrev after_range : S
after_range = (delete_targets 9 3 (target app ∷ target (codes "/b") ∷ []) stored).1

after_range_ok :
    delete_targets {K = memory_backend} 9 3 (target app ∷ target (codes "/b") ∷ []) stored
    ≡ (ok tt, after_range)
unfolding delete_targets delete_content delete_meta write_changelog revision_bytes big_endian
after_range_ok = refl

delete_targets-change_example :
    memory_backend.get after_range.changelog (revision_bytes 3)
    ≡ some (memory_backend.encode_change (change_row 9 event_deleted (codes "/b") prod 0))
delete_targets-change_example =
    delete_targets-change 9 3 (target app ∷ []) (target (codes "/b")) stored after_range tt
      after_range_ok
