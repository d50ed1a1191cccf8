-- ===== src/Tests/Kv.antt =====
-- Runs of the transactions of the etcd interface.
use elara.Prelude.{
  ◌≡◌, refl, true, false, none, [], ◌∷◌, ◌++◌, bytes_eq, bytes_lt, has_prefix, has_suffix, int_lt,
}
use elara.Prelude.Outcome.{ok, err}
use elara.Domain.Failure.{validation}
use elara.Domain.Config.{detect_format_from_path}
use elara.Storage.Bolt.Pairs.{find, insert, from}
use elara.Storage.Bolt.Memory.{empty_table}
use elara.Storage.Memory.{memory_backend, write_meta, read_meta, write_change, write_namespace}
use elara.Storage.Tx.{with_tx, with_read_tx, run_write_tx}
use elara.ConfigStore.Keys.{
  config_key, history_key, history_prefix, revision_bytes, big_endian, parse_revision,
  big_endian_value, cut, parse_config_key,
}
use elara.ConfigStore.Db.{
  find_meta, is_namespace_locked, validate_namespace_unlocked, put_content, put_meta, next_revision,
  write_history, write_changelog,
}
use elara.ConfigStore.Etcd.{
  resolve_existing_key, build_put_meta, check_put_allowed, range_query, range_query_tx, range_loop,
  should_break_range, build_range_params, read_kv_value, current_revision_value,
}
use elara.ConfigStore.EtcdWrite.{write_put, put_key_tx, put_key}
use elara.KvService.{
  World, collect_in_tx, range_kvs, range_query_kvs, put_key_kv, put_event, kv_put_config,
}
use elara.KvService.Compare.{
  KvCompare, by_create_revision, equal, compare_kv, compare_pairs, compare_int64,
}
use elara.KvService.Txn.{
  KvTxnInput, KvTxnResult, txn_input, op_then, no_ops, put_op, range_op, unknown_op, txn_result,
  put_result, result_then, no_results, has_writes, ops_write, op_writes, txn, run_ops, run_op,
  run_branches, txn_boundary, eval_compares, eval_compare, header_revision,
}
use elara.KvService.Txn.Events.{events_of_txn}
use elara.KvService.Txn.Atomic.{txn_atomic, txn_publishes, txn_read_only}
use elara.Tests.Data.{empty_world, call, prod, app, hello, any_value}

abbrev W : Type 0
W = World memory_backend

-- The put is made if the key is absent.
abbrev absent_guard : KvCompare
absent_guard = record {
  start_ns = prod;
  start_path = app;
  end_ns = [];
  end_path = [];
  target = by_create_revision;
  relation = equal;
  want_revision = 0;
  want_value = [];
}

abbrev create_if_absent : KvTxnInput
create_if_absent = txn_input (absent_guard ∷ []) (op_then (put_op prod app hello) no_ops) no_ops

abbrev done : W
done = (txn any_value create_if_absent call empty_world).1

abbrev result : KvTxnResult
result = txn_result (result_then (put_result none 1) no_results) 1 true

done_ok : txn any_value create_if_absent call empty_world ≡ (ok result, done)
unfolding empty_table find insert from bytes_eq bytes_lt has_prefix has_suffix int_lt write_meta
    read_meta write_change write_namespace config_key history_key history_prefix revision_bytes
    big_endian parse_revision big_endian_value cut parse_config_key find_meta
    validate_namespace_unlocked is_namespace_locked next_revision put_content put_meta write_history
    write_changelog put_key_tx put_key resolve_existing_key check_put_allowed write_put
    build_put_meta detect_format_from_path with_tx with_read_tx run_write_tx range_query
    range_query_tx range_loop should_break_range build_range_params read_kv_value
    current_revision_value collect_in_tx range_kvs range_query_kvs put_key_kv put_event
    kv_put_config compare_kv compare_pairs compare_int64 has_writes ops_write op_writes txn run_ops
    run_op run_branches txn_boundary eval_compares eval_compare header_revision
done_ok = refl

txn_publishes_example :
    done.published ≡ empty_world.published ++ events_of_txn 7 create_if_absent result
txn_publishes_example =
    txn_publishes any_value create_if_absent call empty_world result done refl done_ok

-- A put, and then an operation that fails.
abbrev broken : KvTxnInput
broken = txn_input [] (op_then (put_op prod app hello) (op_then unknown_op no_ops)) no_ops

abbrev failed : W
failed = (txn any_value broken call empty_world).1

failed_ok : txn any_value broken call empty_world ≡ (err validation, failed)
unfolding empty_table find insert from bytes_eq bytes_lt has_prefix has_suffix int_lt write_meta
    read_meta write_change write_namespace config_key history_key history_prefix revision_bytes
    big_endian parse_revision big_endian_value cut parse_config_key find_meta
    validate_namespace_unlocked is_namespace_locked next_revision put_content put_meta write_history
    write_changelog put_key_tx put_key resolve_existing_key check_put_allowed write_put
    build_put_meta detect_format_from_path with_tx with_read_tx run_write_tx range_query
    range_query_tx range_loop should_break_range build_range_params read_kv_value
    current_revision_value collect_in_tx range_kvs range_query_kvs put_key_kv put_event
    kv_put_config compare_kv compare_pairs compare_int64 has_writes ops_write op_writes txn run_ops
    run_op run_branches txn_boundary eval_compares eval_compare header_revision
failed_ok = refl

txn_atomic_example : (failed.db ≡ empty_world.db) × (failed.published ≡ empty_world.published)
txn_atomic_example =
    txn_atomic any_value broken call empty_world validation failed (λ h. cc h) refl failed_ok

abbrev only_reads : KvTxnInput
only_reads =
    txn_input (absent_guard ∷ [])
      (op_then (range_op prod app [] [] (record { limit = 0; revision = 0; keys_only = false }))
        no_ops)
      no_ops

txn_read_only_example :
    (txn {K = memory_backend} any_value only_reads call empty_world).1 ≡ empty_world
unfolding has_writes ops_write op_writes
txn_read_only_example = txn_read_only any_value only_reads call empty_world refl
