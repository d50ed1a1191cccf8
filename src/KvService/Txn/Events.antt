-- ===== src/KvService/Txn/Events.antt =====
-- internal/usecase/config/service_txn.go: the notifications that the results of a transaction call for,
-- read off the operations of the branch that was taken and their results.
use elara.Prelude.{
  ℕ, ◌+◌, ◌%◌, ◌^◌, ◌≡◌, refl, ap, Bytes, Bool, true, false, Option, none, some, List, [], ◌∷◌,
  ◌++◌, map, if◌then◌else◌, arith,
}
use elara.Domain.Config.{Format, KvPair, detect_format_from_path}
use elara.KvService.{
  Event, notify_created, notify_updated, notify_deleted, put_event, deleted_event, kv_put_config,
}
use elara.KvService.Txn.{
  KvOp, KvOps, KvTxnInput, KvOpResult, KvOpResults, KvTxnResult, range_op, put_op, delete_range_op,
  txn_op, empty_txn_op, unknown_op, no_ops, op_then, txn_input, range_result, put_result,
  delete_range_result, txn_op_result, no_results, result_then, txn_result, has_writes, ops_write,
  op_writes,
}

-- The call of the watcher that a put of a key calls for, field by field: the first version of a key is
-- created, and every later one is updated.
unfoldable pub expected_put : ℕ → Bytes → Bytes → Bytes → Format → Option KvPair → ℕ → Event
expected_put now namespace path value format none revision = notify_created (record {
  path = path;
  content = value;
  content_hash = [];
  format = format;
  version = 1;
  revision = revision;
  create_revision = revision;
  namespace = namespace;
  metadata = none;
  locked = false;
  namespace_locked = false;
  created_at = now;
  updated_at = now;
})
expected_put now namespace path value format (some prev) revision = notify_updated (record {
  path = path;
  content = value;
  content_hash = [];
  format = format;
  version = (prev.version + 1) % 2 ^ 64;
  revision = revision;
  create_revision = prev.create_revision;
  namespace = namespace;
  metadata = none;
  locked = false;
  namespace_locked = false;
  created_at = 0;
  updated_at = now;
})

pub put_event-expected :
    (now : ℕ) (namespace path value : Bytes) (format : Format) (p : Option KvPair × ℕ)
    → put_event now namespace path value format p
      ≡ expected_put now namespace path value format p.0 p.1
unfolding put_event expected_put kv_put_config
put_event-expected now namespace path value format (none, revision) = refl
put_event-expected now namespace path value format (some prev, revision) = refl

-- The calls that the deletion of keys calls for, one for each key, in order.
unfoldable pub expected_deletes : ℕ → List KvPair → List Event
expected_deletes revision [] = []
expected_deletes revision (kv ∷ kvs) =
    notify_deleted kv.path kv.namespace revision ∷ expected_deletes revision kvs

pub deleted_events-expected :
    (revision : ℕ) (kvs : List KvPair)
    → map (deleted_event revision) kvs ≡ expected_deletes revision kvs
unfolding expected_deletes
deleted_events-expected revision [] = refl
deleted_events-expected revision (kv ∷ kvs) =
    ap (λ l. notify_deleted kv.path kv.namespace revision ∷ l)
      (deleted_events-expected revision kvs)

-- Of the branch that was taken.
abbrev pub branch_events :
    (KvOpResults → List Event) → (KvOpResults → List Event) → KvTxnResult → List Event
branch_events on_success on_failure (txn_result responses revision succeeded) =
    if succeeded then on_success responses else on_failure responses

unfoldable mutual
  unfolding expected_put expected_deletes

  pub events_of_txn : ℕ → KvTxnInput → KvTxnResult → List Event
  events_of_txn now (txn_input compares success failure) res =
      branch_events (events_of_ops now success) (events_of_ops now failure) res

  pub events_of_ops : ℕ → KvOps → KvOpResults → List Event
  events_of_ops now no_ops _ = []
  events_of_ops now (op_then op ops) no_results = []
  events_of_ops now (op_then op ops) (result_then res results) =
      events_of_op now op res ++ events_of_ops now ops results

  pub events_of_op : ℕ → KvOp → KvOpResult → List Event
  events_of_op now (put_op namespace path value) (put_result prev revision) =
      expected_put now namespace path value (detect_format_from_path path) prev revision ∷ []
  events_of_op now (delete_range_op start_ns start_path end_ns end_path return_prev)
        (delete_range_result deleted revision) =
      expected_deletes revision deleted
  events_of_op now (txn_op input) (txn_op_result res) = events_of_txn now input res
  events_of_op now _ _ = []

append_nil : {A : Type 0} (a b : List A) → a ≡ [] → b ≡ [] → a ++ b ≡ []
append_nil a b ha hb = rw (ha, hb) refl

both_nil : {A : Type 0} (b : Bool) (x y : List A) → x ≡ [] → y ≡ [] → (if b then x else y) ≡ []
both_nil true x y p q = p
both_nil false x y p q = q

mutual
  unfolding events_of_txn events_of_ops events_of_op has_writes ops_write op_writes

  -- A transaction without writes has nothing to notify of.
  pub events_of_txn-nil :
      (input : KvTxnInput) (now : ℕ) (res : KvTxnResult)
      → has_writes input ≡ false
      → events_of_txn now input res ≡ []
  events_of_txn-nil (txn_input compares success failure) now
        (txn_result responses revision succeeded) h =
      both_nil succeeded _ _ (events_of_ops-nil success now responses (ground arith))
        (events_of_ops-nil failure now responses (ground arith))

  events_of_ops-nil :
      (ops : KvOps) (now : ℕ) (results : KvOpResults)
      → ops_write ops ≡ false
      → events_of_ops now ops results ≡ []
  events_of_ops-nil no_ops now _ h = refl
  events_of_ops-nil (op_then op ops) now no_results h = refl
  events_of_ops-nil (op_then op ops) now (result_then res results) h =
      append_nil (events_of_op now op res) (events_of_ops now ops results)
        (events_of_op-nil op now res (ground arith))
        (events_of_ops-nil ops now results (ground arith))

  events_of_op-nil :
      (op : KvOp) (now : ℕ) (res : KvOpResult) → op_writes op ≡ false → events_of_op now op res ≡ []
  events_of_op-nil (range_op a b c d opts) now res h = refl
  events_of_op-nil (put_op a b c) now res h = absurd (cc h)
  events_of_op-nil (delete_range_op a b c d r) now res h = absurd (cc h)
  events_of_op-nil (txn_op input) now (range_result kvs revision more) h = refl
  events_of_op-nil (txn_op input) now (put_result prev revision) h = refl
  events_of_op-nil (txn_op input) now (delete_range_result deleted revision) h = refl
  events_of_op-nil (txn_op input) now (txn_op_result res) h = events_of_txn-nil input now res h
  events_of_op-nil empty_txn_op now res h = refl
  events_of_op-nil unknown_op now res h = refl
