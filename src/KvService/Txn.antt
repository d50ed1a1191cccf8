-- ===== src/KvService/Txn.antt =====
-- internal/usecase/config/service_txn.go: the transactions of the etcd interface.
pub mod Quiet
pub mod Hushed
pub mod Events
pub mod Emits
pub mod Atomic
use elara.Prelude.{
  ℕ, Bytes, int_lt, Bool, true, false, ◌||◌, Option, none, some, List, [], ◌∷◌, ◌==◌, if◌then◌else◌,
}
use elara.Prelude.Outcome.{Outcome, ok, err}
use elara.Domain.Failure.{Failure, validation}
use elara.Domain.Config.{KvPair, Format}
use elara.Storage.Backend.{Backend}
use elara.Storage.Tx.{Run, Ctx, ◌>>=◌, ◌>>◌, pure, fail, with_tx}
use elara.ConfigStore.Etcd.{current_revision_value}
use elara.KvService.{
  World, RangeOpts, on_db, collect_in_tx, range_kvs, range_query_kvs, put_key_kv,
  delete_range_keys_kv,
}
use elara.KvService.Compare.{KvCompare, compare_pairs}

-- An operation with its arguments; a nil nested transaction and a number outside the enumeration of
-- the kinds are constructors of their own.
mutual
  pub data KvOp : Type 0 where
    range_op : Bytes → Bytes → Bytes → Bytes → RangeOpts → KvOp
    put_op : Bytes → Bytes → Bytes → KvOp
    delete_range_op : Bytes → Bytes → Bytes → Bytes → Bool → KvOp
    txn_op : KvTxnInput → KvOp
    empty_txn_op unknown_op : KvOp

  pub data KvOps : Type 0 where
    no_ops : KvOps
    op_then : KvOp → KvOps → KvOps

  -- compare, success, failure
  pub data KvTxnInput : Type 0 where
    txn_input : List KvCompare → KvOps → KvOps → KvTxnInput

-- The revision of a nested transaction's result is held beside it.
mutual
  pub data KvOpResult : Type 0 where
    range_result : List KvPair → ℕ → Bool → KvOpResult
    put_result : Option KvPair → ℕ → KvOpResult
    delete_range_result : List KvPair → ℕ → KvOpResult
    txn_op_result : KvTxnResult → KvOpResult

  pub data KvOpResults : Type 0 where
    no_results : KvOpResults
    result_then : KvOpResult → KvOpResults → KvOpResults

  -- responses, revision, succeeded
  pub data KvTxnResult : Type 0 where
    txn_result : KvOpResults → ℕ → Bool → KvTxnResult

abbrev pub revision_of : KvTxnResult → ℕ
revision_of (txn_result responses revision succeeded) = revision

unfoldable mutual
  pub has_writes : KvTxnInput → Bool
  has_writes (txn_input compares success failure) = ops_write success || ops_write failure

  pub ops_write : KvOps → Bool
  ops_write no_ops = false
  ops_write (op_then op ops) = op_writes op || ops_write ops

  pub op_writes : KvOp → Bool
  op_writes (range_op start_ns start_path end_ns end_path opts) = false
  op_writes (put_op namespace path value) = true
  op_writes (delete_range_op start_ns start_path end_ns end_path return_prev) = true
  op_writes (txn_op input) = has_writes input
  op_writes empty_txn_op = false
  op_writes unknown_op = false

unfoldable pub revision_from_responses : KvOpResults → ℕ
unfolding int_lt
revision_from_responses no_results = 0
revision_from_responses (result_then (range_result kvs revision more) rest) =
    if int_lt 0 revision then revision else revision_from_responses rest
revision_from_responses (result_then (txn_op_result res) rest) =
    if int_lt 0 (revision_of res) then revision_of res else revision_from_responses rest
revision_from_responses (result_then (put_result prev revision) rest) = revision_from_responses rest
revision_from_responses (result_then (delete_range_result deleted revision) rest) =
    revision_from_responses rest

abbrev later : ℕ → ℕ → ℕ
later last rev = if int_lt last rev then rev else last

-- The results so far are put in front; the last revision is that of the first operation or later.
abbrev result_and : KvOpResult → KvOpResults × ℕ → KvOpResults × ℕ
result_and res (results, last) = (result_then res results, last)

module _ {K : Backend} where
  unfoldable pub eval_compare : Ctx → KvCompare → Run (World K) Bool
  unfolding range_kvs compare_pairs
  eval_compare ctx cmp = do
    (kvs, more) ←
        range_kvs ctx cmp.start_ns cmp.start_path cmp.end_ns cmp.end_path
          (record { limit = 0; revision = 0; keys_only = false })
    pure (compare_pairs cmp kvs)

  unfoldable pub eval_compares : Ctx → List KvCompare → Run (World K) Bool
  unfolding eval_compare
  eval_compares ctx [] = pure true
  eval_compares ctx (cmp ∷ compares) = do
    held ← eval_compare ctx cmp
    if held then eval_compares ctx compares else pure false

  -- The revision of the header: that of a write, else one that a read has seen, else the store's.
  unfoldable pub header_revision : Ctx → KvOpResults → ℕ → Run (World K) ℕ
  unfolding revision_from_responses
  header_revision ctx responses last =
      if last == 0
      then (if revision_from_responses responses == 0
          then on_db (current_revision_value ctx)
          else pure (revision_from_responses responses))
      else pure last

  -- runTxn, given its two branches
  unfoldable pub run_branches :
      Ctx
      → List KvCompare
      → (Ctx → Run (World K) (KvOpResults × ℕ))
      → (Ctx → Run (World K) (KvOpResults × ℕ))
      → Run (World K) KvTxnResult
  unfolding eval_compares header_revision
  run_branches ctx compares success failure = do
    succeeded ← eval_compares ctx compares
    (responses, last) ← if succeeded then success ctx else failure ctx
    revision ← header_revision ctx responses last
    pure (txn_result responses revision succeeded)

  -- The boundary of Txn: a transaction that may write takes the writable one and collects events.
  unfoldable pub txn_boundary :
      Bool → Ctx → (Ctx → Run (World K) KvTxnResult) → Run (World K) KvTxnResult
  unfolding collect_in_tx
  txn_boundary false ctx body = body ctx
  txn_boundary true ctx body = collect_in_tx ctx body

  module _ (validate : Bytes → Bytes → Bytes → Format → Outcome Failure (Unit {0})) where
    unfoldable mutual
      unfolding run_branches txn_boundary range_query_kvs put_key_kv delete_range_keys_kv has_writes

      pub txn : KvTxnInput → Ctx → Run (World K) KvTxnResult
      txn (txn_input compares success failure) ctx =
          txn_boundary (has_writes (txn_input compares success failure)) ctx
            (λ tx. run_branches tx compares (run_ops success 0) (run_ops failure 0))

      pub run_ops : KvOps → ℕ → Ctx → Run (World K) (KvOpResults × ℕ)
      run_ops no_ops last ctx = pure (no_results, last)
      run_ops (op_then op ops) last ctx = do
        (res, rev) ← run_op op ctx
        rest ← run_ops ops (later last rev) ctx
        pure (result_and res rest)

      pub run_op : KvOp → Ctx → Run (World K) (KvOpResult × ℕ)
      run_op (range_op start_ns start_path end_ns end_path opts) ctx = do
        (kvs, rev, more) ← range_query_kvs ctx start_ns start_path end_ns end_path opts
        pure (range_result kvs rev more, 0)
      run_op (put_op namespace path value) ctx = do
        (prev, rev) ← put_key_kv validate ctx namespace path value
        pure (put_result prev rev, rev)
      run_op (delete_range_op start_ns start_path end_ns end_path return_prev) ctx = do
        (deleted, rev) ← delete_range_keys_kv ctx start_ns start_path end_ns end_path return_prev
        pure (delete_range_result deleted rev, rev)
      run_op (txn_op input) ctx = do res ← txn input ctx; pure (txn_op_result res, revision_of res)
      run_op empty_txn_op ctx = fail validation
      run_op unknown_op ctx = fail validation
