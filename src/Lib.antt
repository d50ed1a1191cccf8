-- ===== src/Lib.antt =====
-- Elara, a configuration store with an etcd-compatible interface: a model of its core, with proofs.
--
-- The program keeps configs, each a namespace and a path, in the buckets of one bbolt file. The
-- repository (internal/storage/bbolt/config) reads and writes the buckets inside of transactions of
-- pkg/bbolt; the use cases (internal/usecase/config) call it, inside of transactions of their own that
-- the repository joins, and notify watchers after the commit; the handlers (internal/handler/etcdv3)
-- translate the keys of etcd into namespaces and paths.
--
-- Prelude: Boolean tests, lists, byte strings and results that all parts share. A text is a byte
-- string, and an int64 revision or version is its uint64 bit pattern, with the wrap of additions and
-- the signed order written out.
-- Domain: internal/domain/config.go, watch.go, common.go and errors.go (Domain/Config, Domain/Failure;
-- errors without their texts) and the stored rows of internal/storage/internal (Domain/Row).
-- Storage/Bolt: go.etcd.io/bbolt, which is not part of the repository: a parameter, the record Bolt of
-- Storage/Bolt/Api, with the documented behaviour of buckets and cursors as laws; Storage/Bolt/Memory
-- is an instance, and Storage/Bolt/Seek says where a cursor stands.
-- Storage/Backend: the parameter of the repository: Bolt, the digest, and the JSON encoders of the
-- rows, which give back what was written up to the repair of text that is not UTF-8.
-- Storage/Tx: pkg/bbolt/manager.go. An operation is a function of the state of the open transaction,
-- with a result or an error beside the state that it leaves; WithTx joins a writable transaction, or
-- opens one and rolls it back on an error; opening and committing can fail. Panics are not modelled.
-- ConfigStore: internal/storage/bbolt/config. Keys is keys.go; Db and Write are repository.go; Etcd and
-- EtcdWrite are etcd.go; one field of Db for each bucket. The other modules are the proofs: Rows and
-- Writes (what each write leaves), Consistent and Reach (the invariant of all reachable states),
-- PointRead, ReadBack and Frame (reads after writes), TimeTravel (reads at a revision), Decisions
-- (when a write succeeds, and with which error it ends otherwise; Expected has what it returns),
-- RangeChanges (the changelog after
-- a DeleteRange). Read is the lists, pages and the search of repository.go, with proofs in Read/Cache
-- and Read/Page; History is its history and changelog, with proofs in History/Changes and
-- History/AtRevision. strings.ToLower and sort.Slice are parameters.
-- KvService: internal/usecase/config/service_kv.go, kv_events.go and service_txn.go. World is the
-- buckets, the collector of the pending notifications and the calls that the watcher has had. The
-- schema validator is a parameter. Loops over compares and operations, and nested transactions, are
-- structural recursion, so there is no fuel anywhere in the model. A validator that reads the database is
-- left out: the parameter is a function of the namespace, the path and the content.
-- EtcdKey: internal/handler/etcdv3/keyencoding.go.
-- RingBuffer: internal/util/ringbuffer/ringbuffer.go; its mutex makes each call one step.
-- Watch: internal/transport/watch/publisher.go, with the buffers of its channels as lists; the runtime's
-- panics on closed channels are results. Notify, Close, WellFormed, Reach and Delivery are the proofs.
-- Notifications, which hold only the read lock, come one after the other here, and the number of the
-- last subscription, an int, is not thought to overflow.
-- SliceUtil: internal/util/sliceutil.
-- Authz: the rules of internal/domain/rbac.go (Rbac), the policy repository of
-- internal/storage/bbolt/policy (Policies), the enforcer of internal/service/auth/casbin (Enforcer) and the
-- points of internal/service/authz (Points). github.com/casbin/casbin is not part of the repository: it is
-- the parameter Engine, with its model of rules in memory and the documented effect of its calls as laws.
-- A write works on the buckets and records what it has done; after the commit the record is applied to the
-- model, which the decisions read; commit and application are one step here, although no lock joins them.
-- Synced, Agreement, Tracked and Deletion are the proofs.
-- Groups: internal/usecase/group and internal/storage/bbolt/group, with the catalog of
-- internal/usecase/filter; the creation of a group is in Groups/Create. Proofs are in Groups/Escalation,
-- Groups/Creation, Groups/Agreement and Groups/Deletion, with their lemmas in Groups/Deltas,
-- Groups/Stored and Groups/Checks.
-- Tests: concrete runs.
--
-- Not modelled: the other repositories and use cases, the reads of groups by name and in lists,
-- authentication, webhooks, metrics, gRPC handlers and the user interface;
-- the time of day is a field of the context.
pub mod Prelude
pub mod Domain
pub mod Storage
pub mod ConfigStore
pub mod KvService
pub mod EtcdKey
pub mod RingBuffer
pub mod Watch
pub mod Groups
pub mod Authz
pub mod SliceUtil
pub mod Tests
