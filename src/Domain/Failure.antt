-- ===== src/Domain/Failure.antt =====
-- The errors of internal/domain/errors.go and internal/storage, without their texts, and those of
-- opening, writing and committing a transaction.
use elara.Prelude.{ℕ}

pub data Failure : Type 0 where
  -- storage.ErrResourceNotFound, storage.ErrResourceAlreadyExists
  resource_not_found resource_already_exists : Failure
  -- domain.ErrLocked, domain.ErrNamespaceLocked
  locked namespace_locked : Failure
  -- domain.NewConflictError(expected, actual)
  version_conflict : ℕ → ℕ → Failure
  -- domain.NewValidationError
  validation : Failure
  -- a schema violation, reported by the schema validator
  schema_invalid : Failure
  -- json.Unmarshal, Bucket.Put, db.Begin and tx.Commit
  decode_failed put_failed begin_failed commit_failed : Failure
  -- domain.ErrNotFound, domain.ErrAlreadyExists, domain.ErrVersionConflict as it is
  not_found already_exists version_mismatch : Failure
  -- domain.ErrSystemImmutable, domain.ErrPermissionEscalation, domain.ErrForbidden
  system_immutable permission_escalation forbidden : Failure
  -- errors of the policy engine: of a query, and of a cache that lags behind the committed rules
  engine_failed cache_desync : Failure
