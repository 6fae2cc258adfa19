-- ===== src/Policies/Retry.antt =====
-- What the retry policies share: scylla/src/policies/retry/retry_policy.rs, and the error that a
-- request attempt fails with (scylla/src/errors.rs).
pub mod Default
pub mod Downgrading
pub mod Fallthrough
pub mod Classes
mod Examples
use scylla_rust_driver.Prelude.{Bool, Option, List}
use scylla_rust_driver.Prelude.{ℕ}
use scylla_rust_driver.Frame.Consistency.{Consistency}
use scylla_rust_driver.Frame.DbError.{DbError}

-- The payloads of the errors that no policy looks into are left out.
pub data RequestAttemptError : Type 0 where
  serialization_error cql_request_serialization unable_to_alloc_stream_id : RequestAttemptError
  broken_connection_error body_extensions_parse_error cql_result_parse_error : RequestAttemptError
  cql_error_parse_error : RequestAttemptError
  db_error : DbError → (message : List ℕ) → RequestAttemptError
  unexpected_response : RequestAttemptError
  reprepared_id_changed reprepared_id_missing_in_batch : RequestAttemptError
  nonfinished_paging_state : RequestAttemptError

pub record RequestInfo : Type 0 where
  pub error : RequestAttemptError
  pub is_idempotent : Bool
  pub consistency : Consistency

pub data RetryDecision : Type 0 where
  retry_same_target retry_next_target : Option Consistency → RetryDecision
  dont_retry ignore_write_error : RetryDecision
