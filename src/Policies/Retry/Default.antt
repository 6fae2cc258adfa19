-- ===== src/Policies/Retry/Default.antt =====
-- `DefaultRetrySession`: scylla/src/policies/retry/default.rs.
pub mod Safety
pub mod Budget
use scylla_rust_driver.Prelude.{Bool, true, false, not, ◌&&◌, none, if◌then◌else◌}
use scylla_rust_driver.Prelude.Int.{leb_ℤ}
use scylla_rust_driver.Frame.Consistency.{is_serial}
use scylla_rust_driver.Frame.DbError.{DbError, WriteType}
use scylla_rust_driver.Policies.Retry.{RequestAttemptError, RequestInfo, RetryDecision}
use scylla_rust_driver.Policies.Retry.RetryDecision.{
  retry_same_target, retry_next_target, dont_retry,
}

pub record DefaultRetrySession : Type 0 where
  pub was_unavailable_retry : Bool
  pub was_read_timeout_retry : Bool
  pub was_write_timeout_retry : Bool

abbrev pub new : DefaultRetrySession
new = record {
  was_unavailable_retry = false;
  was_read_timeout_retry = false;
  was_write_timeout_retry = false;
}

-- `*write_type == WriteType::BatchLog`.
abbrev is_batch_log : WriteType → Bool
is_batch_log WriteType.batch_log = true
is_batch_log _ = false

-- Another node may serve an idempotent request.
abbrev next_if_idempotent : DefaultRetrySession → Bool → DefaultRetrySession × RetryDecision
next_if_idempotent s is_idempotent =
    (s, if is_idempotent then retry_next_target none else dont_retry)

-- The match of `decide_should_retry` on the error.
unfoldable pub decide_on_error :
    DefaultRetrySession → RequestAttemptError → Bool → DefaultRetrySession × RetryDecision
decide_on_error s RequestAttemptError.broken_connection_error idem = next_if_idempotent s idem
decide_on_error s (RequestAttemptError.db_error DbError.overloaded _) idem =
    next_if_idempotent s idem
decide_on_error s (RequestAttemptError.db_error DbError.server_error _) idem =
    next_if_idempotent s idem
decide_on_error s (RequestAttemptError.db_error DbError.truncate_error _) idem =
    next_if_idempotent s idem
decide_on_error s (RequestAttemptError.db_error (DbError.unavailable _ _ _) _) idem =
    if not s.was_unavailable_retry
    then (record s { was_unavailable_retry = true }, retry_next_target none)
    else (s, dont_retry)
decide_on_error s
      (RequestAttemptError.db_error (DbError.read_timeout _ received required data_present) _)
      idem =
    if not s.was_read_timeout_retry && (leb_ℤ required received && not data_present)
    then (record s { was_read_timeout_retry = true }, retry_same_target none)
    else (s, dont_retry)
decide_on_error s (RequestAttemptError.db_error (DbError.write_timeout _ _ _ write_type) _) idem =
    if not s.was_write_timeout_retry && (idem && is_batch_log write_type)
    then (record s { was_write_timeout_retry = true }, retry_same_target none)
    else (s, dont_retry)
decide_on_error s (RequestAttemptError.db_error DbError.is_bootstrapping _) idem =
    (s, retry_next_target none)
decide_on_error s RequestAttemptError.unable_to_alloc_stream_id idem = (s, retry_next_target none)
decide_on_error s _ idem = (s, dont_retry)

unfoldable pub decide_should_retry :
    DefaultRetrySession → RequestInfo → DefaultRetrySession × RetryDecision
unfolding decide_on_error is_serial
decide_should_retry s request_info =
    if is_serial request_info.consistency
    then (s, dont_retry)
    else decide_on_error s request_info.error request_info.is_idempotent

unfoldable pub reset : DefaultRetrySession → DefaultRetrySession
reset s = new
