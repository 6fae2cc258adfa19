-- ===== src/Policies/Retry/Downgrading.antt =====
-- `DowngradingConsistencyRetrySession`: scylla/src/policies/retry/downgrading_consistency.rs.
pub mod Safety
pub mod Levels
use scylla_rust_driver.Prelude.{Bool, true, false, not, ◌&&◌, ◌||◌, none, some, if◌then◌else◌}
use scylla_rust_driver.Prelude.Int.{ℤ, pos, leb_ℤ, ltb_ℤ}
use scylla_rust_driver.Frame.Consistency.{Consistency, is_serial}
use scylla_rust_driver.Frame.DbError.{DbError, WriteType}
use scylla_rust_driver.Policies.Retry.{RequestAttemptError, RequestInfo, RetryDecision}
use scylla_rust_driver.Policies.Retry.RetryDecision.{
  retry_same_target, retry_next_target, dont_retry, ignore_write_error,
}

pub record DowngradingConsistencyRetrySession : Type 0 where
  pub was_retry : Bool

abbrev pub new : DowngradingConsistencyRetrySession
new = record { was_retry = false }

abbrev is_each_quorum : Consistency → Bool
is_each_quorum Consistency.each_quorum = true
is_each_quorum _ = false

-- `x == n` on an `i32`.
abbrev eq_ℤ : ℤ → ℤ → Bool
eq_ℤ a b = leb_ℤ a b && leb_ℤ b a

unfoldable pub max_likely_to_work_cl : ℤ → Consistency → RetryDecision
max_likely_to_work_cl known_ok previous_cl =
    if leb_ℤ (pos 3) known_ok
    then retry_same_target (some Consistency.three)
    else if eq_ℤ known_ok (pos 2)
    then retry_same_target (some Consistency.two)
    else if eq_ℤ known_ok (pos 1) || is_each_quorum previous_cl
    then retry_same_target (some Consistency.one)
    else dont_retry

-- The match on the type of a write that timed out.
unfoldable pub decide_on_write : WriteType → ℤ → Consistency → RetryDecision
unfolding max_likely_to_work_cl
decide_on_write WriteType.batch received cl =
    if ltb_ℤ (pos 0) received then ignore_write_error else dont_retry
decide_on_write WriteType.simple received cl =
    if ltb_ℤ (pos 0) received then ignore_write_error else dont_retry
decide_on_write WriteType.unlogged_batch received cl = max_likely_to_work_cl received cl
decide_on_write WriteType.batch_log received cl = retry_same_target none
decide_on_write _ received cl = dont_retry

-- The early return for serial consistency levels.
unfoldable pub decide_on_serial : RequestAttemptError → RetryDecision
decide_on_serial (RequestAttemptError.db_error (DbError.unavailable _ _ _) _) =
    retry_next_target none
decide_on_serial _ = dont_retry

abbrev next_if_idempotent :
    DowngradingConsistencyRetrySession → Bool → DowngradingConsistencyRetrySession × RetryDecision
next_if_idempotent s idem = (s, if idem then retry_next_target none else dont_retry)

abbrev retried : DowngradingConsistencyRetrySession
retried = record { was_retry = true }

-- The match of `decide_should_retry` on the error, at a level `cl` that is not serial.
unfoldable pub decide_on_error :
    DowngradingConsistencyRetrySession
    → RequestAttemptError
    → Bool
    → Consistency
    → DowngradingConsistencyRetrySession × RetryDecision
unfolding max_likely_to_work_cl decide_on_write
decide_on_error s RequestAttemptError.broken_connection_error idem cl = next_if_idempotent s idem
decide_on_error s (RequestAttemptError.db_error DbError.overloaded _) idem cl =
    next_if_idempotent s idem
decide_on_error s (RequestAttemptError.db_error DbError.server_error _) idem cl =
    next_if_idempotent s idem
decide_on_error s (RequestAttemptError.db_error DbError.truncate_error _) idem cl =
    next_if_idempotent s idem
decide_on_error s (RequestAttemptError.db_error (DbError.unavailable _ _ alive) _) idem cl =
    if not s.was_retry then (retried, max_likely_to_work_cl alive cl) else (s, dont_retry)
decide_on_error s
      (RequestAttemptError.db_error (DbError.read_timeout _ received required data_present) _) idem
      cl =
    if s.was_retry
    then (s, dont_retry)
    else if ltb_ℤ received required
    then (retried, max_likely_to_work_cl received cl)
    else if not data_present
    then (retried, retry_same_target none)
    else (s, dont_retry)
decide_on_error s (RequestAttemptError.db_error (DbError.write_timeout _ received _ write_type) _)
      idem cl =
    if s.was_retry || not idem
    then (s, dont_retry)
    else (retried, decide_on_write write_type received cl)
decide_on_error s (RequestAttemptError.db_error DbError.is_bootstrapping _) idem cl =
    (s, retry_next_target none)
decide_on_error s RequestAttemptError.unable_to_alloc_stream_id idem cl =
    (s, retry_next_target none)
decide_on_error s _ idem cl = (s, dont_retry)

unfoldable pub decide_should_retry :
    DowngradingConsistencyRetrySession
    → RequestInfo
    → DowngradingConsistencyRetrySession × RetryDecision
unfolding decide_on_error decide_on_serial is_serial
decide_should_retry s request_info =
    if is_serial request_info.consistency
    then (s, decide_on_serial request_info.error)
    else decide_on_error s request_info.error request_info.is_idempotent request_info.consistency

unfoldable pub reset : DowngradingConsistencyRetrySession → DowngradingConsistencyRetrySession
reset s = new
