-- ===== src/Policies/Retry/Downgrading/Safety.antt =====
-- When the downgrading policy sends a request again, and when it takes a write for done.
use scylla_rust_driver.Prelude.{◌≡◌, refl, Bool, true, false, arith}
use scylla_rust_driver.Prelude.Int.{pos, ltb_ℤ}
use scylla_rust_driver.Frame.Consistency.{Consistency}
use scylla_rust_driver.Frame.DbError.{DbError, WriteType}
use scylla_rust_driver.Policies.Retry.{RequestAttemptError, RequestInfo}
use scylla_rust_driver.Policies.Retry.Classes.{made_no_write, sends_again}
use scylla_rust_driver.Policies.Retry.Downgrading.{
  DowngradingConsistencyRetrySession, decide_on_error, decide_on_serial, decide_should_retry,
}

resend_on_error :
    (s : DowngradingConsistencyRetrySession) (e : RequestAttemptError) (cl : Consistency)
    → sends_again (decide_on_error s e false cl).1 ≡ true
    → made_no_write e ≡ true
unfolding decide_on_error
resend_on_error s (RequestAttemptError.db_error DbError.overloaded _) cl h = ground arith
resend_on_error s (RequestAttemptError.db_error (DbError.unavailable _ _ _) _) cl h = refl
resend_on_error s (RequestAttemptError.db_error (DbError.read_timeout _ _ _ _) _) cl h = refl
resend_on_error s (RequestAttemptError.db_error _ _) cl h = ground arith
resend_on_error s RequestAttemptError.unable_to_alloc_stream_id cl h = refl
resend_on_error s _ cl h = ground arith

resend_on_serial :
    (e : RequestAttemptError) → sends_again (decide_on_serial e) ≡ true → made_no_write e ≡ true
unfolding decide_on_serial
resend_on_serial (RequestAttemptError.db_error (DbError.unavailable _ _ _) _) h = refl
resend_on_serial (RequestAttemptError.db_error _ _) h = ground arith
resend_on_serial _ h = ground arith

-- A request that is not known to be idempotent is sent again only after an error that says that it
-- made no write.
pub resend_is_safe_downgrading :
    (s : DowngradingConsistencyRetrySession) (info : RequestInfo)
    → info.is_idempotent ≡ false
    → sends_again (decide_should_retry s info).1 ≡ true
    → made_no_write info.error ≡ true
unfolding decide_should_retry
resend_is_safe_downgrading s info h e =
    ground (arith, resend_on_error s info.error info.consistency, resend_on_serial info.error)

-- The write that the error reports reached a replica, and was no batch without a log.
abbrev pub reached_a_replica : RequestAttemptError → Bool
reached_a_replica (RequestAttemptError.db_error (DbError.write_timeout _ r _ WriteType.simple) _) =
    ltb_ℤ (pos 0) r
reached_a_replica (RequestAttemptError.db_error (DbError.write_timeout _ r _ WriteType.batch) _) =
    ltb_ℤ (pos 0) r
reached_a_replica _ = false
