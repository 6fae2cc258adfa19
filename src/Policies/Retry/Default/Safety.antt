-- ===== src/Policies/Retry/Default/Safety.antt =====
-- What the default policy may ask for.
use scylla_rust_driver.Prelude.{Bool, ◌≡◌, refl, true, false, none, arith}
use scylla_rust_driver.Policies.Retry.{RequestAttemptError, RequestInfo}
use scylla_rust_driver.Policies.Retry.Classes.{made_no_write, sends_again, new_level}
use scylla_rust_driver.Policies.Retry.Default.{
  DefaultRetrySession, decide_on_error, decide_should_retry,
}
use scylla_rust_driver.Frame.DbError.{DbError}
use scylla_rust_driver.Frame.Consistency.{is_serial}

resend_on_error :
    (s : DefaultRetrySession) (e : RequestAttemptError)
    → sends_again (decide_on_error s e false).1 ≡ true
    → made_no_write e ≡ true
unfolding decide_on_error
resend_on_error s (RequestAttemptError.db_error DbError.overloaded _) h = ground arith
resend_on_error s (RequestAttemptError.db_error _ _) h = ground arith
resend_on_error s RequestAttemptError.unable_to_alloc_stream_id h = refl
resend_on_error s _ h = ground arith

-- A request that is not known to be idempotent is sent again only after an error that says that it
-- made no write, and never at a serial consistency level.
pub resend_is_safe :
    (s : DefaultRetrySession) (info : RequestInfo)
    → info.is_idempotent ≡ false
    → sends_again (decide_should_retry s info).1 ≡ true
    → (made_no_write info.error ≡ true) × (is_serial info.consistency ≡ false)
unfolding decide_should_retry
resend_is_safe s info h e = ground (arith, resend_on_error s info.error)

level_on_error :
    (s : DefaultRetrySession) (e : RequestAttemptError) (idem : Bool)
    → new_level (decide_on_error s e idem).1 ≡ none
unfolding decide_on_error
level_on_error s (RequestAttemptError.db_error DbError.overloaded _) idem = ground arith
level_on_error s (RequestAttemptError.db_error _ _) idem = ground arith
level_on_error s RequestAttemptError.unable_to_alloc_stream_id idem = refl
level_on_error s _ idem = ground arith

-- The default policy never changes the consistency level of a request.
pub new_level-decide :
    (s : DefaultRetrySession) (info : RequestInfo) → new_level (decide_should_retry s info).1 ≡ none
unfolding decide_should_retry
new_level-decide s info = ground (arith, level_on_error s info.error info.is_idempotent)
