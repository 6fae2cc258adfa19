-- ===== src/Policies/Retry/Default/Budget.antt =====
-- How often the default policy stays on a target.
use scylla_rust_driver.Prelude.{ℕ, ◌+◌, ◌≤◌, Bool, List, [], ◌∷◌, if◌then◌else◌, arith}
use scylla_rust_driver.Policies.Retry.{RequestAttemptError, RequestInfo}
use scylla_rust_driver.Policies.Retry.Classes.{stays_on_target, stays}
use scylla_rust_driver.Policies.Retry.Default.{
  DefaultRetrySession, new, decide_on_error, decide_should_retry,
}
use scylla_rust_driver.Frame.DbError.{DbError}

-- The retries on the same target that a session has left: one for each flag that is not set.
abbrev budget : DefaultRetrySession → ℕ
budget s =
    (if s.was_read_timeout_retry then 0 else 1) + (if s.was_write_timeout_retry then 0 else 1)

budget_on_error :
    (s : DefaultRetrySession) (e : RequestAttemptError) (idem : Bool)
    → stays_on_target (decide_on_error s e idem).1 + budget (decide_on_error s e idem).0 ≤ budget s
unfolding decide_on_error
budget_on_error s (RequestAttemptError.db_error DbError.overloaded _) idem = ground arith
budget_on_error s (RequestAttemptError.db_error _ _) idem = ground arith
budget_on_error s RequestAttemptError.unable_to_alloc_stream_id idem = ground arith
budget_on_error s _ idem = ground arith

budget-decide :
    (s : DefaultRetrySession) (info : RequestInfo)
    → stays_on_target (decide_should_retry s info).1 + budget (decide_should_retry s info).0
      ≤ budget s
unfolding decide_should_retry
budget-decide s info = ground (arith, budget_on_error s info.error info.is_idempotent)

stays-le-budget :
    (s : DefaultRetrySession) (infos : List RequestInfo)
    → stays decide_should_retry s infos ≤ budget s
unfolding stays
stays-le-budget s [] = omega arith
stays-le-budget s (info ∷ rest) =
    omega (arith, budget-decide s info, stays-le-budget (decide_should_retry s info).0 rest)

-- Whatever the failures of a request, a new session of the default policy retries it at most twice
-- on the same target.
pub stays-le-two : (infos : List RequestInfo) → stays decide_should_retry new infos ≤ 2
stays-le-two infos = stays-le-budget new infos
