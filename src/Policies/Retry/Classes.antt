-- ===== src/Policies/Retry/Classes.antt =====
-- What an error says of the request, and what a decision asks for: the words in which the
-- theorems on the policies are stated.
use scylla_rust_driver.Prelude.{ℕ, ◌+◌, Bool, true, false, List, [], ◌∷◌, Option, none, some}
use scylla_rust_driver.Prelude.Int.{ℤ}
use scylla_rust_driver.Frame.Consistency.{Consistency}
use scylla_rust_driver.Frame.DbError.{DbError}
use scylla_rust_driver.Policies.Retry.{RequestAttemptError, RequestInfo, RetryDecision}
use scylla_rust_driver.Policies.Retry.RetryDecision.{
  retry_same_target, retry_next_target, ignore_write_error,
}

-- The error says that no write was made: the request failed on a read, or before its execution.
abbrev pub made_no_write : RequestAttemptError → Bool
made_no_write (RequestAttemptError.db_error (DbError.unavailable _ _ _) _) = true
made_no_write (RequestAttemptError.db_error (DbError.read_timeout _ _ _ _) _) = true
made_no_write (RequestAttemptError.db_error DbError.is_bootstrapping _) = true
made_no_write RequestAttemptError.unable_to_alloc_stream_id = true
made_no_write _ = false

-- The decision sends the request again.
abbrev pub sends_again : RetryDecision → Bool
sends_again (retry_same_target _) = true
sends_again (retry_next_target _) = true
sends_again _ = false

-- The consistency level that the decision asks for in place of the request's own.
abbrev pub new_level : RetryDecision → Option Consistency
new_level (retry_same_target c) = c
new_level (retry_next_target c) = c
new_level _ = none

-- 1 for a decision to try the same target once more, or to take the write for done.
abbrev pub stays_on_target : RetryDecision → ℕ
stays_on_target (retry_same_target _) = 1
stays_on_target ignore_write_error = 1
stays_on_target _ = 0

-- How many replicas the error reports as alive, or as having answered.
abbrev pub known_ok : RequestAttemptError → Option ℤ
known_ok (RequestAttemptError.db_error (DbError.unavailable _ _ alive) _) = some alive
known_ok (RequestAttemptError.db_error (DbError.read_timeout _ received _ _) _) = some received
known_ok (RequestAttemptError.db_error (DbError.write_timeout _ received _ _) _) = some received
known_ok _ = none

module _ {ℓ} {S : Type ℓ} (decide : S → RequestInfo → S × RetryDecision) where
  -- How often a session stays on the target over the failures of one request.
  unfoldable pub stays : S → List RequestInfo → ℕ
  stays s [] = 0
  stays s (info ∷ rest) =
      let (s', decision) = decide s info in stays_on_target decision + stays s' rest
