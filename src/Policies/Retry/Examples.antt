-- ===== src/Policies/Retry/Examples.antt =====
-- Tests of the retry policies, and their theorems at concrete inputs.
use scylla_rust_driver.Prelude.{◌≤◌, ◌≡◌, refl, Bool, true, false, List, [], ◌∷◌, none, some}
use scylla_rust_driver.Prelude.Int.{pos}
use scylla_rust_driver.Frame.Consistency.{Consistency, is_serial}
use scylla_rust_driver.Frame.DbError.{DbError, WriteType}
use scylla_rust_driver.Policies.Retry.{RequestAttemptError, RequestInfo}
use scylla_rust_driver.Policies.Retry.RetryDecision.{retry_same_target, retry_next_target}
use scylla_rust_driver.Policies.Retry.Classes.{made_no_write, known_ok, stays}
use scylla_rust_driver.Policies.Retry.Default
use scylla_rust_driver.Policies.Retry.Default.Safety.{resend_is_safe}
use scylla_rust_driver.Policies.Retry.Default.Budget.{stays-le-two}
use scylla_rust_driver.Policies.Retry.Downgrading
use scylla_rust_driver.Policies.Retry.Downgrading.Levels.{ServableBy, new_level-Servable}

abbrev unavailable : RequestAttemptError
unavailable =
    RequestAttemptError.db_error (DbError.unavailable Consistency.quorum (pos 3) (pos 2)) []

abbrev failed_read : RequestAttemptError
failed_read =
    RequestAttemptError.db_error (DbError.read_timeout Consistency.two (pos 2) (pos 2) false) []

abbrev failed_write : RequestAttemptError
failed_write =
    RequestAttemptError.db_error
      (DbError.write_timeout Consistency.quorum (pos 1) (pos 2) WriteType.simple) []

abbrev at_quorum : RequestAttemptError → Bool → RequestInfo
at_quorum e idempotent = record {
  error = e;
  is_idempotent = idempotent;
  consistency = Consistency.quorum;
}

retries_unavailable_elsewhere :
    (Default.decide_should_retry Default.new (at_quorum unavailable false)).1
    ≡ retry_next_target none
unfolding Default.decide_should_retry
retries_unavailable_elsewhere = refl

resend_is_safe_example : (made_no_write unavailable ≡ true) × (is_serial Consistency.quorum ≡ false)
unfolding Default.decide_should_retry
resend_is_safe_example = resend_is_safe Default.new (at_quorum unavailable false) refl refl

abbrev failures : List RequestInfo
failures = at_quorum failed_read true ∷ at_quorum failed_read true ∷ at_quorum unavailable true ∷ []

stays_once : stays Default.decide_should_retry Default.new failures ≡ 1
unfolding stays Default.decide_should_retry
stays_once = refl

stays-le-two_example : stays Default.decide_should_retry Default.new failures ≤ 2
stays-le-two_example = stays-le-two failures

downgrades_to_two :
    (Downgrading.decide_should_retry Downgrading.new (at_quorum unavailable false)).1
    ≡ retry_same_target (some Consistency.two)
unfolding Downgrading.decide_should_retry
downgrades_to_two = refl

new_level-Servable_example : ServableBy (known_ok unavailable) Consistency.quorum Consistency.two
unfolding Downgrading.decide_should_retry
new_level-Servable_example =
    new_level-Servable Downgrading.new (at_quorum unavailable false) Consistency.two refl
