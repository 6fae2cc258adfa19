-- ===== src/Policies/Retry/Downgrading/Levels.antt =====
-- The levels that the downgrading policy falls back to, and how often it does.
use scylla_rust_driver.Prelude.{
  ℕ, ◌+◌, ◌≤◌, ◌≡◌, refl, ◌⊎◌, Bool, Option, none, some, List, [], ◌∷◌, if◌then◌else◌, arith,
}
use scylla_rust_driver.Prelude.Int.{ℤ, pos, ◌≤ℤ◌}
use scylla_rust_driver.Frame.Consistency.{Consistency}
use scylla_rust_driver.Frame.DbError.{DbError, WriteType}
use scylla_rust_driver.Policies.Retry.{RequestAttemptError, RequestInfo, RetryDecision}
use scylla_rust_driver.Policies.Retry.Classes.{known_ok, new_level, stays_on_target, stays}
use scylla_rust_driver.Policies.Retry.Downgrading.{
  DowngradingConsistencyRetrySession, new, max_likely_to_work_cl, decide_on_write, decide_on_error,
  decide_on_serial, decide_should_retry,
}

-- `c` is a level that `n` replicas can serve: one replica for ONE, two for TWO, three for THREE.
-- At EACH_QUORUM, where the count says nothing of the other datacenters, ONE is always tried.
abbrev pub Servable : ℤ → Consistency → Consistency → Type 0
Servable n asked Consistency.one = (pos 1 ≤ℤ n) ⊎ (asked ≡ Consistency.each_quorum)
Servable n asked Consistency.two = pos 2 ≤ℤ n
Servable n asked Consistency.three = pos 3 ≤ℤ n
Servable n asked _ = ⊥

abbrev pub ServableBy : Option ℤ → Consistency → Consistency → Type 0
ServableBy none asked c = ⊥
ServableBy (some n) asked c = Servable n asked c

level_of_max_likely :
    (n : ℤ) (asked c : Consistency)
    → new_level (max_likely_to_work_cl n asked) ≡ some c
    → Servable n asked c
unfolding max_likely_to_work_cl
level_of_max_likely n asked Consistency.one h = ground arith
level_of_max_likely n asked Consistency.two h = ground arith
level_of_max_likely n asked Consistency.three h = ground arith
level_of_max_likely n asked _ h = ground arith

level_on_write :
    (t : WriteType) (n : ℤ) (asked c : Consistency)
    → new_level (decide_on_write t n asked) ≡ some c
    → Servable n asked c
unfolding decide_on_write
level_on_write WriteType.unlogged_batch n asked c h = level_of_max_likely n asked c h
level_on_write _ n asked c h = ground arith

level_on_error :
    (s : DowngradingConsistencyRetrySession) (e : RequestAttemptError) (idem : Bool)
    (asked c : Consistency)
    → new_level (decide_on_error s e idem asked).1 ≡ some c
    → ServableBy (known_ok e) asked c
unfolding decide_on_error
level_on_error s (RequestAttemptError.db_error DbError.overloaded _) idem asked c h = ground arith
level_on_error s (RequestAttemptError.db_error (DbError.unavailable _ q n) _) idem asked c h =
    ground (arith, level_of_max_likely n asked c)
level_on_error s (RequestAttemptError.db_error (DbError.read_timeout _ n q d) _) idem asked c h =
    ground (arith, level_of_max_likely n asked c)
level_on_error s (RequestAttemptError.db_error (DbError.write_timeout _ n q t) _) idem asked c h =
    ground (arith, level_on_write t n asked c)
level_on_error s (RequestAttemptError.db_error _ _) idem asked c h = ground arith
level_on_error s RequestAttemptError.unable_to_alloc_stream_id idem asked c h = ground arith
level_on_error s _ idem asked c h = ground arith

level_on_serial : (e : RequestAttemptError) → new_level (decide_on_serial e) ≡ none
unfolding decide_on_serial
level_on_serial (RequestAttemptError.db_error (DbError.unavailable _ _ _) _) = refl
level_on_serial (RequestAttemptError.db_error _ _) = ground arith
level_on_serial _ = ground arith

-- A lower level that the policy asks for is one that the replicas of the error report can serve.
pub new_level-Servable :
    (s : DowngradingConsistencyRetrySession) (info : RequestInfo) (c : Consistency)
    → new_level (decide_should_retry s info).1 ≡ some c
    → ServableBy (known_ok info.error) info.consistency c
unfolding decide_should_retry
new_level-Servable s info c h = ground (
  arith,
  level_on_error s info.error info.is_idempotent info.consistency c,
  level_on_serial info.error,
)

abbrev budget : DowngradingConsistencyRetrySession → ℕ
budget s = if s.was_retry then 0 else 1

stays_on_serial : (e : RequestAttemptError) → stays_on_target (decide_on_serial e) ≡ 0
unfolding decide_on_serial
stays_on_serial (RequestAttemptError.db_error (DbError.unavailable _ _ _) _) = refl
stays_on_serial (RequestAttemptError.db_error _ _) = ground arith
stays_on_serial _ = ground arith

stays-le-one_decision : (d : RetryDecision) → stays_on_target d ≤ 1
stays-le-one_decision d = ground arith

budget_on_error :
    (s : DowngradingConsistencyRetrySession) (e : RequestAttemptError) (idem : Bool)
    (cl : Consistency)
    → stays_on_target (decide_on_error s e idem cl).1 + budget (decide_on_error s e idem cl).0
      ≤ budget s
unfolding decide_on_error
budget_on_error s (RequestAttemptError.db_error DbError.overloaded _) idem cl = ground arith
budget_on_error s (RequestAttemptError.db_error (DbError.write_timeout _ r q t) _) idem cl =
    ground (arith, stays-le-one_decision (decide_on_write t r cl))
budget_on_error s (RequestAttemptError.db_error _ _) idem cl = ground arith
budget_on_error s RequestAttemptError.unable_to_alloc_stream_id idem cl = ground arith
budget_on_error s _ idem cl = ground arith

budget-decide :
    (s : DowngradingConsistencyRetrySession) (info : RequestInfo)
    → stays_on_target (decide_should_retry s info).1 + budget (decide_should_retry s info).0
      ≤ budget s
unfolding decide_should_retry
budget-decide s info = ground (
  arith,
  budget_on_error s info.error info.is_idempotent info.consistency,
  stays_on_serial info.error,
)

stays-le-budget :
    (s : DowngradingConsistencyRetrySession) (infos : List RequestInfo)
    → stays decide_should_retry s infos ≤ budget s
unfolding stays
stays-le-budget s [] = omega arith
stays-le-budget s (info ∷ rest) =
    omega (arith, budget-decide s info, stays-le-budget (decide_should_retry s info).0 rest)

-- Whatever the failures of a request, a new session of the downgrading policy stays on a target
-- at most once: it retries there, with the same or a lower level, or takes the write for done.
pub stays-le-one : (infos : List RequestInfo) → stays decide_should_retry new infos ≤ 1
stays-le-one infos = stays-le-budget new infos
