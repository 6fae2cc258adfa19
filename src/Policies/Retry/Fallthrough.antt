-- ===== src/Policies/Retry/Fallthrough.antt =====
-- `FallthroughRetrySession`: scylla/src/policies/retry/fallthrough.rs.
use scylla_rust_driver.Policies.Retry.{RequestInfo, RetryDecision}

pub record FallthroughRetrySession : Type 0 where

unfoldable pub decide_should_retry :
    FallthroughRetrySession → RequestInfo → FallthroughRetrySession × RetryDecision
decide_should_retry s request_info = (s, RetryDecision.dont_retry)
