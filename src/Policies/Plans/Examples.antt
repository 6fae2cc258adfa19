-- ===== src/Policies/Plans/Examples.antt =====
-- The theorem on plans at a concrete input.
use scylla_rust_driver.Prelude.{◌≡◌, refl, none, some, [], ◌∷◌, arith}
use scylla_rust_driver.Policies.Plans.{LoadBalancingPolicy, PlanState, targets}
use scylla_rust_driver.Policies.Plans.Order.{whole_plan, without, targets-eq-whole_plan}

-- The fallback names the picked target again.
abbrev policy : LoadBalancingPolicy
policy = record { pick = some (7, some 2); fallback = (3, none) ∷ (7, some 2) ∷ (7, some 1) ∷ [] }

targets-eq-whole_plan_example : targets 5 policy PlanState.created ≡ whole_plan policy
targets-eq-whole_plan_example = targets-eq-whole_plan policy 4 (omega arith)

plan_names_it_once : whole_plan policy ≡ (7, some 2) ∷ (3, none) ∷ (7, some 1) ∷ []
unfolding without
plan_names_it_once = refl
