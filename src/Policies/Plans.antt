-- ===== src/Policies/Plans.antt =====
-- The query plan: scylla/src/policies/load_balancing/plan.rs.
pub mod Order
pub mod Examples
use mathlib.Core.Option
use scylla_rust_driver.Prelude.{
  ℕ, zero, suc, Bool, true, false, Option, none, some, List, [], ◌∷◌, if◌then◌else◌, ◌==◌, ◌&&◌,
}

-- A target: a node, known by a number, and the shard if the policy gives one.
abbrev pub Target : Type 0
Target = ℕ × Option ℕ

abbrev pub shard_eq : Option ℕ → Option ℕ → Bool
shard_eq none none = true
shard_eq (some a) (some b) = a == b
shard_eq _ _ = false

-- `==` on targets.
abbrev pub target_eq : Target → Target → Bool
target_eq (node, shard) (node', shard') = node == node' && shard_eq shard shard'

-- `LoadBalancingPolicy::pick` and `fallback` for one request and cluster state; the iterator of
-- `fallback` is the list of what it gives.
pub record LoadBalancingPolicy : Type 0 where
  pub pick : Option Target
  pub fallback : List Target

pub data PlanState : Type 0 where
  created picked_none : PlanState
  picked : Target → PlanState
  fallback : (iter : List Target) → (target_to_filter_out : Target) → PlanState

-- The loop over the iterator: the next target that is not the one filtered out, and what is left.
unfoldable pub next_other : Target → List Target → Option Target × List Target
next_other out [] = (none, [])
next_other out (node ∷ iter) =
    let rest = next_other out iter in if target_eq node out then rest else (some node, iter)

-- The branch for a fallback, without the choice of a shard.
unfoldable pub next_fallback : List Target → Target → Option Target × PlanState
unfolding next_other
next_fallback iter out =
    let (node, rest) = next_other out iter in (node, PlanState.fallback rest out)

abbrev pub first_fallback : List Target → Option Target × PlanState
first_fallback [] = (none, PlanState.picked_none)
first_fallback (node ∷ iter) = (some node, PlanState.fallback iter node)

unfoldable pub next_target : LoadBalancingPolicy → PlanState → Option Target × PlanState
unfolding next_fallback
next_target policy PlanState.created = elim policy.pick [
  | some target ↦ (some target, PlanState.picked target)
  | none ↦ first_fallback policy.fallback
]
next_target policy (PlanState.picked target) = next_fallback policy.fallback target
next_target policy (PlanState.fallback iter out) = next_fallback iter out
next_target policy PlanState.picked_none = (none, PlanState.picked_none)

-- `with_random_shard_if_unknown`, where `random_range` gives a number below the one it is given, and
-- `nr_shards` is the number of shards of a node with a sharder.
unfoldable pub with_random_shard_if_unknown : (ℕ → ℕ) → (ℕ → Option ℕ) → Target → ℕ × ℕ
with_random_shard_if_unknown random_range nr_shards (node, some shard) = (node, shard)
with_random_shard_if_unknown random_range nr_shards (node, none) = elim (nr_shards node) [
  | some n ↦ (node, random_range n)
  | none ↦ (node, random_range 1)
]

unfoldable pub next :
    (ℕ → ℕ) → (ℕ → Option ℕ) → LoadBalancingPolicy → PlanState → Option (ℕ × ℕ) × PlanState
unfolding next_target with_random_shard_if_unknown
next random_range nr_shards policy state =
    let (node, state') = next_target policy state in
    (Option.map (with_random_shard_if_unknown random_range nr_shards) node, state')

-- The targets that as many calls of `next` give, until the first that gives none.
unfoldable pub targets : ℕ → LoadBalancingPolicy → PlanState → List Target
unfolding next_target
targets zero policy state = []
targets (suc n) policy state =
    let (node, state') = next_target policy state in
    let rest = targets n policy state' in elim node [ none ↦ [] | some target ↦ target ∷ rest ]
