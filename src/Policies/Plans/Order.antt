-- ===== src/Policies/Plans/Order.antt =====
-- What the calls of `next` give, in order.
use scylla_rust_driver.Prelude.{
  ℕ, zero, suc, ◌≤◌, ◌<◌, ◌≡◌, refl, true, false, Option, none, some, List, [], ◌∷◌, if◌then◌else◌,
  length, arith, inl, inr, Bool-cases, Option-cases,
}
use mathlib.Core.Path.{ap, sym, ◌∙◌}
use scylla_rust_driver.Policies.Plans.{
  Target, target_eq, LoadBalancingPolicy, PlanState, next_other, next_fallback, first_fallback,
  next_target, targets,
}

-- The specification: a list without the elements equal to a target.
unfoldable pub without : Target → List Target → List Target
without out [] = []
without out (node ∷ nodes) =
    if target_eq node out then without out nodes else node ∷ without out nodes

-- The first target of the plan, and then the fallback without it.
abbrev pub whole_plan : LoadBalancingPolicy → List Target
whole_plan policy = elim policy.pick [
  | some target ↦ target ∷ without target policy.fallback
  | none ↦ elim policy.fallback [ [] ↦ [] | node ∷ nodes ↦ node ∷ without node nodes ]
]

-- The first call's result, and the calls after it.
abbrev follow : ℕ → LoadBalancingPolicy → Option Target × PlanState → List Target
follow n policy (node, state) = elim node [
  | none ↦ []
  | some target ↦ target ∷ targets n policy state
]

targets-follow :
    (n : ℕ) (policy : LoadBalancingPolicy) (state : PlanState)
    → targets (suc n) policy state ≡ follow n policy (next_target policy state)
unfolding targets
targets-follow n policy state = refl

next_target_skips :
    (policy : LoadBalancingPolicy) (node out : Target) (iter : List Target)
    → target_eq node out ≡ true
    → next_target policy (PlanState.fallback (node ∷ iter) out)
      ≡ next_target policy (PlanState.fallback iter out)
unfolding next_target next_fallback next_other
next_target_skips policy node out iter e = simp e

next_target_takes :
    (policy : LoadBalancingPolicy) (node out : Target) (iter : List Target)
    → target_eq node out ≡ false
    → next_target policy (PlanState.fallback (node ∷ iter) out)
      ≡ (some node, PlanState.fallback iter out)
unfolding next_target next_fallback next_other
next_target_takes policy node out iter e = simp e

targets-skip :
    (n : ℕ) (policy : LoadBalancingPolicy) (node out : Target) (iter : List Target)
    → target_eq node out ≡ true
    → targets (suc n) policy (PlanState.fallback (node ∷ iter) out)
      ≡ targets (suc n) policy (PlanState.fallback iter out)
targets-skip n policy node out iter e =
    targets-follow n policy _
    ∙ ap (follow n policy) (next_target_skips policy node out iter e)
    ∙ sym (targets-follow n policy _)

targets-take :
    (n : ℕ) (policy : LoadBalancingPolicy) (node out : Target) (iter : List Target)
    → target_eq node out ≡ false
    → targets (suc n) policy (PlanState.fallback (node ∷ iter) out)
      ≡ node ∷ targets n policy (PlanState.fallback iter out)
targets-take n policy node out iter e =
    targets-follow n policy _ ∙ ap (follow n policy) (next_target_takes policy node out iter e)

targets-without :
    (iter : List Target) (n : ℕ) (policy : LoadBalancingPolicy) (out : Target)
    → length iter < n
    → targets n policy (PlanState.fallback iter out) ≡ without out iter
unfolding without
targets-without iter zero policy out h = absurd (omega (arith, h))
targets-without [] (suc n) policy out h =
    unfold targets next_target next_fallback next_other in refl
targets-without (node ∷ iter) (suc n) policy out h = elim (Bool-cases (target_eq node out)) [
  | inl same ↦
      rw (targets-skip n policy node out iter same, same)
        (targets-without iter (suc n) policy out (omega (arith, h)))
  | inr other ↦
      rw (targets-take n policy node out iter other, other)
        (ap (λ l. node ∷ l) (targets-without iter n policy out (omega (arith, h))))
]

targets-picked :
    (n : ℕ) (policy : LoadBalancingPolicy) (target : Target)
    → length policy.fallback < n
    → targets n policy (PlanState.picked target) ≡ without target policy.fallback
targets-picked zero policy target h = absurd (omega (arith, h))
targets-picked (suc n) policy target h =
    unfold targets next_target in targets-without policy.fallback (suc n) policy target h

targets_first :
    (n : ℕ) (policy : LoadBalancingPolicy) (l : List Target)
    → length l ≤ n
    → follow n policy (first_fallback l)
      ≡ elim l [ [] ↦ [] | node ∷ nodes ↦ node ∷ without node nodes ]
targets_first n policy [] h = refl
targets_first n policy (node ∷ nodes) h =
    ap (λ l. node ∷ l) (targets-without nodes n policy node (omega (arith, h)))

next_target-created :
    (policy : LoadBalancingPolicy)
    → ((target : Target)
        → policy.pick ≡ some target
        → next_target policy PlanState.created ≡ (some target, PlanState.picked target))
      × (policy.pick ≡ none → next_target policy PlanState.created ≡ first_fallback policy.fallback)
unfolding next_target
next_target-created policy = ((λ target e. rw (e, next_target) refl), λ e. rw (e, next_target) refl)

-- Calling `next` until it gives none, for which two calls more than the fallback is long are
-- enough, gives, before the choice of shards, the picked target and then the fallback without it, in its order; if none is
-- picked, the first of the fallback takes its place.
pub targets-eq-whole_plan :
    (policy : LoadBalancingPolicy) (n : ℕ)
    → length policy.fallback < n
    → targets (suc n) policy PlanState.created ≡ whole_plan policy
targets-eq-whole_plan policy n h = elim (Option-cases policy.pick) [
  | inl e ↦
      targets-follow n policy PlanState.created
      ∙ ap (follow n policy) ((next_target-created policy).1 e)
      ∙ targets_first n policy policy.fallback (omega (arith, h))
      ∙ rw (e, whole_plan) refl
  | inr (target, e) ↦
      targets-follow n policy PlanState.created
      ∙ ap (follow n policy) ((next_target-created policy).0 target e)
      ∙ ap (λ l. target ∷ l) (targets-picked n policy target h)
      ∙ rw (e, whole_plan) refl
]
