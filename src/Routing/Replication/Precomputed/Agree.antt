-- ===== src/Routing/Replication/Precomputed/Agree.antt =====
-- The precomputed replicas are those that the strategies compute.
use Prim.Native.Nat.{min}
use mathlib.Core.Path.{ap, ◌∙◌}
use mathlib.Core.List.{Permᴰ}
use scylla_rust_driver.Prelude.{
  ℕ, suc, ◌≤◌, ◌<◌, ◌≡◌, refl, sym, Option, none, some, List, if◌then◌else◌, ltb, leb, length, take,
  arith, Bool-cases, inl, inr, take-take, take_all,
}
use scylla_rust_driver.Prelude.Options.{◌>>=◌}
use scylla_rust_driver.Routing.Sharding.{Token}
use scylla_rust_driver.Routing.Ring.{
  Search, TokenRing, ring_new, ring_range, sort_by, get_elem_for_token,
}
use scylla_rust_driver.Routing.Ring.Sorting.{sort_by-Perm}
use scylla_rust_driver.Routing.Ring.Walks.{IsBinarySearch}
use scylla_rust_driver.Routing.Replication.{
  Node, unique, Ring, nodes_of, replication_info_new, simple_strategy_replicas,
}
use scylla_rust_driver.Routing.Replication.Precomputed.{
  Strategy, Replicas, max_global_repfactor, replica_ring, compute, first_of,
  get_precomputed_simple_strategy_replicas,
}
use scylla_rust_driver.Routing.Replication.Precomputed.Rings.{IsStrict}
use scylla_rust_driver.Routing.Replication.Precomputed.Lookups.{Finds, get_elem_for_token-Finds}

pub first_of-take : (n : ℕ) (l : Replicas) → first_of n l ≡ take n l
first_of-take n l = elim (Bool-cases (leb n (length l))) [
  | inl e ↦ let m : min (length l) n ≡ n = ground (arith, e) in ap (λ k. take k l) m
  | inr e ↦
      let m : min (length l) n ≡ length l = ground (arith, e) in
      let le : length l ≤ n = ground (arith, e) in
      ap (λ k. take k l) m ∙ take_all (length l) l (omega arith) ∙ sym (take_all n l le)
]

pub length-Perm : {A : Type 0} {xs ys : List A} → Permᴰ xs ys → length xs ≡ length ys
length-Perm Permᴰ.nil = refl
length-Perm (Permᴰ.cons e p) = ap suc (length-Perm p)
length-Perm (Permᴰ.swap e1 e2) = refl
length-Perm (Permᴰ.trans p q) = length-Perm p ∙ length-Perm q

-- The members of a ring have distinct tokens.
abbrev pub HasDistinctTokens : Ring → Type 0
HasDistinctTokens ring_iter = IsStrict (sort_by ring_iter)

module _ (s : Search) (law : IsBinarySearch s) (ring_iter : Ring)
    (distinct : HasDistinctTokens ring_iter) (members_lt : 0 < length ring_iter) where
  -- The first of the replicas of the greatest replication factor are those of a smaller one.
  simple_prefix :
      (t token : Token) (rf most : ℕ)
      → rf ≤ most
      → ring_range s (ring_new ring_iter) t ≡ ring_range s (ring_new ring_iter) token
      → first_of rf (simple_strategy_replicas s (replication_info_new ring_iter) t most)
        ≡ simple_strategy_replicas s (replication_info_new ring_iter) token rf
  unfolding simple_strategy_replicas replication_info_new ring_new
  simple_prefix t token rf most h same =
      let ring : TokenRing Node = ring_new ring_iter in
      let u : ℕ = length (unique (nodes_of ring)) in
      let m : min rf (min most u) ≡ min rf u = omega (arith, h) in
      first_of-take rf (take (min most u) (unique (ring_range s ring t)))
      ∙ take-take rf (min most u) (unique (ring_range s ring t))
      ∙ ap (λ k. take k (unique (ring_range s ring t))) m
      ∙ ap (λ l. take (min rf u) (unique l)) same

  simple_found :
      (token : Token) (rf most : ℕ) (o : Option Replicas)
      → rf ≤ most
      → Finds
          (λ t. simple_strategy_replicas s (replication_info_new ring_iter) t most)
          s
          (ring_new ring_iter)
          token
          o
      → (o >>= λ replicas. some (first_of rf replicas))
        ≡ some (simple_strategy_replicas s (replication_info_new ring_iter) token rf)
  unfolding ring_new
  simple_found token rf most o h (inl (empty, e)) =
      absurd (omega (arith, members_lt, length-Perm (sort_by-Perm ring_iter), ap length empty))
  simple_found token rf most o h (inr (t, e, same)) =
      rw e (ap some (simple_prefix t token rf most h same))

  -- For a ring with members, whose tokens are distinct, the precomputed replicas of the simple
  -- strategy are those that are computed from the ring, for each replication factor up to the
  -- greatest of the keyspaces, or 1, and there are none for a greater one.
  pub get_precomputed_simple_strategy_replicas_lem :
      (strategies : List Strategy) (token : Token) (rf : ℕ)
      → get_precomputed_simple_strategy_replicas s
          (compute s (replication_info_new ring_iter) strategies)
          token
          rf
        ≡ (if ltb (max_global_repfactor 1 strategies) rf
            then none
            else some (simple_strategy_replicas s (replication_info_new ring_iter) token rf))
  unfolding get_precomputed_simple_strategy_replicas compute replication_info_new ring_new
  get_precomputed_simple_strategy_replicas_lem strategies token rf =
      let most : ℕ = max_global_repfactor 1 strategies in
      let f : Token → Replicas =
        λ t. simple_strategy_replicas s (replication_info_new ring_iter) t most in
      elim (Bool-cases (ltb most rf)) [
        | inl e ↦ rw e refl
        | inr e ↦ rw e (
            simple_found token rf most
              (get_elem_for_token s (replica_ring (ring_new ring_iter) f) token) (ground (arith, e))
              (get_elem_for_token-Finds f s law (ring_new ring_iter) token distinct))
      ]
