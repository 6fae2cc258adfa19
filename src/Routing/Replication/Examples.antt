-- ===== src/Routing/Replication/Examples.antt =====
-- Tests and witnesses of the token ring and the replication strategies, on the ring of the source's
-- tests, with a linear search in the place of the binary one.
use mathlib.Core.Path.{ap}
use Prim.Native.String.{String}
use scylla_rust_driver.Prelude.{
  ℕ, suc, ◌≡◌, refl, ◌||◌, ◌&&◌, Option, none, some, List, [], ◌∷◌, if◌then◌else◌, ltb, All, arith,
  Bool-cases, inl, inr, Result, ok, err,
}
use scylla_rust_driver.Prelude.Bytes.{codes, bytes_eq}
use scylla_rust_driver.Prelude.Int.{ℤ, pos, ◌≤ℤ◌, ◌<ℤ◌, ltb_ℤ, eq_of_parts}
use scylla_rust_driver.Prelude.Distinct.{mem}
use scylla_rust_driver.Routing.Sharding.{Token}
use scylla_rust_driver.Routing.Ring.{Search, ring_range, ring_range_full, insert_sorted, sort_by}
use scylla_rust_driver.Routing.Ring.Sorting.{sort_by-IsSorted}
use scylla_rust_driver.Routing.Ring.Walks.{
  Lands, IsBinarySearch, Rotation, ring_range_full-Rotation,
}
use scylla_rust_driver.Routing.Replication.{
  Node, host_key, Ring, replication_info_new, simple_strategy_replicas, nts_replicas_in_datacenter,
  collect, next, datacenter_nodes_new,
}
use scylla_rust_driver.Routing.Replication.Counting.{racks, iterator_of, walk, collect-walk}
use scylla_rust_driver.Routing.Replication.Members.{members, in_datacenter}
use scylla_rust_driver.Routing.Replication.Replicas.{Spread, nts_replicas_in_datacenter-Spread}
use scylla_rust_driver.Routing.Replication.Precomputed.{
  Strategy, max_global_repfactor, insert_repfactor, insert_repfactors, dc_repfactors, compute,
  get_precomputed_simple_strategy_replicas, get_precomputed_network_strategy_replicas,
}
use scylla_rust_driver.Routing.Replication.Precomputed.Agree.{
  HasDistinctTokens, get_precomputed_simple_strategy_replicas_lem,
}
use scylla_rust_driver.Routing.Replication.Precomputed.Serving.{any_within}
use scylla_rust_driver.Routing.Replication.Precomputed.Datacenters.{
  get_precomputed_network_strategy_replicas_lem,
}

-- A match, or the place of the first greater number.
abbrev later : Result ℕ ℕ → Result ℕ ℕ
later (ok i) = ok (suc i)
later (err i) = err (suc i)

abbrev linear_search : Search
linear_search [] t = err 0
linear_search (x ∷ l) t =
    let rest = later (linear_search l t) in
    if ltb_ℤ t x then err 0 else (if ltb_ℤ x t then rest else ok 0)

All-above : (x t : ℤ) (l : List ℤ) → t <ℤ x → All (λ y. x ≤ℤ y) l → All (λ y. t <ℤ y) l
All-above x t [] h k = tt
All-above x t (y ∷ l) h (p, k) = (omega (arith, h, p), All-above x t l h k)

later-Lands :
    (x t : ℤ) (l : List ℤ) (r : Result ℕ ℕ) → x <ℤ t → Lands l t r → Lands (x ∷ l) t (later r)
later-Lands x t l (ok i) h e = e
later-Lands x t l (err i) h (le, low, high) = (omega (arith, le), (h, low), high)

linear_search-IsBinarySearch : IsBinarySearch linear_search
linear_search-IsBinarySearch [] t h = (omega arith, tt, tt)
linear_search-IsBinarySearch (x ∷ l) t (below, h) = elim (Bool-cases (ltb_ℤ t x)) [
  | inl e ↦
      let lt : t <ℤ x = ground (arith, e) in rw e (omega arith, tt, (lt, All-above x t l lt below))
  | inr e ↦ elim (Bool-cases (ltb_ℤ x t)) [
    | inl k ↦
        rw (e, k)
          (later-Lands x t l (linear_search l t) (ground (arith, k))
            (linear_search-IsBinarySearch l t h))
    | inr k ↦ let same : x ≡ t = eq_of_parts x t (ground (arith, e, k)) in rw (e, k) (ap some same)
  ]
]

abbrev node : ℕ → String → String → Node
node host_id datacenter rack = record {
  host_id = host_id;
  datacenter = some (codes datacenter);
  rack = some (codes rack);
}

abbrev at : ℕ → Node → Token × Node
at token n = (record { value = pos token }, n)

-- The nodes A to G of the source's tests.
abbrev a_node : Node
a_node = node 1 "eu" "r1"

abbrev b_node : Node
b_node = node 2 "eu" "r1"

abbrev c_node : Node
c_node = node 3 "eu" "r1"

abbrev d_node : Node
d_node = node 4 "us" "r1"

abbrev e_node : Node
e_node = node 5 "us" "r1"

abbrev f_node : Node
f_node = node 6 "us" "r2"

abbrev g_node : Node
g_node = node 7 "eu" "r2"

abbrev ring_iter : Ring
ring_iter =
    at 50 a_node
    ∷ at 250 a_node
    ∷ at 400 a_node
    ∷ at 100 b_node
    ∷ at 600 b_node
    ∷ at 900 b_node
    ∷ at 300 c_node
    ∷ at 650 c_node
    ∷ at 700 c_node
    ∷ at 350 d_node
    ∷ at 550 d_node
    ∷ at 150 e_node
    ∷ at 750 e_node
    ∷ at 200 f_node
    ∷ at 450 f_node
    ∷ at 500 g_node
    ∷ at 800 g_node
    ∷ []

replicas_of_160_in_eu :
    nts_replicas_in_datacenter linear_search
      (replication_info_new ring_iter)
      (record { value = pos 160 })
      (codes "eu")
      3
    ≡ a_node ∷ c_node ∷ g_node ∷ []
unfolding nts_replicas_in_datacenter collect next replication_info_new bytes_eq datacenter_nodes_new
    ring_range
replicas_of_160_in_eu = refl

replicas_of_160_in_us :
    nts_replicas_in_datacenter linear_search
      (replication_info_new ring_iter)
      (record { value = pos 160 })
      (codes "us")
      3
    ≡ f_node ∷ d_node ∷ e_node ∷ []
unfolding nts_replicas_in_datacenter collect next replication_info_new bytes_eq datacenter_nodes_new
    ring_range
replicas_of_160_in_us = refl

simple_replicas_of_701 :
    simple_strategy_replicas linear_search
      (replication_info_new ring_iter)
      (record { value = pos 701 })
      4
    ≡ e_node ∷ g_node ∷ b_node ∷ a_node ∷ []
unfolding simple_strategy_replicas replication_info_new ring_range
simple_replicas_of_701 = refl

abbrev rack_of : ℕ → Option (List ℕ)
rack_of host_id = if ltb 5 host_id then some (codes "r2") else some (codes "r1")

abbrev token_160 : Token
token_160 = record { value = pos 160 }

nts_replicas_in_datacenter-Spread_example :
    Spread (codes "eu") 3 (members (in_datacenter (codes "eu") ring_iter)) (
      nts_replicas_in_datacenter linear_search
        (replication_info_new ring_iter)
        token_160
        (codes "eu")
        3)
unfolding bytes_eq
nts_replicas_in_datacenter-Spread_example =
    nts_replicas_in_datacenter-Spread linear_search linear_search-IsBinarySearch ring_iter token_160
      (codes "eu") 3 rack_of
      (refl, (refl, (refl, (refl, (refl, (refl, (refl, (refl, (refl, (refl, (refl, tt)))))))))))

collect-walk_example :
    collect 4 (iterator_of 3 [] 1 (a_node ∷ b_node ∷ c_node ∷ g_node ∷ []))
    ≡ walk 3 [] 1 (a_node ∷ b_node ∷ c_node ∷ g_node ∷ [])
collect-walk_example = collect-walk 4 3 (omega arith) [] 1 (a_node ∷ b_node ∷ c_node ∷ g_node ∷ [])

ring_range_full-Rotation_example :
    Rotation ◌≤ℤ◌
      (sort_by ring_iter)
      (pos 160)
      (ring_range_full linear_search (record { ring = sort_by ring_iter }) token_160)
ring_range_full-Rotation_example =
    ring_range_full-Rotation linear_search linear_search-IsBinarySearch
      (record { ring = sort_by ring_iter }) token_160 (sort_by-IsSorted ring_iter)

-- A ring of three members, in no order.
abbrev small_ring : Ring
small_ring = at 30 a_node ∷ at 10 g_node ∷ at 20 f_node ∷ []

small_ring-HasDistinctTokens : HasDistinctTokens small_ring
unfolding sort_by insert_sorted
small_ring-HasDistinctTokens = ((omega arith, (omega arith, tt)), ((omega arith, tt), (tt, tt)))

abbrev strategies : List Strategy
strategies =
    Strategy.simple_strategy 2
    ∷ Strategy.network_topology_strategy ((codes "eu", 2) ∷ (codes "us", 3) ∷ [])
    ∷ []

get_precomputed_simple_strategy_replicas_lem_example :
    get_precomputed_simple_strategy_replicas linear_search
      (compute linear_search (replication_info_new small_ring) strategies)
      token_160
      1
    ≡ (if ltb (max_global_repfactor 1 strategies) 1
        then none
        else some
            (simple_strategy_replicas linear_search (replication_info_new small_ring) token_160 1))
get_precomputed_simple_strategy_replicas_lem_example =
    get_precomputed_simple_strategy_replicas_lem linear_search linear_search-IsBinarySearch
      small_ring small_ring-HasDistinctTokens (omega arith) strategies token_160 1

strategies_in_eu : dc_repfactors (λ n. none) strategies (codes "eu") ≡ some (2 ∷ [])
unfolding dc_repfactors insert_repfactors insert_repfactor bytes_eq
strategies_in_eu = refl

get_precomputed_network_strategy_replicas_lem_example :
    get_precomputed_network_strategy_replicas linear_search
      (compute linear_search (replication_info_new small_ring) strategies)
      token_160
      (codes "eu")
      1
    ≡ (if any_within (racks [] (members (in_datacenter (codes "eu") small_ring))) 1 (2 ∷ [])
          || (ltb (racks [] (members (in_datacenter (codes "eu") small_ring))) 1
              && mem host_key 1 (2 ∷ []))
        then some (
            nts_replicas_in_datacenter linear_search
              (replication_info_new small_ring)
              token_160
              (codes "eu")
              1)
        else none)
unfolding bytes_eq
get_precomputed_network_strategy_replicas_lem_example =
    get_precomputed_network_strategy_replicas_lem linear_search linear_search-IsBinarySearch
      small_ring small_ring-HasDistinctTokens (codes "eu") (omega arith) strategies token_160 1
      (2 ∷ []) strategies_in_eu
