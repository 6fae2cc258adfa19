-- ===== src/Routing/Replication/Precomputed.antt =====
-- `PrecomputedReplicas` of scylla/src/routing/locator/precomputed_replicas.rs.
pub mod Rings
pub mod Lookups
pub mod Agree
pub mod Serving
pub mod Datacenters
use Prim.Native.Nat.{min, max}
use scylla_rust_driver.Prelude.{
  ℕ, zero, suc, Bool, true, false, ◌&&◌, Option, none, some, List, [], ◌∷◌, ◌++◌, if◌then◌else◌,
  ltb, leb, ◌==◌, length, take, map,
}
use scylla_rust_driver.Prelude.Options.{◌>>=◌}
use scylla_rust_driver.Prelude.Bytes.{bytes_eq}
use scylla_rust_driver.Prelude.Distinct.{mem}
use scylla_rust_driver.Routing.Sharding.{Token}
use scylla_rust_driver.Routing.Ring.{Search, TokenRing, ring_new, get_elem_for_token}
use scylla_rust_driver.Routing.Replication.{
  Node, host_key, DatacenterNodes, ReplicationInfo, simple_strategy_replicas,
  nts_replicas_in_datacenter,
}

pub data Strategy : Type 0 where
  simple_strategy : (replication_factor : ℕ) → Strategy
  network_topology_strategy : (datacenter_repfactors : List (List ℕ × ℕ)) → Strategy
  local_strategy other : Strategy

abbrev pub Replicas : Type 0
Replicas = List Node

pub record PrecomputedReplicasRing : Type 0 where
  pub replicas_for_token : TokenRing Replicas
  pub max_rep_factor : ℕ

pub record DatacenterPrecomputedReplicas : Type 0 where
  pub compressed_replica_ring : Option PrecomputedReplicasRing
  pub above_rack_count_replica_rings : ℕ → Option (TokenRing Replicas)

pub record PrecomputedReplicas : Type 0 where
  pub global_replicas : PrecomputedReplicasRing
  pub datacenter_replicas : List ℕ → Option DatacenterPrecomputedReplicas

unfoldable pub get_replica_ring_for_rf :
    DatacenterPrecomputedReplicas → ℕ → Option (TokenRing Replicas)
get_replica_ring_for_rf s replication_factor =
    let above = s.above_rack_count_replica_rings replication_factor in
    elim s.compressed_replica_ring [
      | none ↦ above
      | some compressed ↦
          if leb replication_factor compressed.max_rep_factor
          then some compressed.replicas_for_token
          else above
    ]

-- `max_global_repfactor` after the loop over the strategies.
unfoldable pub max_global_repfactor : ℕ → List Strategy → ℕ
max_global_repfactor n [] = n
max_global_repfactor n (Strategy.simple_strategy replication_factor ∷ strategies) =
    max_global_repfactor (max n replication_factor) strategies
max_global_repfactor n (_ ∷ strategies) = max_global_repfactor n strategies

-- The entries of `dc_repfactors`: a datacenter's replication factors, in no order.
abbrev pub Repfactors : Type 0
Repfactors = List ℕ → Option (List ℕ)

abbrev pub or_no_repfactors : Option (List ℕ) → List ℕ
or_no_repfactors none = []
or_no_repfactors (some repfactors) = repfactors

-- `entry(dc_name).or_default().insert(dc_repfactor)`.
unfoldable pub insert_repfactor : Repfactors → List ℕ → ℕ → Repfactors
insert_repfactor m dc_name dc_repfactor n =
    if bytes_eq dc_name n then some (dc_repfactor ∷ or_no_repfactors (m n)) else m n

unfoldable pub insert_repfactors : Repfactors → List (List ℕ × ℕ) → Repfactors
unfolding insert_repfactor
insert_repfactors m [] = m
insert_repfactors m ((dc_name, dc_repfactor) ∷ rest) =
    insert_repfactors (insert_repfactor m dc_name dc_repfactor) rest

unfoldable pub dc_repfactors : Repfactors → List Strategy → Repfactors
unfolding insert_repfactors
dc_repfactors m [] = m
dc_repfactors m (Strategy.network_topology_strategy datacenter_repfactors ∷ strategies) =
    dc_repfactors (insert_repfactors m datacenter_repfactors) strategies
dc_repfactors m (_ ∷ strategies) = dc_repfactors m strategies

abbrev pub greatest : ℕ → Option ℕ → Option ℕ
greatest rf none = some rf
greatest rf (some m) = some (max rf m)

-- `range(..=rack_count).next_back()`: the greatest that is not above the number of racks.
unfoldable pub last_within : ℕ → List ℕ → Option ℕ
last_within rack_count [] = none
last_within rack_count (rf ∷ repfactors) =
    let rest = last_within rack_count repfactors in
    if leb rf rack_count then greatest rf rest else rest

-- For each token of a ring, the replicas of the token.
unfoldable pub replica_ring : {A : Type 0} → TokenRing A → (Token → Replicas) → TokenRing Replicas
unfolding ring_new
replica_ring s replicas = ring_new (map (λ e. (e.0, replicas e.0)) s.ring)

module _ (binary_search_by : Search) (replication_data : ReplicationInfo) where
  abbrev pub produce_replica_ring : List ℕ → DatacenterNodes → ℕ → TokenRing Replicas
  produce_replica_ring dc_name dc_rep_data rf =
      replica_ring dc_rep_data.dc_ring
        (λ token. nts_replicas_in_datacenter binary_search_by replication_data token dc_name rf)

  unfoldable pub precompute_datacenter :
      List ℕ → DatacenterNodes → List ℕ → DatacenterPrecomputedReplicas
  precompute_datacenter dc_name dc_rep_data repfactors = record {
    compressed_replica_ring = elim (last_within dc_rep_data.rack_count repfactors) [
      | none ↦ none
      | some rf ↦ some (record {
        replicas_for_token = produce_replica_ring dc_name dc_rep_data rf;
        max_rep_factor = rf;
      })
    ];
    above_rack_count_replica_rings = λ rf.
        if ltb dc_rep_data.rack_count rf && mem host_key rf repfactors
        then some (produce_replica_ring dc_name dc_rep_data rf)
        else none;
  }

  unfoldable pub compute : List Strategy → PrecomputedReplicas
  compute keyspace_strategies =
      let max_global_repfactor = max_global_repfactor 1 keyspace_strategies in
      record {
        global_replicas = record {
          replicas_for_token = replica_ring replication_data.global_ring (λ token.
              simple_strategy_replicas binary_search_by replication_data token
                max_global_repfactor);
          max_rep_factor = max_global_repfactor;
        };
        datacenter_replicas = λ dc_name. do
          repfactors ← dc_repfactors (λ n. none) keyspace_strategies dc_name
          dc_rep_data ← replication_data.datacenters dc_name
          some (precompute_datacenter dc_name dc_rep_data repfactors);
      }

abbrev pub first_of : ℕ → Replicas → Replicas
first_of replication_factor replicas = take (min (length replicas) replication_factor) replicas

unfoldable pub get_precomputed_simple_strategy_replicas :
    Search → PrecomputedReplicas → Token → ℕ → Option Replicas
get_precomputed_simple_strategy_replicas binary_search_by s token replication_factor =
    if ltb s.global_replicas.max_rep_factor replication_factor
    then none
    else (get_elem_for_token binary_search_by s.global_replicas.replicas_for_token token
        >>= λ replicas. some (first_of replication_factor replicas))

unfoldable pub get_precomputed_network_strategy_replicas :
    Search → PrecomputedReplicas → Token → List ℕ → ℕ → Option Replicas
unfolding get_replica_ring_for_rf
get_precomputed_network_strategy_replicas binary_search_by s token dc_name dc_replication_factor =
    do
      replicas ← s.datacenter_replicas dc_name
      ring ← get_replica_ring_for_rf replicas dc_replication_factor
      found ← get_elem_for_token binary_search_by ring token
      some (first_of dc_replication_factor found)
