-- ===== src/Routing/Replication.antt =====
-- `ReplicationInfo` of scylla/src/routing/locator/replication_info.rs: the replicas of a token by the
-- simple strategy, and by the network topology strategy within a datacenter.
pub mod Counting
pub mod Members
pub mod Replicas
pub mod Precomputed
pub mod Examples
use Prim.Native.Nat.{min}
use mathlib.Core.Path.{ap, subst}
use mathlib.Core.Option.{some_inj}
use scylla_rust_driver.Prelude.{
  ℕ, zero, suc, ◌-◌, ◌≡◌, refl, ◌↔◌, Bool, true, false, Option, none, some, List, [], ◌∷◌, ◌++◌,
  if◌then◌else◌, ltb, ◌==◌, length, take, map, ==_iff,
}
use scylla_rust_driver.Prelude.Bytes.{bytes_eq, bytes_eq→eq, bytes_eq_refl}
use scylla_rust_driver.Prelude.Distinct.{Key, mem, unique_from}
use scylla_rust_driver.Routing.Sharding.{Token}
use scylla_rust_driver.Routing.Ring.{Search, TokenRing, new_empty, ring_new, ring_range}

-- An `Arc<Node>`: a host id stands for its UUID, which is all that `Eq` and `Hash` of a node read.
-- The fields that no strategy reads are left out.
pub record Node : Type 0 where
  pub host_id : ℕ
  pub datacenter : Option (List ℕ)
  pub rack : Option (List ℕ)

abbrev pub host_key : Key ℕ
host_key = record { test = ◌==◌; test_iff = ==_iff }

-- `==` on an optional name.
abbrev pub name_eq : Option (List ℕ) → Option (List ℕ) → Bool
name_eq none none = true
name_eq (some a) (some b) = bytes_eq a b
name_eq _ _ = false

pub name_eq_iff : (a b : Option (List ℕ)) → (name_eq a b ≡ true) ↔ (a ≡ b)
name_eq_iff none none = ((λ h. refl), (λ h. refl))
name_eq_iff none (some b) = ((λ h. cc), (λ h. cc))
name_eq_iff (some a) none = ((λ h. cc), (λ h. cc))
name_eq_iff (some a) (some b) = (
  (λ h. ap some (bytes_eq→eq a b h)),
  (λ h. subst (λ c. bytes_eq a c ≡ true) (some_inj.0 h) (bytes_eq_refl a)),
)

abbrev pub rack_key : Key (Option (List ℕ))
rack_key = record { test = name_eq; test_iff = name_eq_iff }

abbrev pub unique : List Node → List Node
unique nodes = unique_from host_key (λ (n : Node). n.host_id) [] nodes

abbrev pub Ring : Type 0
Ring = List (Token × Node)

pub record DatacenterNodes : Type 0 where
  pub dc_ring : TokenRing Node
  pub unique_nodes_in_dc_ring : List Node
  pub rack_count : ℕ

abbrev pub empty_datacenter_nodes : DatacenterNodes
empty_datacenter_nodes = record {
  dc_ring = new_empty;
  unique_nodes_in_dc_ring = [];
  rack_count = 0;
}

pub record ReplicationInfo : Type 0 where
  pub global_ring : TokenRing Node
  pub unique_nodes_in_global_ring : List Node
  pub datacenters : List ℕ → Option DatacenterNodes

abbrev pub DatacenterRings : Type 0
DatacenterRings = List ℕ → Option Ring

abbrev pub or_default : Option Ring → Ring
or_default none = []
or_default (some nodes) = nodes

-- `entry(datacenter_name).or_default().push(…)`.
unfoldable pub push_entry : List ℕ → Token × Node → DatacenterRings → DatacenterRings
push_entry name e m n = if bytes_eq name n then some (or_default (m n) ++ e ∷ []) else m n

-- The loop over the global ring.
unfoldable pub datacenter_nodes : DatacenterRings → Ring → DatacenterRings
unfolding push_entry
datacenter_nodes m [] = m
datacenter_nodes m ((token, node) ∷ ring) = elim node.datacenter [
  | none ↦ datacenter_nodes m ring
  | some name ↦ datacenter_nodes (push_entry name (token, node) m) ring
]

abbrev pub nodes_of : TokenRing Node → List Node
nodes_of s = map (λ e. e.1) s.ring

unfoldable pub datacenter_nodes_new : Ring → DatacenterNodes
unfolding ring_new
datacenter_nodes_new this_datacenter_nodes =
    let dc_ring = ring_new this_datacenter_nodes in
    record {
      dc_ring = dc_ring;
      unique_nodes_in_dc_ring = unique (nodes_of dc_ring);
      rack_count =
          length (unique_from rack_key (λ r. r) [] (map (λ (n : Node). n.rack) (nodes_of dc_ring)));
    }

abbrev pub datacenter_of : Option Ring → Option DatacenterNodes
datacenter_of none = none
datacenter_of (some this_datacenter_nodes) = some (datacenter_nodes_new this_datacenter_nodes)

unfoldable pub replication_info_new : Ring → ReplicationInfo
unfolding datacenter_nodes ring_new
replication_info_new ring_iter =
    let global_ring = ring_new ring_iter in
    record {
      global_ring = global_ring;
      unique_nodes_in_global_ring = unique (nodes_of global_ring);
      datacenters = λ name. datacenter_of (datacenter_nodes (λ n. none) global_ring.ring name);
    }

unfoldable pub simple_strategy_replicas : Search → ReplicationInfo → Token → ℕ → List Node
simple_strategy_replicas binary_search_by s token replication_factor =
    let num_to_take = min replication_factor (length s.unique_nodes_in_global_ring) in
    take num_to_take (unique (ring_range binary_search_by s.global_ring token))

pub record NtsReplicasInDatacenterIterator : Type 0 where
  pub replicas_left_to_find : ℕ
  pub unique_dc_ring_nodes_iter : List Node
  pub used_racks : List (Option (List ℕ))
  pub acceptable_repeats : ℕ

-- The loop of `next`, on the nodes that are left.
unfoldable pub find_next :
    NtsReplicasInDatacenterIterator → List Node → Option (Node × NtsReplicasInDatacenterIterator)
find_next s [] = none
find_next s (next_node ∷ rest) = elim (mem rack_key next_node.rack s.used_racks) [
  | false ↦ some (
    next_node,
    record {
      replicas_left_to_find = s.replicas_left_to_find - 1;
      unique_dc_ring_nodes_iter = rest;
      used_racks = next_node.rack ∷ s.used_racks;
      acceptable_repeats = s.acceptable_repeats;
    },
  )
  | true ↦ elim s.acceptable_repeats [
    | zero ↦ find_next s rest
    | suc n ↦ some (
      next_node,
      record {
        replicas_left_to_find = s.replicas_left_to_find - 1;
        unique_dc_ring_nodes_iter = rest;
        used_racks = s.used_racks;
        acceptable_repeats = n;
      },
    )
  ]
]

unfoldable pub next :
    NtsReplicasInDatacenterIterator → Option (Node × NtsReplicasInDatacenterIterator)
unfolding find_next
next s = if s.replicas_left_to_find == 0 then none else find_next s s.unique_dc_ring_nodes_iter

-- The calls of `next` until it gives none; each that does not finds one of the replicas left.
unfoldable pub collect : ℕ → NtsReplicasInDatacenterIterator → List Node
collect zero s = []
collect (suc fuel) s = elim (next s) [ none ↦ [] | some r ↦ r.0 ∷ collect fuel r.1 ]

abbrev pub or_empty : Option DatacenterNodes → DatacenterNodes
or_empty none = empty_datacenter_nodes
or_empty (some nodes) = nodes

unfoldable pub nts_replicas_iterator :
    Search → ReplicationInfo → Token → List ℕ → ℕ → NtsReplicasInDatacenterIterator
nts_replicas_iterator binary_search_by s token datacenter_name replication_factor =
    let dc_lb_data = or_empty (s.datacenters datacenter_name) in
    record {
      replicas_left_to_find = min replication_factor (length dc_lb_data.unique_nodes_in_dc_ring);
      unique_dc_ring_nodes_iter = unique (ring_range binary_search_by dc_lb_data.dc_ring token);
      used_racks = [];
      acceptable_repeats = replication_factor - dc_lb_data.rack_count;
    }

unfoldable pub nts_replicas_in_datacenter :
    Search → ReplicationInfo → Token → List ℕ → ℕ → List Node
unfolding nts_replicas_iterator
nts_replicas_in_datacenter binary_search_by s token datacenter_name replication_factor =
    let it = nts_replicas_iterator binary_search_by s token datacenter_name replication_factor in
    collect (suc it.replicas_left_to_find) it
