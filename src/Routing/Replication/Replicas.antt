-- ===== src/Routing/Replication/Replicas.antt =====
-- How many replicas the strategies find, and over how many racks.
use Prim.Native.Nat.{min}
use mathlib.Core.Path.{ap, subst, ◌∙◌}
use mathlib.Core.List.{Permᴰ}
use mathlib.Core.List.Permᴰ
use scylla_rust_driver.Prelude.{
  ℕ, zero, suc, ◌-◌, ◌≡◌, refl, sym, Option, some, List, [], ◌∷◌, length, take, All, arith,
  Bool-cases, inl, inr, length-take,
}
use scylla_rust_driver.Prelude.Distinct.{
  fresh_le, fresh_all, fresh-Perm, fresh-unique_from, All-Perm, All-unique_from,
}
use scylla_rust_driver.Routing.Sharding.{Token}
use scylla_rust_driver.Routing.Ring.{Search, TokenRing, ring_new, ring_range, sort_by}
use scylla_rust_driver.Routing.Ring.Sorting.{sort_by-Perm}
use scylla_rust_driver.Routing.Ring.Walks.{IsBinarySearch}
use scylla_rust_driver.Routing.Replication.{
  Node, host_key, rack_key, name_eq, name_eq_iff, unique, Ring, DatacenterNodes, or_empty,
  datacenter_nodes_new, nodes_of, ReplicationInfo, replication_info_new, simple_strategy_replicas,
  nts_replicas_in_datacenter,
}
use scylla_rust_driver.Routing.Replication.Counting.{
  collect-walk, walk, walk-Counts, racks, rack_of_node, host_of, IsDistinct, IsDistinct-cons,
  walk-IsDistinct, All-walk,
}
use scylla_rust_driver.Routing.Replication.Members.{
  hosts, members, in_datacenter, in_datacenter-Perm, ring_range-Perm, IsRackOf, datacenter_lem,
  dc_ring_lem, unique_nodes_lem, rack_count_lem,
}

in_datacenter_all :
    (name : List ℕ) (ring : Ring)
    → All (λ (n : Node). n.datacenter ≡ some name) (members (in_datacenter name ring))
in_datacenter_all name [] = tt
in_datacenter_all name (e ∷ ring) = elim (Bool-cases (name_eq e.1.datacenter (some name))) [
  | inl h ↦ rw h ((name_eq_iff e.1.datacenter (some name)).0 h, in_datacenter_all name ring)
  | inr h ↦ rw h (in_datacenter_all name ring)
]

reflexive : (nodes : List Node) → All (λ (n : Node). n.host_id ≡ n.host_id) nodes
reflexive [] = tt
reflexive (n ∷ nodes) = (refl, reflexive nodes)

unique-IsDistinct : (nodes : List Node) → IsDistinct [] (unique nodes)
unique-IsDistinct nodes =
    fresh-unique_from host_key host_key host_of host_of (λ h. h) nodes [] [] (reflexive nodes)
      (λ h k. k)

-- What is shown of the replicas that are found among the nodes of a datacenter.
pub record Spread (name : List ℕ) (replication_factor : ℕ) (nodes found : List Node) : Type 0 where
  pub count : length found ≡ min replication_factor (hosts nodes)
  pub distinct : IsDistinct [] found
  pub rack_count : racks [] found ≡ min replication_factor (racks [] nodes)
  pub in_name : All (λ (n : Node). n.datacenter ≡ some name) found

walk-Spread :
    (name : List ℕ) (rf : ℕ) (nodes around : List Node) (rack_of : ℕ → Option (List ℕ))
    → Permᴰ around nodes
    → All (IsRackOf rack_of) nodes
    → All (λ (n : Node). n.datacenter ≡ some name) nodes
    → Spread name rf nodes (walk (min rf (hosts nodes)) [] (rf - racks [] nodes) (unique around))
walk-Spread name rf nodes around rack_of p one within =
    let left : ℕ = min rf (hosts nodes) in
    let repeats : ℕ = rf - racks [] nodes in
    let c = walk-Counts left [] repeats (unique around) in
    let n : length (unique around) ≡ hosts nodes = fresh-Perm host_key host_of p [] in
    let all = All-Perm (IsRackOf rack_of) (Permᴰ.symm p) one in
    let within' = All-Perm (λ (n : Node). n.datacenter ≡ some name) (Permᴰ.symm p) within in
    let r : racks [] (unique around) ≡ racks [] nodes =
      fresh-unique_from host_key rack_key host_of rack_of_node rack_of around [] [] all (λ h k. cc)
      ∙ fresh-Perm rack_key rack_of_node p [] in
    let le = fresh_le rack_key rack_of_node [] (unique around) in
    let le' = fresh_le rack_key rack_of_node [] (walk left [] repeats (unique around)) in
    record {
      count = omega (arith, n, r, le, c.count);
      distinct = walk-IsDistinct left [] repeats (unique around) [] (unique-IsDistinct around);
      rack_count = omega (arith, n, r, le, le', c.count, c.racks_ge, c.racks_le);
      in_name =
          All-walk (λ (n : Node). n.datacenter ≡ some name) left [] repeats (unique around)
            (All-unique_from host_key host_of (λ (n : Node). n.datacenter ≡ some name) [] around
              within');
    }

abbrev pub nts_walk : Search → Token → ℕ → DatacenterNodes → List Node
nts_walk s token rf dc =
    walk (min rf (length dc.unique_nodes_in_dc_ring)) [] (rf - dc.rack_count)
      (unique (ring_range s dc.dc_ring token))

pub nts_lem :
    (s : Search) (info : ReplicationInfo) (token : Token) (name : List ℕ) (rf : ℕ)
    → nts_replicas_in_datacenter s info token name rf
      ≡ nts_walk s token rf (or_empty (info.datacenters name))
unfolding nts_replicas_in_datacenter
nts_lem s info token name rf =
    let dc : DatacenterNodes = or_empty (info.datacenters name) in
    let left : ℕ = min rf (length dc.unique_nodes_in_dc_ring) in
    collect-walk (suc left) left (omega arith) [] (rf - dc.rack_count)
      (unique (ring_range s dc.dc_ring token))

-- The replicas of a token by the network topology strategy in a datacenter: as many as the
-- replication factor says, or as the datacenter has hosts if these are fewer, of distinct hosts of
-- that datacenter, and in as many racks as the replication factor says, or in all racks of the
-- datacenter if these are fewer. A node without a rack counts as of a rack of its own. The members
-- of the ring may come in any order, and all of one host name the same rack.
pub nts_replicas_in_datacenter-Spread :
    (s : Search)
    → IsBinarySearch s
    → (ring_iter : Ring) (token : Token) (name : List ℕ) (rf : ℕ) (rack_of : ℕ → Option (List ℕ))
    → All (IsRackOf rack_of) (members (in_datacenter name ring_iter))
    → Spread name rf
        (members (in_datacenter name ring_iter))
        (nts_replicas_in_datacenter s (replication_info_new ring_iter) token name rf)
nts_replicas_in_datacenter-Spread s law ring_iter token name rf rack_of one =
    let ring : Ring = in_datacenter name (sort_by ring_iter) in
    let nodes : List Node = members (in_datacenter name ring_iter) in
    let p : Permᴰ (members ring) nodes =
      Permᴰ.map (λ e. e.1) (in_datacenter-Perm name (sort_by-Perm ring_iter)) in
    let around : List Node = ring_range s (ring_new ring) token in
    let q : Permᴰ around nodes = Permᴰ.trans (ring_range-Perm s law ring token) p in
    let h : length (datacenter_nodes_new ring).unique_nodes_in_dc_ring ≡ hosts nodes =
      unique_nodes_lem ring ∙ fresh-Perm host_key host_of p [] in
    let r : (datacenter_nodes_new ring).rack_count ≡ racks [] nodes =
      rack_count_lem ring ∙ fresh-Perm rack_key rack_of_node p [] in
    let same : nts_walk s token rf (datacenter_nodes_new ring)
        ≡ walk (min rf (hosts nodes)) [] (rf - racks [] nodes) (unique around) =
      ap
        (λ k.
          walk (min rf k) [] (rf - (datacenter_nodes_new ring).rack_count)
            (unique (ring_range s (datacenter_nodes_new ring).dc_ring token)))
        h
      ∙ ap
          (λ k.
            walk (min rf (hosts nodes)) [] (rf - k)
              (unique (ring_range s (datacenter_nodes_new ring).dc_ring token)))
          r
      ∙ ap
          (λ d.
            walk (min rf (hosts nodes)) [] (rf - racks [] nodes) (unique (ring_range s d token)))
          (dc_ring_lem ring) in
    subst (Spread name rf nodes)
      (sym (
        nts_lem s (replication_info_new ring_iter) token name rf
        ∙ ap (nts_walk s token rf) (datacenter_lem ring_iter name)
        ∙ same))
      (walk-Spread name rf nodes around rack_of q one (in_datacenter_all name ring_iter))

take-IsDistinct :
    (k : ℕ) (nodes : List Node) (seen : List ℕ)
    → IsDistinct seen nodes
    → IsDistinct seen (take k nodes)
take-IsDistinct zero nodes seen h = refl
take-IsDistinct (suc k) [] seen h = refl
take-IsDistinct (suc k) (n ∷ nodes) seen h =
    let (new, rest) = fresh_all host_key host_of seen n nodes h in
    IsDistinct-cons seen n (take k nodes) new (take-IsDistinct k nodes (n.host_id ∷ seen) rest)

-- The replicas of a token by the simple strategy are as many as the replication factor says, or as
-- there are hosts if these are fewer, and their hosts are distinct.
pub simple_strategy_replicas_lem :
    (s : Search)
    → IsBinarySearch s
    → (ring_iter : Ring) (token : Token) (rf : ℕ)
    → (length (simple_strategy_replicas s (replication_info_new ring_iter) token rf)
        ≡ min rf (hosts (members ring_iter)))
      × IsDistinct [] (simple_strategy_replicas s (replication_info_new ring_iter) token rf)
unfolding simple_strategy_replicas replication_info_new ring_new
simple_strategy_replicas_lem s law ring_iter token rf =
    let ring : TokenRing Node = ring_new ring_iter in
    let around : List Node = ring_range s ring token in
    let kept : length (unique (nodes_of ring)) ≡ hosts (members ring_iter) =
      fresh-Perm host_key host_of (Permᴰ.map (λ e. e.1) (sort_by-Perm ring_iter)) [] in
    let walked : length (unique around) ≡ hosts (members ring_iter) =
      fresh-Perm host_key host_of (ring_range-Perm s law ring_iter token) [] in
    let k : ℕ = min rf (length (unique (nodes_of ring))) in
    (
      omega (arith, length-take k (unique around), kept, walked),
      take-IsDistinct k (unique around) [] (unique-IsDistinct around),
    )
