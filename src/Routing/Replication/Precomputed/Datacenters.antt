-- ===== src/Routing/Replication/Precomputed/Datacenters.antt =====
-- The precomputed replicas of a datacenter are those of the network topology strategy.
use mathlib.Core.Path.{ap, subst, ◌∙◌}
use mathlib.Core.List.{Permᴰ}
use mathlib.Core.List.Permᴰ
use scylla_rust_driver.Prelude.{
  ℕ, ◌<◌, ◌≡◌, refl, sym, Bool, true, false, ◌&&◌, ◌||◌, Option, none, some, List, [], ◌∷◌,
  if◌then◌else◌, ltb, length, All, arith, Bool-cases, inl, inr,
}
use scylla_rust_driver.Prelude.Options.{◌>>=◌}
use scylla_rust_driver.Prelude.Int.{ℤ, ◌<ℤ◌}
use scylla_rust_driver.Prelude.Distinct.{mem, fresh-Perm}
use scylla_rust_driver.Routing.Sharding.{Token}
use scylla_rust_driver.Routing.Ring.{
  Search, TokenRing, tokens_of, ring_new, sort_by, get_elem_for_token,
}
use scylla_rust_driver.Routing.Ring.Sorting.{sort_by-Perm}
use scylla_rust_driver.Routing.Ring.Walks.{IsBinarySearch}
use scylla_rust_driver.Routing.Replication.{
  host_key, rack_key, name_eq, Ring, DatacenterNodes, or_default, or_empty, datacenter_of,
  datacenter_nodes, datacenter_nodes_new, ReplicationInfo, replication_info_new,
  nts_replicas_in_datacenter,
}
use scylla_rust_driver.Routing.Replication.Counting.{racks, rack_of_node}
use scylla_rust_driver.Routing.Replication.Members.{
  members, in_datacenter, in_datacenter-Perm, datacenter_nodes_lem, rack_count_lem,
}
use scylla_rust_driver.Routing.Replication.Replicas.{nts_walk, nts_lem}
use scylla_rust_driver.Routing.Replication.Precomputed.{
  Strategy, Replicas, dc_repfactors, produce_replica_ring, precompute_datacenter, compute, first_of,
  get_replica_ring_for_rf, get_precomputed_network_strategy_replicas,
}
use scylla_rust_driver.Routing.Replication.Precomputed.Rings.{IsStrict, sort_by_sorted}
use scylla_rust_driver.Routing.Replication.Precomputed.Lookups.{
  IsStrict-IsSorted, Finds, get_elem_for_token-Finds,
}
use scylla_rust_driver.Routing.Replication.Precomputed.Agree.{HasDistinctTokens, length-Perm}
use scylla_rust_driver.Routing.Replication.Precomputed.Serving.{
  any_within, Serves, nts_prefix, is_above, Served, get_replica_ring_for_rf_lem,
}

All-in_datacenter :
    (P : ℤ → Type 0) (name : List ℕ) (ring : Ring)
    → All P (tokens_of ring)
    → All P (tokens_of (in_datacenter name ring))
All-in_datacenter P name [] h = tt
All-in_datacenter P name (e ∷ ring) (p, h) =
    elim (Bool-cases (name_eq e.1.datacenter (some name))) [
      | inl k ↦ rw k (p, All-in_datacenter P name ring h)
      | inr k ↦ rw k (All-in_datacenter P name ring h)
    ]

in_datacenter-IsStrict :
    (name : List ℕ) (ring : Ring) → IsStrict ring → IsStrict (in_datacenter name ring)
in_datacenter-IsStrict name [] h = tt
in_datacenter-IsStrict name (e ∷ ring) (above, h) =
    elim (Bool-cases (name_eq e.1.datacenter (some name))) [
      | inl k ↦ rw k (
        All-in_datacenter (λ x. e.0.value <ℤ x) name ring above,
        in_datacenter-IsStrict name ring h,
      )
      | inr k ↦ rw k (in_datacenter-IsStrict name ring h)
    ]

known_datacenter :
    (o : Option Ring) (ring : Ring)
    → or_default o ≡ ring
    → 0 < length ring
    → datacenter_of o ≡ some (datacenter_nodes_new ring)
known_datacenter none ring e h = absurd (omega (arith, h, ap length e))
known_datacenter (some l) ring e h = ap (λ r. some (datacenter_nodes_new r)) e

module _ (s : Search) (law : IsBinarySearch s) (ring_iter : Ring)
    (distinct : HasDistinctTokens ring_iter) (name : List ℕ)
    (members_lt : 0 < length (in_datacenter name ring_iter)) where
  abbrev info : ReplicationInfo
  info = replication_info_new ring_iter

  abbrev dc_members : Ring
  dc_members = in_datacenter name (sort_by ring_iter)

  abbrev dc : DatacenterNodes
  dc = datacenter_nodes_new dc_members

  dc_members-Perm : Permᴰ dc_members (in_datacenter name ring_iter)
  dc_members-Perm = in_datacenter-Perm name (sort_by-Perm ring_iter)

  dc_known : info.datacenters name ≡ some dc
  unfolding replication_info_new ring_new
  dc_known =
      known_datacenter (datacenter_nodes (λ n. none) (sort_by ring_iter) name) dc_members
        (datacenter_nodes_lem (sort_by ring_iter) (λ n. none) name)
        (omega (arith, members_lt, length-Perm dc_members-Perm))

  dc_ordered : IsStrict dc.dc_ring.ring
  unfolding ring_new datacenter_nodes_new
  dc_ordered =
      let strict : IsStrict dc_members = in_datacenter-IsStrict name (sort_by ring_iter) distinct in
      subst IsStrict (sym (sort_by_sorted dc_members (IsStrict-IsSorted dc_members strict))) strict

  dc_members_lt : dc.dc_ring.ring ≡ [] → 0 < 0
  unfolding ring_new datacenter_nodes_new
  dc_members_lt e = omega (
    arith,
    members_lt,
    length-Perm dc_members-Perm,
    length-Perm (sort_by-Perm dc_members),
    ap length e,
  )

  nts_known :
      (token : Token) (rf : ℕ)
      → nts_replicas_in_datacenter s info token name rf ≡ nts_walk s token rf dc
  nts_known token rf =
      nts_lem s info token name rf ∙ ap (λ o. nts_walk s token rf (or_empty o)) dc_known

  nts_found :
      (token : Token) (rf rf' : ℕ) (o : Option Replicas)
      → Serves dc.rack_count rf rf'
      → Finds (λ t. nts_replicas_in_datacenter s info t name rf') s dc.dc_ring token o
      → (o >>= λ found. some (first_of rf found))
        ≡ some (nts_replicas_in_datacenter s info token name rf)
  nts_found token rf rf' o serves (inl (empty, e)) = absurd (omega (arith, dc_members_lt empty))
  nts_found token rf rf' o serves (inr (t, e, same)) =
      let eq : first_of rf (nts_replicas_in_datacenter s info t name rf')
          ≡ nts_replicas_in_datacenter s info token name rf =
        ap (first_of rf) (nts_known t rf')
        ∙ nts_prefix s dc t token rf rf' serves same
        ∙ sym (nts_known token rf) in
      rw e (ap some eq)

  ring_found :
      (token : Token) (rf : ℕ) (b : Bool) (repfactors : List ℕ) (o : Option (TokenRing Replicas))
      → Served s info name dc repfactors rf b o
      → (o >>= λ ring. get_elem_for_token s ring token >>= λ found. some (first_of rf found))
        ≡ (if b then some (nts_replicas_in_datacenter s info token name rf) else none)
  ring_found token rf false repfactors o e = rw e refl
  ring_found token rf true repfactors o (rf', e, serves) =
      let ring : TokenRing Replicas = produce_replica_ring s info name dc rf' in
      rw e (
        nts_found token rf rf' (get_elem_for_token s ring token) serves (
          get_elem_for_token-Finds (λ t. nts_replicas_in_datacenter s info t name rf') s law
            dc.dc_ring token dc_ordered))

  -- For a datacenter with members, in a ring whose tokens are distinct, and for which the keyspaces
  -- have replication factors: the precomputed replicas are those that are computed from the ring,
  -- for each of these factors, and for each that is not above one of them which is not above the
  -- number of racks of the datacenter; for any other there are none.
  pub get_precomputed_network_strategy_replicas_lem :
      (strategies : List Strategy) (token : Token) (rf : ℕ) (repfactors : List ℕ)
      → dc_repfactors (λ n. none) strategies name ≡ some repfactors
      → get_precomputed_network_strategy_replicas s (compute s info strategies) token name rf ≡ (
          if any_within (racks [] (members (in_datacenter name ring_iter))) rf repfactors
            || (ltb (racks [] (members (in_datacenter name ring_iter))) rf
                && mem host_key rf repfactors)
          then some (nts_replicas_in_datacenter s info token name rf)
          else none)
  unfolding get_precomputed_network_strategy_replicas compute
  get_precomputed_network_strategy_replicas_lem strategies token rf repfactors e =
      let r : dc.rack_count ≡ racks [] (members (in_datacenter name ring_iter)) =
        rack_count_lem dc_members
        ∙ fresh-Perm rack_key rack_of_node (Permᴰ.map (λ m. m.1) dc_members-Perm) [] in
      let rings : Option (TokenRing Replicas) =
        get_replica_ring_for_rf (precompute_datacenter s info name dc repfactors) rf in
      subst
        (λ n.
          get_precomputed_network_strategy_replicas s (compute s info strategies) token name rf ≡ (
            if any_within n rf repfactors || (ltb n rf && mem host_key rf repfactors)
            then some (nts_replicas_in_datacenter s info token name rf)
            else none))
        r
        (rw (e, dc_known)
          (ring_found token rf
            (any_within dc.rack_count rf repfactors || is_above s info name dc repfactors rf)
            repfactors rings (get_replica_ring_for_rf_lem s info name dc repfactors rf)))
