-- ===== src/Routing/Replication/Precomputed/Serving.antt =====
-- Which precomputed ring serves a replication factor of a datacenter, and that it does.
use Prim.Native.Nat.{min}
use mathlib.Core.Path.{ap, subst, ◌∙◌}
use scylla_rust_driver.Prelude.{
  ℕ, zero, suc, ◌-◌, ◌≤◌, ◌≡◌, refl, sym, Bool, true, false, ◌&&◌, ◌||◌, ◌⊎◌, Option, none, some,
  List, [], ◌∷◌, if◌then◌else◌, ltb, leb, length, take, arith, Bool-cases, Option-cases, inl, inr,
  take_all,
}
use scylla_rust_driver.Prelude.Distinct.{mem}
use scylla_rust_driver.Routing.Sharding.{Token}
use scylla_rust_driver.Routing.Ring.{Search, TokenRing, ring_range}
use scylla_rust_driver.Routing.Replication.{
  Node, host_key, rack_key, unique, DatacenterNodes, ReplicationInfo,
}
use scylla_rust_driver.Routing.Replication.Counting.{Racks, walk, walk-Counts}
use scylla_rust_driver.Routing.Replication.Replicas.{nts_walk}
use scylla_rust_driver.Routing.Replication.Precomputed.{
  Replicas, greatest, last_within, produce_replica_ring, precompute_datacenter, first_of,
  get_replica_ring_for_rf,
}
use scylla_rust_driver.Routing.Replication.Precomputed.Agree.{first_of-take}

walk_fits :
    (left : ℕ) (used : Racks) (n : Node) (nodes : List Node)
    → mem rack_key n.rack used ≡ false
    → walk (suc left) used 0 (n ∷ nodes) ≡ n ∷ walk left (n.rack ∷ used) 0 nodes
walk_fits left used n nodes e = rw (e, walk) refl

walk_skips :
    (left : ℕ) (used : Racks) (n : Node) (nodes : List Node)
    → mem rack_key n.rack used ≡ true
    → walk (suc left) used 0 (n ∷ nodes) ≡ walk (suc left) used 0 nodes
walk_skips left used n nodes e = rw (e, walk) refl

-- Without repeats, the replicas of a smaller replication factor come first.
walk_prefix :
    (k left : ℕ) (used : Racks) (nodes : List Node)
    → take k (walk left used 0 nodes) ≡ walk (min k left) used 0 nodes
walk_prefix zero left used nodes =
    let m : 0 ≡ min 0 left = omega arith in ap (λ n. walk n used 0 nodes) m
walk_prefix (suc k) zero used nodes =
    let m : 0 ≡ min (suc k) 0 = omega arith in ap (λ n. walk n used 0 nodes) m
walk_prefix (suc k) (suc left) used [] =
    let m : suc (min k left) ≡ min (suc k) (suc left) = omega arith in ap (λ n. walk n used 0 []) m
walk_prefix (suc k) (suc left) used (n ∷ nodes) =
    let m : suc (min k left) ≡ min (suc k) (suc left) = omega arith in
    elim (Bool-cases (mem rack_key n.rack used)) [
      | inl e ↦
          ap (take (suc k)) (walk_skips left used n nodes e)
          ∙ walk_prefix (suc k) (suc left) used nodes
          ∙ ap (λ i. walk i used 0 nodes) (sym m)
          ∙ sym (walk_skips (min k left) used n nodes e)
          ∙ ap (λ i. walk i used 0 (n ∷ nodes)) m
      | inr e ↦
          ap (take (suc k)) (walk_fits left used n nodes e)
          ∙ ap (λ l. n ∷ l) (walk_prefix k left (n.rack ∷ used) nodes)
          ∙ sym (walk_fits (min k left) used n nodes e)
          ∙ ap (λ i. walk i used 0 (n ∷ nodes)) m
    ]

-- One of the replication factors is at least this one, and not above the number of racks.
abbrev pub any_within : (rack_count rf : ℕ) → List ℕ → Bool
any_within rack_count rf [] = false
any_within rack_count rf (x ∷ repfactors) =
    (leb x rack_count && leb rf x) || any_within rack_count rf repfactors

abbrev reaches : ℕ → Option ℕ → Bool
reaches rf none = false
reaches rf (some m) = leb rf m

abbrev pub AtMost : ℕ → Option ℕ → Type 0
AtMost n none = Unit
AtMost n (some m) = m ≤ n

last_step :
    (rack_count rf x : ℕ) (b : Bool) (rest : Option ℕ)
    → b ≡ reaches rf rest
    → AtMost rack_count rest
    → (((leb x rack_count && leb rf x) || b)
        ≡ reaches rf (if leb x rack_count then greatest x rest else rest))
      × AtMost rack_count (if leb x rack_count then greatest x rest else rest)
last_step rack_count rf x b none e h = elim (Bool-cases (leb x rack_count)) [
  | inl k ↦ rw k (ground (arith, e), ground (arith, k))
  | inr k ↦ rw k (e, tt)
]
last_step rack_count rf x b (some m) e h = elim (Bool-cases (leb x rack_count)) [
  | inl k ↦ rw k (ground (arith, e), ground (arith, k, h))
  | inr k ↦ rw k (e, h)
]

last_within_lem :
    (rack_count rf : ℕ) (repfactors : List ℕ)
    → (any_within rack_count rf repfactors ≡ reaches rf (last_within rack_count repfactors))
      × AtMost rack_count (last_within rack_count repfactors)
unfolding last_within
last_within_lem rack_count rf [] = (refl, tt)
last_within_lem rack_count rf (x ∷ repfactors) =
    let (same, most) = last_within_lem rack_count rf repfactors in
    last_step rack_count rf x (any_within rack_count rf repfactors)
      (last_within rack_count repfactors) same most

-- The replication factor that was precomputed for another: the same, or a greater one that is not
-- above the number of racks.
abbrev pub Serves : (rack_count rf rf' : ℕ) → Type 0
Serves rack_count rf rf' = (rf' ≡ rf) ⊎ ((rf ≤ rf') × (rf' ≤ rack_count))

nts_same :
    (s : Search) (dc : DatacenterNodes) (t token : Token) (rf : ℕ)
    → ring_range s dc.dc_ring t ≡ ring_range s dc.dc_ring token
    → first_of rf (nts_walk s t rf dc) ≡ nts_walk s token rf dc
nts_same s dc t token rf same =
    let left : ℕ = min rf (length dc.unique_nodes_in_dc_ring) in
    let c = walk-Counts left [] (rf - dc.rack_count) (unique (ring_range s dc.dc_ring t)) in
    first_of-take rf (nts_walk s t rf dc)
    ∙ take_all rf (nts_walk s t rf dc) (omega (arith, c.count))
    ∙ ap (λ l. walk left [] (rf - dc.rack_count) (unique l)) same

pub nts_prefix :
    (s : Search) (dc : DatacenterNodes) (t token : Token) (rf rf' : ℕ)
    → Serves dc.rack_count rf rf'
    → ring_range s dc.dc_ring t ≡ ring_range s dc.dc_ring token
    → first_of rf (nts_walk s t rf' dc) ≡ nts_walk s token rf dc
nts_prefix s dc t token rf rf' (inl e) same =
    subst (λ r. first_of rf (nts_walk s t r dc) ≡ nts_walk s token rf dc) (sym e)
      (nts_same s dc t token rf same)
nts_prefix s dc t token rf rf' (inr (le, le')) same =
    let u : ℕ = length dc.unique_nodes_in_dc_ring in
    let none' : rf' - dc.rack_count ≡ 0 = omega (arith, le') in
    let none'' : 0 ≡ rf - dc.rack_count = omega (arith, le, le') in
    let m : min rf (min rf' u) ≡ min rf u = omega (arith, le) in
    first_of-take rf (nts_walk s t rf' dc)
    ∙ ap (λ r. take rf (walk (min rf' u) [] r (unique (ring_range s dc.dc_ring t)))) none'
    ∙ walk_prefix rf (min rf' u) [] (unique (ring_range s dc.dc_ring t))
    ∙ ap (λ k. walk k [] 0 (unique (ring_range s dc.dc_ring t))) m
    ∙ ap (λ r. walk (min rf u) [] r (unique (ring_range s dc.dc_ring t))) none''
    ∙ ap (λ l. walk (min rf u) [] (rf - dc.rack_count) (unique l)) same

-- The ring that serves a replication factor, if there is one.
module _ (s : Search) (info : ReplicationInfo) (name : List ℕ) (dc : DatacenterNodes)
    (repfactors : List ℕ) (rf : ℕ) where
  abbrev pub is_above : Bool
  is_above = ltb dc.rack_count rf && mem host_key rf repfactors

  abbrev pub Served : Bool → Option (TokenRing Replicas) → Type 0
  Served true o =
      (rf' : ℕ) × (o ≡ some (produce_replica_ring s info name dc rf')) × Serves dc.rack_count rf rf'
  Served false o = o ≡ none

  above_ring :
      Served is_above (if is_above then some (produce_replica_ring s info name dc rf) else none)
  above_ring = elim (Bool-cases is_above) [ inl e ↦ rw e (rf, refl, inl refl) | inr e ↦ rw e refl ]

  pub get_replica_ring_for_rf_lem :
      Served
        (any_within dc.rack_count rf repfactors || is_above)
        (get_replica_ring_for_rf (precompute_datacenter s info name dc repfactors) rf)
  unfolding get_replica_ring_for_rf precompute_datacenter
  get_replica_ring_for_rf_lem =
      let (same, most) = last_within_lem dc.rack_count rf repfactors in
      elim (Option-cases (last_within dc.rack_count repfactors)) [
        | inl e ↦
            let not_within : any_within dc.rack_count rf repfactors ≡ false =
              same ∙ ap (reaches rf) e in
            rw (not_within, e) above_ring
        | inr (m, e) ↦
            let within : any_within dc.rack_count rf repfactors ≡ leb rf m =
              same ∙ ap (reaches rf) e in
            let le : m ≤ dc.rack_count = subst (AtMost dc.rack_count) e most in
            elim (Bool-cases (leb rf m)) [
              | inl k ↦ rw (within, e, k) (m, refl, inr (ground (arith, k), le))
              | inr k ↦ rw (within, e, k) above_ring
            ]
      ]
