-- ===== src/Routing/Replication/Counting.antt =====
-- How many replicas the iterator finds within a datacenter, and over how many racks.
use Prim.Native.Nat.{min}
use mathlib.Core.Path.{ap, subst, ◌∙◌}
use scylla_rust_driver.Prelude.{
  ℕ, zero, suc, ◌+◌, ◌-◌, ◌≤◌, ◌<◌, ◌≡◌, refl, sym, true, false, Option, none, some, List, [], ◌∷◌,
  ◌==◌, length, All, arith, Bool-cases, Option-cases, inl, inr,
}
use scylla_rust_driver.Prelude.Distinct.{
  mem, fresh, fresh_known, fresh_new, fresh_le, fresh_mono, fresh_all,
}
use scylla_rust_driver.Routing.Replication.{
  Node, host_key, rack_key, NtsReplicasInDatacenterIterator, find_next, next, collect,
}

abbrev pub Racks : Type 0
Racks = List (Option (List ℕ))

abbrev pub iterator_of :
    (left : ℕ) → Racks → (repeats : ℕ) → List Node → NtsReplicasInDatacenterIterator
iterator_of left used repeats nodes = record {
  replicas_left_to_find = left;
  unique_dc_ring_nodes_iter = nodes;
  used_racks = used;
  acceptable_repeats = repeats;
}

-- What the iterator gives: the nodes of unused racks, and as many others as there are repeats.
abbrev pub walk : (left : ℕ) → Racks → (repeats : ℕ) → List Node → List Node
walk zero used repeats nodes = []
walk (suc left) used repeats [] = []
walk (suc left) used repeats (n ∷ nodes) = elim (mem rack_key n.rack used) [
  | false ↦ n ∷ walk left (n.rack ∷ used) repeats nodes
  | true ↦ elim repeats [ zero ↦ walk (suc left) used 0 nodes | suc r ↦ n ∷ walk left used r nodes ]
]

-- What the walk does with a node.
data Visit (left : ℕ) (used : Racks) (repeats : ℕ) (n : Node) (nodes : List Node) : Type 0 where
  fits :
      mem rack_key n.rack used ≡ false
      → walk (suc left) used repeats (n ∷ nodes) ≡ n ∷ walk left (n.rack ∷ used) repeats nodes
      → Visit left used repeats n nodes
  skipped :
      mem rack_key n.rack used ≡ true
      → repeats ≡ 0
      → walk (suc left) used repeats (n ∷ nodes) ≡ walk (suc left) used 0 nodes
      → Visit left used repeats n nodes
  repeated :
      (r : ℕ)
      → mem rack_key n.rack used ≡ true
      → repeats ≡ suc r
      → walk (suc left) used repeats (n ∷ nodes) ≡ n ∷ walk left used r nodes
      → Visit left used repeats n nodes

visited_again :
    (left : ℕ) (used : Racks) (repeats : ℕ) (n : Node) (nodes : List Node)
    → mem rack_key n.rack used ≡ true
    → Visit left used repeats n nodes
visited_again left used zero n nodes e = Visit.skipped e refl (rw (e, walk) refl)
visited_again left used (suc r) n nodes e = Visit.repeated r e refl (rw (e, walk) refl)

visit :
    (left : ℕ) (used : Racks) (repeats : ℕ) (n : Node) (nodes : List Node)
    → Visit left used repeats n nodes
visit left used repeats n nodes = elim (Bool-cases (mem rack_key n.rack used)) [
  | inl e ↦ visited_again left used repeats n nodes e
  | inr e ↦ Visit.fits e (rw (e, walk) refl)
]

abbrev after_next : ℕ → Option (Node × NtsReplicasInDatacenterIterator) → List Node
after_next fuel none = []
after_next fuel (some r) = r.0 ∷ collect fuel r.1

collect_step :
    (fuel : ℕ) (it : NtsReplicasInDatacenterIterator)
    → collect (suc fuel) it ≡ after_next fuel (next it)
unfolding collect
collect_step fuel it = elim (Option-cases (next it)) [
  | inl e ↦ rw (e, collect) refl
  | inr (r, e) ↦ rw (e, collect) refl
]

-- `collect` with this fuel gives the walk for so many replicas.
abbrev Collects : ℕ → ℕ → Type 0
Collects fuel left =
    (used : Racks) (repeats : ℕ) (nodes : List Node)
    → collect fuel (iterator_of left used repeats nodes) ≡ walk left used repeats nodes

find_next-walk :
    (fuel left repeats : ℕ) (used : Racks) (nodes : List Node) (it : List Node)
    → Collects fuel left
    → after_next fuel (find_next (iterator_of (suc left) used repeats it) nodes)
      ≡ walk (suc left) used repeats nodes
unfolding find_next
find_next-walk fuel left repeats used [] it ih = refl
find_next-walk fuel left repeats used (n ∷ nodes) it ih =
    let less : suc left - 1 ≡ left = omega arith in
    elim (visit left used repeats n nodes) [
      | fits e w ↦
          rw (e, find_next, less) (ap (λ l. n ∷ l) (ih (n.rack ∷ used) repeats nodes)) ∙ sym w
      | skipped e z w ↦
          ap (λ k. after_next fuel (find_next (iterator_of (suc left) used k it) (n ∷ nodes))) z
          ∙ rw (e, find_next) (find_next-walk fuel left 0 used nodes it ih)
          ∙ sym w
      | repeated r e z w ↦ rw (e, z, find_next, less) (ap (λ l. n ∷ l) (ih used r nodes)) ∙ sym w
    ]

-- Fuel for one call more than there are replicas to find is enough: the calls of `next` then end,
-- and they give a node of each rack that is not used yet, and of the other nodes as many as there
-- are repeats, in the order of the nodes, until there are enough.
pub collect-walk :
    (fuel left : ℕ)
    → left < fuel
    → (used : Racks) (repeats : ℕ) (nodes : List Node)
    → collect fuel (iterator_of left used repeats nodes) ≡ walk left used repeats nodes
unfolding collect next
collect-walk zero left h used repeats nodes = absurd (omega (arith, h))
collect-walk (suc fuel) zero h used repeats nodes = refl
collect-walk (suc fuel) (suc left) h used repeats nodes =
    let more : (suc left == 0) ≡ false = ground arith in
    let found =
      find_next-walk fuel left repeats used nodes nodes
        (collect-walk fuel left (omega (arith, h))) in
    let it : NtsReplicasInDatacenterIterator = iterator_of (suc left) used repeats nodes in
    let step : next it ≡ find_next it nodes = rw (more, next) refl in
    collect_step fuel it ∙ ap (after_next fuel) step ∙ found

abbrev pub rack_of_node : Node → Option (List ℕ)
rack_of_node n = n.rack

abbrev pub racks : Racks → List Node → ℕ
racks used nodes = fresh rack_key rack_of_node used nodes

-- How many replicas there are: one for each new rack, and as many others as there are repeats and
-- as are found. Their racks are all, unless the others leave too few replicas, and no others.
pub record Counts (left : ℕ) (used : Racks) (repeats : ℕ) (nodes found : List Node) : Type 0 where
  pub count :
      length found ≡ min left (racks used nodes + min repeats (length nodes - racks used nodes))
  pub racks_ge :
      min (racks used nodes) (left - min repeats (length nodes - racks used nodes))
      ≤ racks used found
  pub racks_le : racks used found ≤ racks used nodes

pub walk-Counts :
    (left : ℕ) (used : Racks) (repeats : ℕ) (nodes : List Node)
    → Counts left used repeats nodes (walk left used repeats nodes)
walk-Counts zero used repeats nodes = record {
  count = omega arith;
  racks_ge = omega arith;
  racks_le = omega arith;
}
walk-Counts (suc left) used repeats [] = record {
  count = omega arith;
  racks_ge = omega arith;
  racks_le = omega arith;
}
walk-Counts (suc left) used repeats (n ∷ nodes) = elim (visit left used repeats n nodes) [
  | fits e w ↦
      let ih = walk-Counts left (n.rack ∷ used) repeats nodes in
      let a = fresh_new rack_key rack_of_node used n nodes e in
      let b = fresh_new rack_key rack_of_node used n (walk left (n.rack ∷ used) repeats nodes) e in
      let le = fresh_le rack_key rack_of_node (n.rack ∷ used) nodes in
      subst (Counts (suc left) used repeats (n ∷ nodes)) (sym w) (record {
        count = omega (arith, a, le, ih.count);
        racks_ge = omega (arith, a, b, le, ih.racks_ge);
        racks_le = omega (arith, a, b, le, ih.racks_le);
      })
  | skipped e z w ↦
      let ih = walk-Counts (suc left) used 0 nodes in
      let a = fresh_known rack_key rack_of_node used n nodes e in
      let le = fresh_le rack_key rack_of_node used nodes in
      subst (Counts (suc left) used repeats (n ∷ nodes)) (sym w) (record {
        count = omega (arith, a, z, le, ih.count);
        racks_ge = omega (arith, a, z, le, ih.racks_ge);
        racks_le = omega (arith, a, z, le, ih.racks_le);
      })
  | repeated r e z w ↦
      let ih = walk-Counts left used r nodes in
      let a = fresh_known rack_key rack_of_node used n nodes e in
      let b = fresh_known rack_key rack_of_node used n (walk left used r nodes) e in
      let le = fresh_le rack_key rack_of_node used nodes in
      subst (Counts (suc left) used repeats (n ∷ nodes)) (sym w) (record {
        count = omega (arith, a, z, le, ih.count);
        racks_ge = omega (arith, a, b, z, le, ih.racks_ge);
        racks_le = omega (arith, a, b, z, le, ih.racks_le);
      })
]

-- The replicas are nodes that are walked over.
pub All-walk :
    (P : Node → Type 0) (left : ℕ) (used : Racks) (repeats : ℕ) (nodes : List Node)
    → All P nodes
    → All P (walk left used repeats nodes)
All-walk P zero used repeats nodes h = tt
All-walk P (suc left) used repeats [] h = tt
All-walk P (suc left) used repeats (n ∷ nodes) (p, h) = elim (visit left used repeats n nodes) [
  | fits e w ↦ subst (All P) (sym w) (p, All-walk P left (n.rack ∷ used) repeats nodes h)
  | skipped e z w ↦ subst (All P) (sym w) (All-walk P (suc left) used 0 nodes h)
  | repeated r e z w ↦ subst (All P) (sym w) (p, All-walk P left used r nodes h)
]

abbrev pub host_of : Node → ℕ
host_of n = n.host_id

-- Nodes of distinct hosts, after those that were seen.
abbrev pub IsDistinct : List ℕ → List Node → Type 0
IsDistinct seen nodes = fresh host_key host_of seen nodes ≡ length nodes

pub IsDistinct-cons :
    (seen : List ℕ) (n : Node) (nodes : List Node)
    → mem host_key n.host_id seen ≡ false
    → IsDistinct (n.host_id ∷ seen) nodes
    → IsDistinct seen (n ∷ nodes)
IsDistinct-cons seen n nodes e h = omega (arith, fresh_new host_key host_of seen n nodes e, h)

pub walk-IsDistinct :
    (left : ℕ) (used : Racks) (repeats : ℕ) (nodes : List Node) (seen : List ℕ)
    → IsDistinct seen nodes
    → IsDistinct seen (walk left used repeats nodes)
walk-IsDistinct zero used repeats nodes seen h = refl
walk-IsDistinct (suc left) used repeats [] seen h = refl
walk-IsDistinct (suc left) used repeats (n ∷ nodes) seen h =
    let (new, rest) = fresh_all host_key host_of seen n nodes h in
    elim (visit left used repeats n nodes) [
      | fits e w ↦
          let ih = walk-IsDistinct left (n.rack ∷ used) repeats nodes (n.host_id ∷ seen) rest in
          subst (IsDistinct seen) (sym w)
            (IsDistinct-cons seen n (walk left (n.rack ∷ used) repeats nodes) new ih)
      | skipped e z w ↦
          let fewer = fresh_mono host_key host_of n.host_id seen nodes in
          let most = fresh_le host_key host_of seen nodes in
          subst (IsDistinct seen) (sym w)
            (walk-IsDistinct (suc left) used 0 nodes seen (omega (arith, rest, fewer, most)))
      | repeated r e z w ↦
          let ih = walk-IsDistinct left used r nodes (n.host_id ∷ seen) rest in
          subst (IsDistinct seen) (sym w) (IsDistinct-cons seen n (walk left used r nodes) new ih)
    ]
