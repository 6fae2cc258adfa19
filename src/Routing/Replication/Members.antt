-- ===== src/Routing/Replication/Members.antt =====
-- The members of a ring in a datacenter, and what is kept of them.
use mathlib.Core.Path.{ap, subst, ◌∙◌}
use mathlib.Core.List.{Permᴰ, append-nil, append_assoc}
use mathlib.Core.List.Permᴰ
use scylla_rust_driver.Prelude.{
  ℕ, ◌≡◌, refl, sym, Option, none, some, List, [], ◌∷◌, ◌++◌, if◌then◌else◌, length, map,
  Bool-cases, Option-cases, inl, inr,
}
use scylla_rust_driver.Prelude.Bytes.{bytes_eq}
use scylla_rust_driver.Prelude.Distinct.{fresh, fresh-Perm, fresh-map}
use scylla_rust_driver.Routing.Sharding.{Token}
use scylla_rust_driver.Routing.Ring.{Search, ring_new, ring_range, ring_range_full, sort_by}
use scylla_rust_driver.Routing.Ring.Sorting.{sort_by-Perm, sort_by-IsSorted}
use scylla_rust_driver.Routing.Ring.Walks.{IsBinarySearch, ring_range_full-Rotation}
use scylla_rust_driver.Routing.Replication.{
  Node, host_key, rack_key, name_eq, Ring, DatacenterRings, or_default, or_empty, push_entry,
  datacenter_nodes, datacenter_nodes_new, nodes_of, datacenter_of, replication_info_new,
}
use scylla_rust_driver.Routing.Replication.Counting.{racks, rack_of_node, host_of}

-- The number of hosts.
abbrev pub hosts : List Node → ℕ
hosts nodes = fresh host_key host_of [] nodes

abbrev pub members : Ring → List Node
members ring = map (λ e. e.1) ring

-- The members of a ring that are in a datacenter.
abbrev pub in_datacenter : List ℕ → Ring → Ring
in_datacenter name [] = []
in_datacenter name (e ∷ ring) =
    let rest = in_datacenter name ring in
    if name_eq e.1.datacenter (some name) then e ∷ rest else rest

in_datacenter_two :
    (name : List ℕ) (a b : Token × Node) (xs : Ring)
    → Permᴰ (in_datacenter name (a ∷ b ∷ xs)) (in_datacenter name (b ∷ a ∷ xs))
in_datacenter_two name a b xs = elim (Bool-cases (name_eq a.1.datacenter (some name))) [
  | inl h ↦ elim (Bool-cases (name_eq b.1.datacenter (some name))) [
    | inl k ↦ rw (h, k) (Permᴰ.swap refl refl)
    | inr k ↦ rw (h, k) (Permᴰ.refl (a ∷ in_datacenter name xs))
  ]
  | inr h ↦ rw h (Permᴰ.refl (in_datacenter name (b ∷ xs)))
]

pub in_datacenter-Perm :
    (name : List ℕ) {xs ys : Ring}
    → Permᴰ xs ys
    → Permᴰ (in_datacenter name xs) (in_datacenter name ys)
in_datacenter-Perm name Permᴰ.nil = Permᴰ.nil
in_datacenter-Perm name (Permᴰ.cons {a} {l₁ = xs} {l₂ = ys} e p) =
    subst (λ b. Permᴰ (in_datacenter name (a ∷ xs)) (in_datacenter name (b ∷ ys))) e
      (elim (Bool-cases (name_eq a.1.datacenter (some name))) [
        | inl h ↦ rw h (Permᴰ.cons refl (in_datacenter-Perm name p))
        | inr h ↦ rw h (in_datacenter-Perm name p)
      ])
in_datacenter-Perm name (Permᴰ.swap {a} {b} {a' = c} {l = xs} e1 e2) =
    subst (λ d. Permᴰ (in_datacenter name (a ∷ b ∷ xs)) (in_datacenter name (c ∷ d ∷ xs))) e1
      (subst (λ d. Permᴰ (in_datacenter name (a ∷ b ∷ xs)) (in_datacenter name (d ∷ a ∷ xs))) e2
        (in_datacenter_two name a b xs))
in_datacenter-Perm name (Permᴰ.trans p q) =
    Permᴰ.trans (in_datacenter-Perm name p) (in_datacenter-Perm name q)

-- The loop over the global ring gathers the members of each datacenter.
pub datacenter_nodes_lem :
    (ring : Ring) (m : DatacenterRings) (name : List ℕ)
    → or_default (datacenter_nodes m ring name) ≡ or_default (m name) ++ in_datacenter name ring
unfolding datacenter_nodes push_entry
datacenter_nodes_lem [] m name = sym (append-nil (or_default (m name)))
datacenter_nodes_lem ((token, node) ∷ ring) m name = elim (Option-cases node.datacenter) [
  | inl e ↦ rw e (datacenter_nodes_lem ring m name)
  | inr (d, e) ↦
      let ih = datacenter_nodes_lem ring (push_entry d (token, node) m) name in
      elim (Bool-cases (bytes_eq d name)) [
        | inl h ↦
            simp (e, h)
              ((simp h at ih)
                ∙ append_assoc (or_default (m name)) ((token, node) ∷ []) (in_datacenter name ring))
        | inr h ↦ simp (e, h) (simp h at ih)
      ]
]

module _ {A : Type 0} (s : Search) (law : IsBinarySearch s) where
  ring_range_full-Perm :
      (ring : List (Token × A)) (token : Token)
      → Permᴰ (ring_range_full s (ring_new ring) token) ring
  unfolding ring_new
  ring_range_full-Perm ring token =
      let r =
        ring_range_full-Rotation s law (record { ring = sort_by ring }) token
          (sort_by-IsSorted ring) in
      Permᴰ.trans
        (subst (λ w. Permᴰ w (sort_by ring)) (sym r.turned)
          (subst (λ w. Permᴰ (r.after ++ r.before) w) r.whole (Permᴰ.append_comm r.after r.before)))
        (sort_by-Perm ring)

  -- A walk visits the members, in some order.
  pub ring_range-Perm :
      (ring : List (Token × A)) (token : Token)
      → Permᴰ (ring_range s (ring_new ring) token) (map (λ e. e.1) ring)
  unfolding ring_range
  ring_range-Perm ring token = Permᴰ.map (λ e. e.1) (ring_range_full-Perm ring token)

abbrev pub IsRackOf : (ℕ → Option (List ℕ)) → Node → Type 0
IsRackOf rack_of n = n.rack ≡ rack_of n.host_id

or_empty_lem : (o : Option Ring) → or_empty (datacenter_of o) ≡ datacenter_nodes_new (or_default o)
unfolding datacenter_nodes_new ring_new sort_by
or_empty_lem none = refl
or_empty_lem (some l) = refl

-- A datacenter without members has no nodes.
pub datacenter_lem :
    (ring_iter : Ring) (name : List ℕ)
    → or_empty ((replication_info_new ring_iter).datacenters name)
      ≡ datacenter_nodes_new (in_datacenter name (sort_by ring_iter))
unfolding replication_info_new ring_new
datacenter_lem ring_iter name =
    or_empty_lem (datacenter_nodes (λ n. none) (sort_by ring_iter) name)
    ∙ ap datacenter_nodes_new (datacenter_nodes_lem (sort_by ring_iter) (λ n. none) name)

-- The numbers of hosts and racks that are kept for a datacenter.
module _ (ring : Ring) where
  pub dc_ring_lem : (datacenter_nodes_new ring).dc_ring ≡ ring_new ring
  unfolding datacenter_nodes_new
  dc_ring_lem = refl

  pub unique_nodes_lem :
      length (datacenter_nodes_new ring).unique_nodes_in_dc_ring ≡ hosts (members ring)
  unfolding datacenter_nodes_new ring_new
  unique_nodes_lem = fresh-Perm host_key host_of (Permᴰ.map (λ e. e.1) (sort_by-Perm ring)) []

  pub rack_count_lem : (datacenter_nodes_new ring).rack_count ≡ racks [] (members ring)
  unfolding datacenter_nodes_new ring_new
  rack_count_lem =
      fresh-map rack_key rack_of_node [] (nodes_of (ring_new ring))
      ∙ fresh-Perm rack_key rack_of_node (Permᴰ.map (λ e. e.1) (sort_by-Perm ring)) []
