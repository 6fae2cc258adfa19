-- ===== src/Routing/Tablets/Grouping.antt =====
-- The lists by datacenter against the list of all replicas.
pub mod Histories
use scylla_rust_driver.Prelude.{
  ℕ, zero, suc, get_elem?, ◌≡◌, refl, sym, inl, inr, Bool, true, false, Option, none, some, Result,
  ok, err, List, [], ◌∷◌, ◌++◌, if◌then◌else◌, All, arith, ◌==◌, Bool-cases, Option-cases,
}
use mathlib.Core.Option
use mathlib.Core.Option.{some_inj}
use mathlib.Core.Path.{ap, subst, ◌∙◌}
use scylla_rust_driver.Prelude.Bytes.{bytes_eq, bytes_eq→eq, bytes_eq_refl}
use scylla_rust_driver.Routing.Tablets.Replicas.{
  Node, Replica, DcReplicas, replicas_of, check_failed, RawTablet, resolve, from_raw_replicas,
  from_raw_tablet, TabletReplicas, Tablet, push_dc, add_to_dc, group_by_dc,
}
use scylla_rust_driver.Routing.Tablets.Table.{
  TableTablets, replicas_in, starting_by, tablet_for_token, replicas_for_token,
  dc_replicas_for_token,
}
use scylla_rust_driver.Prelude.Int.{ℤ, leb_ℤ}
use scylla_rust_driver.Routing.Tablets.Maintenance.{
  NodeMap, current, update_all, update_nodes, update_per_dc, update_stale_nodes,
}

abbrev pub node_in : List ℕ → Option (List ℕ) → Bool
node_in dc none = false
node_in dc (some d) = bytes_eq d dc

-- The specification: the replicas of a datacenter, in their order.
unfoldable pub in_datacenter : List ℕ → List Replica → List Replica
in_datacenter dc [] = []
in_datacenter dc (r ∷ rs) =
    if node_in dc r.0.datacenter then r ∷ in_datacenter dc rs else in_datacenter dc rs

-- Each list by datacenter is the part of `all` which is in that datacenter.
abbrev pub IsGrouped : TabletReplicas → Type 0
IsGrouped t = (dc : List ℕ) → replicas_in dc t.per_dc ≡ in_datacenter dc t.all

append-cons : (a : List Replica) (r : Replica) (b : List Replica) → (a ++ r ∷ []) ++ b ≡ a ++ r ∷ b
append-cons [] r b = refl
append-cons (x ∷ a) r b = ap (λ l. x ∷ l) (append-cons a r b)

append-nil : (a : List Replica) → a ++ [] ≡ a
append-nil [] = refl
append-nil (x ∷ a) = ap (λ l. x ∷ l) (append-nil a)

bytes_apart : (a b c : List ℕ) → bytes_eq a b ≡ false → bytes_eq a c ≡ true → bytes_eq b c ≡ false
bytes_apart a b c h k = elim (Bool-cases (bytes_eq b c)) [
  | inl p ↦ absurd (
      ground (
        arith,
        h,
        subst (λ x. bytes_eq x b ≡ true) (sym (bytes_eq→eq a c k))
            (subst (λ x. bytes_eq x b ≡ true) (bytes_eq→eq b c p) (bytes_eq_refl b)),
      ))
  | inr q ↦ q
]

replicas_in-push :
    (dc d : List ℕ) (r : Replica) (m : DcReplicas)
    → replicas_in dc (push_dc d r m)
      ≡ (if bytes_eq d dc then replicas_in dc m ++ r ∷ [] else replicas_in dc m)
unfolding replicas_in push_dc
replicas_in-push dc d r [] = ground arith
replicas_in-push dc d r ((e, rs) ∷ m) = elim (Bool-cases (bytes_eq e d)) [
  | inl same ↦
      rw (same, replicas_in)
        (subst
          (λ x. (if bytes_eq e dc then rs ++ r ∷ [] else replicas_in dc m) ≡ (
            if bytes_eq x dc
            then (if bytes_eq e dc then rs else replicas_in dc m) ++ r ∷ []
            else if bytes_eq e dc
            then rs
            else replicas_in dc m))
          (bytes_eq→eq e d same) (ground arith))
  | inr other ↦
      rw (other, replicas_in) (ground (arith, bytes_apart e d dc other, replicas_in-push dc d r m))
]

replicas_in-add :
    (dc : List ℕ) (r : Replica) (m : DcReplicas)
    → replicas_in dc (add_to_dc m r)
      ≡ (if node_in dc r.0.datacenter then replicas_in dc m ++ r ∷ [] else replicas_in dc m)
unfolding add_to_dc
replicas_in-add dc (node, shard) m = elim (Option-cases node.datacenter) [
  | inl e ↦ rw (e, add_to_dc) refl
  | inr (d, e) ↦
      subst
        (λ o.
          replicas_in dc (elim o [ none ↦ m | some x ↦ push_dc x (node, shard) m ])
          ≡ (if node_in dc o then replicas_in dc m ++ (node, shard) ∷ [] else replicas_in dc m))
        (sym e) (replicas_in-push dc d (node, shard) m)
]

replicas_in-group :
    (dc : List ℕ) (l : List Replica) (m : DcReplicas)
    → replicas_in dc (group_by_dc m l) ≡ replicas_in dc m ++ in_datacenter dc l
unfolding group_by_dc in_datacenter
replicas_in-group dc [] m = sym (append-nil (replicas_in dc m))
replicas_in-group dc (r ∷ rs) m = elim (Bool-cases (node_in dc r.0.datacenter)) [
  | inl e ↦ simp (
    e,
    replicas_in-group dc rs (add_to_dc m r),
    replicas_in-add dc r m,
    append-cons (replicas_in dc m) r (in_datacenter dc rs),
  )
  | inr e ↦ simp (e, replicas_in-group dc rs (add_to_dc m r), replicas_in-add dc r m)
]

-- The lists of `from_raw_replicas`.
pub IsGrouped-replicas_of : (all : List Replica) → IsGrouped (replicas_of all)
unfolding replicas_in
IsGrouped-replicas_of all dc = replicas_in-group dc all []

abbrev made_of :
    RawTablet → Result (TabletReplicas × List ℕ) TabletReplicas → Result (Tablet × List ℕ) Tablet
made_of raw (ok replicas) = ok (record {
  first_token = raw.first_token;
  last_token = raw.last_token;
  replicas = replicas;
  failed = none;
})
made_of raw (err (replicas, failed)) = err (
  record {
    first_token = raw.first_token;
    last_token = raw.last_token;
    replicas = replicas;
    failed = some raw.replicas;
  },
  failed,
)

abbrev pub tablet_of : Result (Tablet × List ℕ) Tablet → Tablet
tablet_of (ok t) = t
tablet_of (err (t, _)) = t

-- A tablet has the replicas that are known.
pub replicas-from_raw_tablet :
    (raw : RawTablet) (f : ℕ → Option Node)
    → (tablet_of (from_raw_tablet raw f)).replicas ≡ replicas_of (resolve f raw.replicas).0
unfolding from_raw_tablet from_raw_replicas
replicas-from_raw_tablet raw f =
    let all = (resolve f raw.replicas).0 in
    elim (resolve f raw.replicas).1
      as (λ failed.
        (tablet_of (made_of raw (check_failed all failed))).replicas ≡ replicas_of all) [
          | [] ↦ refl
          | x ∷ xs ↦ refl
        ]

abbrev pub AllGrouped : List Tablet → Type 0
AllGrouped = All (λ (t : Tablet). IsGrouped t.replicas)

get_elem?-IsGrouped :
    (dc : List ℕ) (token : ℤ) (l : List Tablet) (i : ℕ)
    → AllGrouped l
    → Option.map
        (λ (t : Tablet). replicas_in dc t.replicas.per_dc)
        (starting_by token (get_elem? l i))
      ≡ Option.map
          (λ (t : Tablet). in_datacenter dc t.replicas.all)
          (starting_by token (get_elem? l i))
get_elem?-IsGrouped dc token [] i h = refl
get_elem?-IsGrouped dc token (t ∷ l) zero h = elim (Bool-cases (leb_ℤ t.first_token token)) [
  | inl e ↦ rw (e, h.0 dc) refl
  | inr e ↦ rw e refl
]
get_elem?-IsGrouped dc token (t ∷ l) (suc i) h = get_elem?-IsGrouped dc token l i h.1

map_replicas :
    (dc : List ℕ) (o : Option Tablet)
    → Option.map (λ (t : Tablet). in_datacenter dc t.replicas.all) o
      ≡ Option.map (in_datacenter dc) (Option.map (λ (t : Tablet). t.replicas.all) o)
map_replicas dc none = refl
map_replicas dc (some t) = refl

pub dc_replicas_in_grouped :
    (s : TableTablets) (token : ℤ) (dc : List ℕ)
    → AllGrouped s.tablet_list
    → dc_replicas_for_token s token dc ≡ Option.map (in_datacenter dc) (replicas_for_token s token)
unfolding dc_replicas_for_token replicas_for_token tablet_for_token
dc_replicas_in_grouped s token dc h =
    get_elem?-IsGrouped dc token s.tablet_list _ h ∙ map_replicas dc _

module _ (recreated : NodeMap) where
  replicas_in-update :
      (dc : List ℕ) (m : DcReplicas)
      → replicas_in dc (update_per_dc recreated m) ≡ update_nodes recreated (replicas_in dc m)
  unfolding replicas_in update_per_dc update_nodes
  replicas_in-update dc [] = refl
  replicas_in-update dc ((d, rs) ∷ m) = elim (Bool-cases (bytes_eq d dc)) [
    | inl e ↦ rw e refl
    | inr e ↦ rw e (replicas_in-update dc m)
  ]

  abbrev pub Renewed : List Replica → Option (List Replica × Bool) → Type 0
  Renewed l none = Unit
  Renewed l (some (l', any_updated)) =
      (l' ≡ update_nodes recreated l) × (any_updated ≡ false → l' ≡ l)

  Renewed-cons :
      (r : Replica) (l : List Replica) (o : Option (List Replica × Bool))
      → current recreated r ≡ r
      → Renewed l o
      → Renewed (r ∷ l) (Option.map (λ (x : List Replica × Bool). (r ∷ x.0, x.1)) o)
  unfolding update_nodes
  Renewed-cons r l none c h = tt
  Renewed-cons r l (some x) c h = (rw (c, h.0) refl, λ e. ap (λ y. r ∷ y) (h.1 e))

  Renewed-new :
      (r r' : Replica) (l : List Replica) (o : Option (List Replica × Bool))
      → current recreated r ≡ r'
      → Renewed l o
      → Renewed (r ∷ l) (Option.map (λ (x : List Replica × Bool). (r' ∷ x.0, true)) o)
  unfolding update_nodes
  Renewed-new r r' l none c h = tt
  Renewed-new r r' l (some x) c h = (rw (c, h.0) refl, λ e. absurd (ground arith))

  pub update_all-Renewed : (l : List Replica) → Renewed l (update_all recreated l)
  unfolding update_all update_nodes
  update_all-Renewed [] = (refl, λ _. refl)
  update_all-Renewed ((n, s) ∷ l) = elim (Option-cases (recreated.get n.host_id)) [
    | inl e ↦
        rw (e, update_all) (Renewed-cons (n, s) l _ (rw (e, current) refl) (update_all-Renewed l))
    | inr (k, e) ↦
        rw (e, update_all)
          (elim (Bool-cases (k.address == n.address)) [
            | inl same ↦ rw (same, Renewed) tt
            | inr other ↦
                rw (other, Renewed)
                  (Renewed-new (n, s) (k, s) l _ (rw (e, current) refl) (update_all-Renewed l))
          ])
  ]

  replaced_lists :
      (dc : List ℕ) (m : DcReplicas) (l l' : List Replica) (b : Bool)
      → replicas_in dc m ≡ in_datacenter dc l
      → Renewed l (some (l', b))
      → in_datacenter dc (update_nodes recreated l) ≡ update_nodes recreated (in_datacenter dc l)
      → replicas_in dc (if b then update_per_dc recreated m else m) ≡ in_datacenter dc l'
  replaced_lists dc m l l' true g h k =
      rw (h.0, k) (replicas_in-update dc m ∙ ap (update_nodes recreated) g)
  replaced_lists dc m l l' false g h k = rw (h.1 refl) g

  -- The new node of a replica is in the datacenter of the old one.
  abbrev pub StaysInDc : Replica → Type 0
  StaysInDc r = (n : Node) → recreated.get r.0.host_id ≡ some n → n.datacenter ≡ r.0.datacenter

  current_stays : (r : Replica) → StaysInDc r → (current recreated r).0.datacenter ≡ r.0.datacenter
  current_stays (n, s) h = elim (Option-cases (recreated.get n.host_id)) [
    | inl e ↦ rw (e, current) refl
    | inr (k, e) ↦ rw (e, current) (h k e)
  ]

  in_datacenter-update :
      (dc : List ℕ) (l : List Replica)
      → All StaysInDc l
      → in_datacenter dc (update_nodes recreated l) ≡ update_nodes recreated (in_datacenter dc l)
  unfolding in_datacenter update_nodes
  in_datacenter-update dc [] h = refl
  in_datacenter-update dc (r ∷ l) h = elim (Bool-cases (node_in dc r.0.datacenter)) [
    | inl e ↦ simp (current_stays r h.0, e, in_datacenter-update dc l h.1) refl
    | inr e ↦ simp (current_stays r h.0, e, in_datacenter-update dc l h.1)
  ]

  abbrev stale_with : Tablet → Option (List Replica × Bool) → Option Tablet
  stale_with t none = none
  stale_with t (some (all, any_updated)) = some (record t {
    replicas = record {
      all = all;
      per_dc = if any_updated then update_per_dc recreated t.replicas.per_dc else t.replicas.per_dc;
    };
  })

  none_is_not_some : (t : Tablet) → ¬ (none ≡ some t)
  none_is_not_some t e = ground arith

  -- The replacement of nodes keeps the lists right if every new node is in the datacenter of the
  -- one that it replaces.
  pub update_stale_nodes-IsGrouped :
      (t t' : Tablet)
      → IsGrouped t.replicas
      → All StaysInDc t.replicas.all
      → update_stale_nodes recreated t ≡ some t'
      → IsGrouped t'.replicas
  unfolding update_stale_nodes
  update_stale_nodes-IsGrouped t t' g h e dc =
      let all = Option-cases (update_all recreated t.replicas.all) in
      elim all [
        | inl p ↦ absurd (none_is_not_some t' (subst (λ o. stale_with t o ≡ some t') p e))
        | inr (x, p) ↦
            let same = some_inj.0 (subst (λ o. stale_with t o ≡ some t') p e) in
            subst
              (λ (u : Tablet). replicas_in dc u.replicas.per_dc ≡ in_datacenter dc u.replicas.all)
              same
              (replaced_lists dc t.replicas.per_dc t.replicas.all x.0 x.1 (g dc)
                (subst (Renewed t.replicas.all) p (update_all-Renewed t.replicas.all))
                (in_datacenter-update dc t.replicas.all h))
      ]
