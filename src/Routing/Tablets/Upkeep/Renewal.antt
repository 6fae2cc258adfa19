-- ===== src/Routing/Tablets/Upkeep/Renewal.antt =====
-- `perform_maintenance`: the stage that replaces the nodes which were created anew.
use scylla_rust_driver.Prelude.{
  ℕ, ◌≡◌, inl, inr, refl, Bool, true, Option, none, some, List, [], ◌∷◌, All, arith, ◌==◌,
  Bool-cases, Option-cases,
}
use mathlib.Core.Option
use mathlib.Core.Path.{subst}
use scylla_rust_driver.Routing.Tablets.Replicas.{Node, Replica, Tablet}
use scylla_rust_driver.Routing.Tablets.Maintenance.{
  NodeMap, HostSet, update_all, update_stale_nodes, update_tablets,
}
use scylla_rust_driver.Routing.Tablets.Upkeep.{
  IsResolved, AllReplicas, IsNodeMap, NotRemoved, IsFresh, Thinned,
}

abbrev pub IsCurrent : HostSet → NodeMap → Replica → Type 0
IsCurrent removed recreated r = NotRemoved removed r × IsFresh recreated r

module _ (removed : HostSet) (recreated : NodeMap) (m : IsNodeMap recreated) where
  kept_node :
      (n : Node) (s : ℕ)
      → recreated.get n.host_id ≡ none
      → NotRemoved removed (n, s)
      → IsCurrent removed recreated (n, s)
  kept_node n s e h = (h, λ k p. absurd (ground arith))

  renewed_node :
      (n k : Node) (s : ℕ)
      → recreated.get n.host_id ≡ some k
      → NotRemoved removed (n, s)
      → IsCurrent removed recreated (k, s)
  renewed_node n k s e h =
      let same = m.keyed n.host_id k e in (rw same h, λ j p. ground (arith, same, p))

  -- What a stage leaves, if it does not panic.
  abbrev Left : Option (List Replica × Bool) → Type 0
  Left none = Unit
  Left (some r) = All (IsCurrent removed recreated) r.0

  Left-cons :
      (r : Replica) (f : Bool → Bool) (o : Option (List Replica × Bool))
      → IsCurrent removed recreated r
      → Left o
      → Left (Option.map (λ (x : List Replica × Bool). (r ∷ x.0, f x.1)) o)
  Left-cons r f none c h = tt
  Left-cons r f (some x) c h = (c, h)

  update_all-Left :
      (rs : List Replica) → All (NotRemoved removed) rs → Left (update_all recreated rs)
  unfolding update_all
  update_all-Left [] h = tt
  update_all-Left ((n, s) ∷ rs) h = elim (Option-cases (recreated.get n.host_id)) [
    | inl e ↦
        rw (e, update_all)
          (Left-cons (n, s) (λ b. b) _ (kept_node n s e h.0) (update_all-Left rs h.1))
    | inr (k, e) ↦
        rw (e, update_all)
          (elim (Bool-cases (k.address == n.address)) [
            | inl same ↦ rw (same, Left) tt
            | inr other ↦
                rw (other, Left)
                  (Left-cons (k, s) (λ _. true) _ (renewed_node n k s e h.0)
                    (update_all-Left rs h.1))
          ])
  ]

  abbrev LeftTablet : Tablet → Option Tablet → Type 0
  LeftTablet t none = Unit
  LeftTablet t (some t') =
      (t'.first_token ≡ t.first_token)
      × (t'.last_token ≡ t.last_token)
      × (t'.failed ≡ t.failed)
      × All (IsCurrent removed recreated) t'.replicas.all

  update_stale_nodes-LeftTablet :
      (t : Tablet)
      → All (NotRemoved removed) t.replicas.all
      → LeftTablet t (update_stale_nodes recreated t)
  unfolding update_stale_nodes
  update_stale_nodes-LeftTablet t h = elim (Option-cases (update_all recreated t.replicas.all)) [
    | inl e ↦ rw (e, LeftTablet) tt
    | inr (x, e) ↦
        rw (e, LeftTablet) (refl, refl, refl, subst Left e (update_all-Left t.replicas.all h))
  ]

  -- What `update_tablets` leaves of a list, if it does not panic.
  abbrev pub LeftTable : List Tablet → Option (List Tablet) → Type 0
  LeftTable l none = Unit
  LeftTable l (some l') =
      Thinned l' l × AllReplicas (IsCurrent removed recreated) l' × (IsResolved l → IsResolved l')

  LeftTable-cons :
      (t t' : Tablet) (l : List Tablet) (o : Option (List Tablet))
      → LeftTablet t (some t')
      → LeftTable l o
      → LeftTable (t ∷ l) (Option.map (λ (x : List Tablet). t' ∷ x) o)
  LeftTable-cons t t' l none c h = tt
  LeftTable-cons t t' l (some l') c h =
      (Thinned.keep t' t c.0 c.1 h.0, (c.3, h.1), λ r. (rw c.2 r.0, h.2 r.1))

  pub update_tablets-LeftTable :
      (l : List Tablet)
      → AllReplicas (NotRemoved removed) l
      → LeftTable l (update_tablets recreated l)
  unfolding update_tablets
  update_tablets-LeftTable [] h = (Thinned.nil, tt, λ r. r)
  update_tablets-LeftTable (t ∷ ts) h = elim (Option-cases (update_stale_nodes recreated t)) [
    | inl e ↦ rw (e, LeftTable) tt
    | inr (t', e) ↦
        rw (e, LeftTable)
          (LeftTable-cons t t' ts _ (subst (LeftTablet t) e (update_stale_nodes-LeftTablet t h.0))
            (update_tablets-LeftTable ts h.1))
  ]
