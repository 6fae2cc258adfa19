-- ===== src/Routing/Tablets/Upkeep/Panic.antt =====
-- The `assert!` in `update_stale_nodes`: when maintenance does not meet it, and when it does.
use scylla_rust_driver.Prelude.{
  ℕ, ◌≡◌, ◌≢◌, inl, inr, refl, sym, Bool, true, false, not, Option, none, some, List, [], ◌∷◌,
  if◌then◌else◌, All, arith, ◌==◌, ==_refl, Bool-cases, Option-cases,
}
use mathlib.Core.Option
use mathlib.Core.Path.{ap, subst}
use scylla_rust_driver.Routing.Tablets.Replicas.{
  Node, Replica, TabletReplicas, RawTabletReplicas, Tablet, resolve, from_raw_replicas,
  re_resolve_replicas,
}
use scylla_rust_driver.Routing.Tablets.Table.{TableTablets}
use scylla_rust_driver.Routing.Tablets.Maintenance.{
  NodeMap, HostSet, update_all, update_per_dc, update_stale_nodes, update_tablets, resolve_tablets,
  none_removed, retain_tablets, perform_maintenance,
}
use scylla_rust_driver.Routing.Tablets.Ranges.{IsOrdered}
use scylla_rust_driver.Routing.Tablets.Upkeep.{AllReplicas, IsNodeMap, IsHostSet}
use scylla_rust_driver.Routing.Tablets.Upkeep.Outcome.{
  IsFlagged, Maintained, resolve_stage, perform_maintenance-Maintained,
}

-- A replica does not hold the node that takes the place of its own.
abbrev pub IsOld : NodeMap → Replica → Type 0
IsOld recreated r = (n : Node) → recreated.get r.0.host_id ≡ some n → n.address ≢ r.0.address

abbrev renewed : NodeMap → Tablet → List Replica × Bool → TabletReplicas
renewed recreated t (all, any_updated) = record {
  all = all;
  per_dc = if any_updated then update_per_dc recreated t.replicas.per_dc else t.replicas.per_dc;
}

module _ (recreated : NodeMap) where
  update_all_runs :
      (rs : List Replica)
      → All (IsOld recreated) rs
      → (x : List Replica × Bool) × (update_all recreated rs ≡ some x)
  unfolding update_all
  update_all_runs [] h = (_, refl)
  update_all_runs ((n, s) ∷ rs) h =
      let (x, e) = update_all_runs rs h.1 in
      elim (Option-cases (recreated.get n.host_id)) [
        | inl p ↦ (((n, s) ∷ x.0, x.1), rw (p, e, update_all) refl)
        | inr (k, p) ↦
            let other : (k.address == n.address) ≡ false = ground (arith, h.0 k p) in
            (((k, s) ∷ x.0, true), rw (p, other, e, update_all) refl)
      ]

  update_tablets_runs :
      (l : List Tablet)
      → AllReplicas (IsOld recreated) l
      → (x : List Tablet) × (update_tablets recreated l ≡ some x)
  unfolding update_tablets update_stale_nodes
  update_tablets_runs [] h = (_, refl)
  update_tablets_runs (t ∷ ts) h =
      let (x, e) = update_all_runs t.replicas.all h.0 in
      let (y, p) = update_tablets_runs ts h.1 in
      (
        record t { replicas = renewed recreated t x } ∷ y,
        rw (e, p, update_tablets, update_stale_nodes) refl,
      )

  AllReplicas-retain :
      (P : Replica → Type 0) (r : HostSet) (l : List Tablet)
      → AllReplicas P l
      → AllReplicas P (retain_tablets r l)
  unfolding retain_tablets
  AllReplicas-retain P r [] h = tt
  AllReplicas-retain P r (t ∷ ts) h = elim (Bool-cases (none_removed r t.replicas.all)) [
    | inl good ↦ rw good (h.0, AllReplicas-retain P r ts h.1)
    | inr bad ↦ rw bad (AllReplicas-retain P r ts h.1)
  ]

  retain_tablets-IsOld :
      (b : Bool) (r : HostSet) (l : List Tablet)
      → AllReplicas (IsOld recreated) l
      → AllReplicas (IsOld recreated) (if b then retain_tablets r l else l)
  retain_tablets-IsOld true r l h = AllReplicas-retain (IsOld recreated) r l h
  retain_tablets-IsOld false r l h = h

  update_if_runs :
      (b : Bool) (l : List Tablet)
      → AllReplicas (IsOld recreated) l
      → (x : List Tablet) × ((if b then update_tablets recreated l else some l) ≡ some x)
  update_if_runs true l h = update_tablets_runs l h
  update_if_runs false l h = (l, refl)

maintenance_runs :
    (s : TableTablets) (removed : HostSet) (known recreated : NodeMap)
    → AllReplicas (IsOld recreated) (resolve_stage known s)
    → (s' : TableTablets) × (perform_maintenance s removed known recreated ≡ some s')
unfolding perform_maintenance
maintenance_runs s removed known recreated h =
    let (x, e) =
      update_if_runs recreated (not recreated.is_empty) _
        (retain_tablets-IsOld recreated (not removed.is_empty) removed (resolve_stage known s) h) in
    (
      record { tablet_list = x; has_unknown_replicas = false },
      ap (Option.map (λ l. record { tablet_list = l; has_unknown_replicas = false })) e,
    )

-- On an ordered table whose flag is set where a tablet is not resolved, with a set of removed hosts
-- and a map of recreated nodes that are consistent, and if, after unknown replicas are resolved, no
-- replica holds the node that takes the place of its own, maintenance does not panic, and the result
-- is `Maintained`: it has some of the tablets of before, on the same ranges and in the same order,
-- all of them resolved, with no replica on a removed node and each on the new node where its node
-- was created anew, and the flag is reset.
pub perform_maintenance_ends :
    (s : TableTablets) (removed : HostSet) (known recreated : NodeMap)
    → IsOrdered s.tablet_list
    → IsFlagged s
    → AllReplicas (IsOld recreated) (resolve_stage known s)
    → IsHostSet removed
    → IsNodeMap recreated
    → (s' : TableTablets) × (perform_maintenance s removed known recreated ≡ some s')
      × Maintained removed recreated s s'
perform_maintenance_ends s removed known recreated ord flag old v m =
    let (s', e) = maintenance_runs s removed known recreated old in
    (s', e, perform_maintenance-Maintained s s' removed known recreated ord flag v m e)

-- The panic.
resolve_all :
    (f : ℕ → Option Node) (raw : RawTabletReplicas) (t : Tablet)
    → t.failed ≡ some raw
    → (resolve f raw).1 ≡ []
    → ((re_resolve_replicas t f).1 ≡ true)
      × ((re_resolve_replicas t f).0.replicas.all ≡ (resolve f raw).0)
unfolding re_resolve_replicas from_raw_replicas
resolve_all f raw t e h = rw (e, h, re_resolve_replicas, from_raw_replicas) (refl, refl)

resolve_first :
    (f : ℕ → Option Node) (h shard : ℕ) (raw : RawTabletReplicas) (n : Node)
    → f h ≡ some n
    → resolve f ((h, shard) ∷ raw) ≡ ((n, shard) ∷ (resolve f raw).0, (resolve f raw).1)
unfolding resolve
resolve_first f h shard raw n e = rw (e, resolve) refl

resolve_waiting :
    (f : ℕ → Option Node) (t : Tablet) (ts : List Tablet)
    → (re_resolve_replicas t f).1 ≡ true
    → resolve_tablets f (t ∷ ts) ≡ (re_resolve_replicas t f).0 ∷ resolve_tablets f ts
unfolding resolve_tablets
resolve_waiting f t ts e = rw (e, resolve_tablets) refl

update_same :
    (recreated : NodeMap) (t : Tablet) (ts : List Tablet) (n : Node) (shard : ℕ) (rs : List Replica)
    → t.replicas.all ≡ (n, shard) ∷ rs
    → recreated.get n.host_id ≡ some n
    → update_tablets recreated (t ∷ ts) ≡ none
unfolding update_tablets update_stale_nodes update_all
update_same recreated t ts n shard rs e g =
    rw (e, g, ==_refl n.address, update_tablets, update_stale_nodes, update_all) refl

-- If the flag is set, no node was removed, the first tablet waits for unknown replicas which the new
-- topology all resolves, and its first replica is on a node that was created anew, then maintenance
-- meets the `assert!` and panics: the tablet is resolved to the new nodes first, and the node of its
-- replica is the one to put in its place.
pub perform_maintenance_panics :
    (s : TableTablets) (removed : HostSet) (known recreated : NodeMap) (t : Tablet)
    (ts : List Tablet) (h shard : ℕ) (raw : RawTabletReplicas) (n : Node)
    → s.tablet_list ≡ t ∷ ts
    → s.has_unknown_replicas ≡ true
    → t.failed ≡ some ((h, shard) ∷ raw)
    → (resolve known.get raw).1 ≡ []
    → known.get h ≡ some n
    → recreated.get h ≡ some n
    → n.host_id ≡ h
    → recreated.is_empty ≡ false
    → removed.is_empty ≡ true
    → perform_maintenance s removed known recreated ≡ none
unfolding perform_maintenance
perform_maintenance_panics s removed known recreated t ts h shard raw n el f tf res kn rn hid rem
      ne =
    let first = resolve_first known.get h shard raw n kn in
    let (good, all) = resolve_all known.get ((h, shard) ∷ raw) t tf (rw first res) in
    let list = resolve_waiting known.get t ts good in
    let t' : Tablet = (re_resolve_replicas t known.get).0 in
    let stop =
      update_same recreated t' (resolve_tablets known.get ts) n shard (resolve known.get raw).0
        (subst (λ x. t'.replicas.all ≡ x.0) first all)
        (subst (λ x. recreated.get x ≡ some n) (sym hid) rn) in
    simp (el, f, rem, ne, list, stop)
