-- ===== src/Routing/Tablets/Upkeep/Outcome.antt =====
-- `perform_maintenance`: what it leaves, and when it panics.
use scylla_rust_driver.Prelude.{
  ◌≡◌, inl, inr, refl, sym, true, false, not, Option, none, some, List, [], ◌∷◌, if◌then◌else◌, All,
  arith, Bool-cases,
}
use mathlib.Core.Option
use mathlib.Core.Path.{subst}
use scylla_rust_driver.Routing.Tablets.Replicas.{Replica, Tablet}
use scylla_rust_driver.Routing.Tablets.Table.{TableTablets}
use scylla_rust_driver.Routing.Tablets.Maintenance.{
  NodeMap, HostSet, update_tablets, resolve_tablets, retain_tablets, perform_maintenance,
}
use scylla_rust_driver.Routing.Tablets.Ranges.{IsOrdered}
use scylla_rust_driver.Routing.Tablets.Upkeep.{
  IsResolved, AllReplicas, IsNodeMap, IsHostSet, NotRemoved, Thinned, Thinned-refl, Thinned-trans,
  Thinned-resolve, Thinned-retain, IsResolved-resolve, IsResolved-retain, NotRemoved-retain,
  IsOrdered-Thinned,
}
use scylla_rust_driver.Routing.Tablets.Upkeep.Renewal.{
  IsCurrent, LeftTable, update_tablets-LeftTable,
}

-- The flag is set if a tablet has replicas that are not resolved.
abbrev pub IsFlagged : TableTablets → Type 0
IsFlagged s = s.has_unknown_replicas ≡ false → IsResolved s.tablet_list

-- `s'` has some of the tablets of `s`, on the same ranges and in the same order; their replicas are
-- all resolved, none is on a removed node, and each stands on the new node where its node was created
-- anew; the flag is reset.
pub record Maintained (removed : HostSet) (recreated : NodeMap) (s s' : TableTablets) : Type 0 where
  pub thinned : Thinned s'.tablet_list s.tablet_list
  pub ordered : IsOrdered s'.tablet_list
  pub resolved : IsResolved s'.tablet_list
  pub current : AllReplicas (IsCurrent removed recreated) s'.tablet_list
  pub reset : s'.has_unknown_replicas ≡ false

abbrev pub resolve_stage : NodeMap → TableTablets → List Tablet
resolve_stage known s =
    if s.has_unknown_replicas then resolve_tablets known.get s.tablet_list else s.tablet_list

abbrev retain_stage : HostSet → List Tablet → List Tablet
retain_stage removed l = if not removed.is_empty then retain_tablets removed l else l

abbrev renew_stage : NodeMap → List Tablet → Option (List Tablet)
renew_stage recreated l = if not recreated.is_empty then update_tablets recreated l else some l

resolve_stage-IsResolved :
    (known : NodeMap) (s : TableTablets)
    → IsFlagged s
    → Thinned (resolve_stage known s) s.tablet_list × IsResolved (resolve_stage known s)
resolve_stage-IsResolved known s f = elim (Bool-cases s.has_unknown_replicas) [
  | inl set ↦
      rw set (Thinned-resolve known.get s.tablet_list, IsResolved-resolve known.get s.tablet_list)
  | inr clear ↦ rw clear (Thinned-refl s.tablet_list, f clear)
]

All-every : {P : Replica → Type 0} → ((r : Replica) → P r) → (rs : List Replica) → All P rs
All-every f [] = tt
All-every f (r ∷ rs) = (f r, All-every f rs)

AllReplicas-every :
    {P : Replica → Type 0} → ((r : Replica) → P r) → (l : List Tablet) → AllReplicas P l
AllReplicas-every f [] = tt
AllReplicas-every f (t ∷ ts) = (All-every f t.replicas.all, AllReplicas-every f ts)

All-map :
    {P Q : Replica → Type 0}
    → ((r : Replica) → P r → Q r)
    → (rs : List Replica) → All P rs
    → All Q rs
All-map f [] h = tt
All-map f (r ∷ rs) h = (f r h.0, All-map f rs h.1)

AllReplicas-map :
    {P Q : Replica → Type 0}
    → ((r : Replica) → P r → Q r)
    → (l : List Tablet) → AllReplicas P l
    → AllReplicas Q l
AllReplicas-map f [] h = tt
AllReplicas-map f (t ∷ ts) h = (All-map f t.replicas.all h.0, AllReplicas-map f ts h.1)

retain_stage-NotRemoved :
    (removed : HostSet) (l : List Tablet)
    → IsHostSet removed
    → IsResolved l
    → Thinned (retain_stage removed l) l
      × IsResolved (retain_stage removed l)
      × AllReplicas (NotRemoved removed) (retain_stage removed l)
unfolding retain_tablets
retain_stage-NotRemoved removed l v h = elim (Bool-cases removed.is_empty) [
  | inl e ↦ rw e (Thinned-refl l, h, AllReplicas-every (λ r. v.empty e r.0.host_id) l)
  | inr e ↦
      rw e (Thinned-retain removed l, IsResolved-retain removed l h, NotRemoved-retain removed l)
]

fresh_of_empty :
    (removed : HostSet) (recreated : NodeMap)
    → IsNodeMap recreated
    → recreated.is_empty ≡ true
    → (r : Replica) → NotRemoved removed r
    → IsCurrent removed recreated r
fresh_of_empty removed recreated m e r h =
    (h, λ n p. absurd (ground (arith, m.empty e r.0.host_id, p)))

renew_stage-LeftTable :
    (removed : HostSet) (recreated : NodeMap) (l : List Tablet) (m : IsNodeMap recreated)
    → AllReplicas (NotRemoved removed) l
    → LeftTable removed recreated m l (renew_stage recreated l)
unfolding update_tablets
renew_stage-LeftTable removed recreated l m h = elim (Bool-cases recreated.is_empty) [
  | inl e ↦
      subst
        (λ b.
          LeftTable removed recreated m l (if not b then update_tablets recreated l else some l))
        (sym e) (Thinned-refl l, AllReplicas-map (fresh_of_empty removed recreated m e) l h, λ r. r)
  | inr e ↦
      subst
        (λ b.
          LeftTable removed recreated m l (if not b then update_tablets recreated l else some l))
        (sym e) (update_tablets-LeftTable removed recreated m l h)
]

maintenance_ends :
    (removed : HostSet) (recreated : NodeMap) (s s' : TableTablets) (l : List Tablet)
    (o : Option (List Tablet)) (m : IsNodeMap recreated)
    → IsOrdered s.tablet_list
    → Thinned l s.tablet_list
    → IsResolved l
    → LeftTable removed recreated m l o
    → Option.map (λ (x : List Tablet). record { tablet_list = x; has_unknown_replicas = false }) o
      ≡ some s'
    → Maintained removed recreated s s'
maintenance_ends removed recreated s s' l none m ord th res h e = absurd (ground arith)
maintenance_ends removed recreated s s' l (some l') m ord th res h e =
    subst (Maintained removed recreated s) (ground arith) (record {
      thinned = Thinned-trans h.0 th;
      ordered = IsOrdered-Thinned (Thinned-trans h.0 th) ord;
      resolved = h.2 res;
      current = h.1;
      reset = refl;
    })

-- If the flag is set where it has to be and the sets and maps are consistent, maintenance that does
-- not panic ends in a table as `Maintained` says.
pub perform_maintenance-Maintained :
    (s s' : TableTablets) (removed : HostSet) (known recreated : NodeMap)
    → IsOrdered s.tablet_list
    → IsFlagged s
    → IsHostSet removed
    → IsNodeMap recreated
    → perform_maintenance s removed known recreated ≡ some s'
    → Maintained removed recreated s s'
unfolding perform_maintenance
perform_maintenance-Maintained s s' removed known recreated ord f v m e =
    let (th1, res1) = resolve_stage-IsResolved known s f in
    let (th2, res2, nr) = retain_stage-NotRemoved removed (resolve_stage known s) v res1 in
    maintenance_ends removed recreated s s' _ _ m ord (Thinned-trans th2 th1) res2
      (renew_stage-LeftTable removed recreated _ m nr) e
