-- ===== src/Routing/Tablets/Upkeep.antt =====
-- `perform_maintenance`: what it promises of the list, and the stages that drop tablets.
pub mod Renewal
pub mod Outcome
pub mod Panic
use scylla_rust_driver.Prelude.{
  ℕ, ◌≡◌, ◌≢◌, ◌⊎◌, inl, inr, refl, Bool, true, false, not, Option, none, some, List, [], ◌∷◌,
  if◌then◌else◌, All, arith, ◌==◌, Bool-cases, Option-cases,
}
use scylla_rust_driver.Prelude.Int.{ℤ, ◌≤ℤ◌, ◌<ℤ◌}
use scylla_rust_driver.Routing.Tablets.Replicas.{
  Node, Replica, TabletReplicas, Tablet, re_resolve_replicas, from_raw_replicas, replicas_of,
}
use scylla_rust_driver.Routing.Tablets.Table.{TableTablets}
use scylla_rust_driver.Routing.Tablets.Maintenance.{
  NodeMap, HostSet, update_all, update_stale_nodes, update_tablets, resolve_tablets, none_removed,
  retain_tablets, perform_maintenance,
}
use scylla_rust_driver.Routing.Tablets.Ranges.{IsRange, Behind, IsOrdered}

abbrev pub IsResolved : List Tablet → Type 0
IsResolved = All (λ (t : Tablet). t.failed ≡ none)

abbrev pub AllReplicas : (Replica → Type 0) → List Tablet → Type 0
AllReplicas P = All (λ (t : Tablet). All P t.replicas.all)

-- A hash map that says that it is empty has no entry, and its nodes stand under their host ids.
pub record IsNodeMap (m : NodeMap) : Type 0 where
  pub empty : m.is_empty ≡ true → (h : ℕ) → m.get h ≡ none
  pub keyed : (h : ℕ) (n : Node) → m.get h ≡ some n → n.host_id ≡ h

pub record IsHostSet (r : HostSet) : Type 0 where
  pub empty : r.is_empty ≡ true → (h : ℕ) → r.member h ≡ false

abbrev pub NotRemoved : HostSet → Replica → Type 0
NotRemoved removed r = removed.member r.0.host_id ≡ false

-- A replica holds the node that the new topology has for its host.
abbrev pub IsFresh : NodeMap → Replica → Type 0
IsFresh recreated r = (n : Node) → recreated.get r.0.host_id ≡ some n → r.0 ≡ n

-- `l'` is `l` less some tablets, on the same ranges and in the same order.
pub data Thinned : List Tablet → List Tablet → Type 0 where
  nil : Thinned [] []
  skip : {l' l : List Tablet} (t : Tablet) → Thinned l' l → Thinned l' (t ∷ l)
  keep :
      {l' l : List Tablet} (t' t : Tablet)
      → t'.first_token ≡ t.first_token
      → t'.last_token ≡ t.last_token
      → Thinned l' l
      → Thinned (t' ∷ l') (t ∷ l)

pub Thinned-refl : (l : List Tablet) → Thinned l l
Thinned-refl [] = Thinned.nil
Thinned-refl (t ∷ ts) = Thinned.keep t t refl refl (Thinned-refl ts)

pub Thinned-trans : {a b c : List Tablet} → Thinned a b → Thinned b c → Thinned a c
Thinned-trans h Thinned.nil = h
Thinned-trans h (Thinned.skip t k) = Thinned.skip t (Thinned-trans h k)
Thinned-trans (Thinned.skip _ h) (Thinned.keep u t p q k) = Thinned.skip t (Thinned-trans h k)
Thinned-trans (Thinned.keep v _ r s h) (Thinned.keep u t p q k) =
    Thinned.keep v t (cc) (cc) (Thinned-trans h k)

Behind-Thinned : {l' l : List Tablet} (a : ℤ) → Thinned l' l → Behind a l → Behind a l'
Behind-Thinned a Thinned.nil h = h
Behind-Thinned a (Thinned.skip t s) h = Behind-Thinned a s h.1
Behind-Thinned a (Thinned.keep t' t p q s) h = (rw p h.0, Behind-Thinned a s h.1)

pub IsOrdered-Thinned : {l' l : List Tablet} → Thinned l' l → IsOrdered l → IsOrdered l'
IsOrdered-Thinned Thinned.nil h = h
IsOrdered-Thinned (Thinned.skip t s) h = IsOrdered-Thinned s h.2
IsOrdered-Thinned (Thinned.keep t' t p q s) h =
    (rw (p, q) h.0, Behind-Thinned t'.last_token s (rw q h.1), IsOrdered-Thinned s h.2)

resolve_range :
    (t : Tablet) (f : ℕ → Option Node)
    → ((re_resolve_replicas t f).0.first_token ≡ t.first_token)
      × ((re_resolve_replicas t f).0.last_token ≡ t.last_token)
unfolding re_resolve_replicas
resolve_range t f = ground arith

resolve_failed :
    (t : Tablet) (f : ℕ → Option Node)
    → (re_resolve_replicas t f).1 ≡ true
    → (re_resolve_replicas t f).0.failed ≡ none
unfolding re_resolve_replicas
resolve_failed t f h = ground arith

pub Thinned-resolve : (f : ℕ → Option Node) (l : List Tablet) → Thinned (resolve_tablets f l) l
unfolding resolve_tablets
Thinned-resolve f [] = Thinned.nil
Thinned-resolve f (t ∷ ts) = elim (Bool-cases (re_resolve_replicas t f).1) [
  | inl yes' ↦
      rw yes' (Thinned.keep _ t (resolve_range t f).0 (resolve_range t f).1 (Thinned-resolve f ts))
  | inr no' ↦ rw no' (Thinned.skip t (Thinned-resolve f ts))
]

pub IsResolved-resolve : (f : ℕ → Option Node) (l : List Tablet) → IsResolved (resolve_tablets f l)
unfolding resolve_tablets
IsResolved-resolve f [] = tt
IsResolved-resolve f (t ∷ ts) = elim (Bool-cases (re_resolve_replicas t f).1) [
  | inl yes' ↦ rw yes' (resolve_failed t f yes', IsResolved-resolve f ts)
  | inr no' ↦ rw no' (IsResolved-resolve f ts)
]

-- Dropping tablets of removed nodes.
pub Thinned-retain : (r : HostSet) (l : List Tablet) → Thinned (retain_tablets r l) l
unfolding retain_tablets
Thinned-retain r [] = Thinned.nil
Thinned-retain r (t ∷ ts) = elim (Bool-cases (none_removed r t.replicas.all)) [
  | inl good ↦ rw good (Thinned.keep t t refl refl (Thinned-retain r ts))
  | inr bad ↦ rw bad (Thinned.skip t (Thinned-retain r ts))
]

pub IsResolved-retain :
    (r : HostSet) (l : List Tablet) → IsResolved l → IsResolved (retain_tablets r l)
unfolding retain_tablets
IsResolved-retain r [] h = tt
IsResolved-retain r (t ∷ ts) h = elim (Bool-cases (none_removed r t.replicas.all)) [
  | inl good ↦ rw good (h.0, IsResolved-retain r ts h.1)
  | inr bad ↦ rw bad (IsResolved-retain r ts h.1)
]

none_removed-NotRemoved :
    (r : HostSet) (rs : List Replica) → none_removed r rs ≡ true → All (NotRemoved r) rs
unfolding none_removed
none_removed-NotRemoved r [] h = tt
none_removed-NotRemoved r ((n, s) ∷ rs) h = ground (arith, none_removed-NotRemoved r rs)

pub NotRemoved-retain :
    (r : HostSet) (l : List Tablet) → AllReplicas (NotRemoved r) (retain_tablets r l)
unfolding retain_tablets
NotRemoved-retain r [] = tt
NotRemoved-retain r (t ∷ ts) = elim (Bool-cases (none_removed r t.replicas.all)) [
  | inl good ↦ rw good (none_removed-NotRemoved r t.replicas.all good, NotRemoved-retain r ts)
  | inr bad ↦ rw bad (NotRemoved-retain r ts)
]
