-- ===== src/Routing/Tablets/Grouping/Histories.antt =====
-- A table through its life: the tablets that the server sends are added, and the topology changes.
use mathlib.Core.Option
use mathlib.Core.Path.{ap, subst, ◌∙◌}
use scylla_rust_driver.Prelude.{
  ℕ, zero, suc, ◌≡◌, sym, Bool, true, false, not, Option, none, some, List, [], ◌∷◌, ◌++◌, ltb,
  Result, ok, err, if◌then◌else◌, take, drop, All, Bool-cases, Option-cases, inl, inr,
}
use scylla_rust_driver.Prelude.Int.{ℤ, ◌≤ℤ◌}
use scylla_rust_driver.Routing.Tablets.Replicas.{
  Node, Replica, RawTabletReplicas, RawTablet, Tablet, resolve, check_failed, from_raw_replicas,
  from_raw_tablet, re_resolve_replicas, TabletReplicas,
}
use scylla_rust_driver.Routing.Tablets.Table.{
  TableTablets, new, replace_range, add_tablet, replicas_for_token, dc_replicas_for_token,
}
use scylla_rust_driver.Routing.Tablets.Maintenance.{
  NodeMap, HostSet, current, update_all, update_nodes, update_stale_nodes, resolve_tablets,
  none_removed, retain_tablets, update_tablets, perform_maintenance,
}
use scylla_rust_driver.Routing.Tablets.Grouping.{
  in_datacenter, IsGrouped, AllGrouped, IsGrouped-replicas_of, tablet_of, StaysInDc, Renewed,
  replicas-from_raw_tablet, dc_replicas_in_grouped, update_all-Renewed,
  update_stale_nodes-IsGrouped,
}

-- A map of the known nodes stands under their host ids, and a host has one datacenter, its home.
abbrev pub IsSettled : (ℕ → Option (List ℕ)) → (ℕ → Option Node) → Type 0
IsSettled home f = (h : ℕ) (n : Node) → f h ≡ some n → (n.host_id ≡ h) × (n.datacenter ≡ home h)

-- The states of a table, by the calls that made it. The range of a tablet that is added is not
-- empty, so that the table stays ordered.
pub data History (home : ℕ → Option (List ℕ)) : TableTablets → Type 0 where
  started : History home new
  added :
      (s s' : TableTablets) (raw : RawTablet) (translator : ℕ → Option Node)
      → History home s
      → IsSettled home translator
      → raw.first_token ≤ℤ raw.last_token
      → add_tablet s (tablet_of (from_raw_tablet raw translator)) ≡ some s'
      → History home s'
  maintained :
      (s s' : TableTablets) (removed : HostSet) (known recreated : NodeMap)
      → History home s
      → IsSettled home known.get
      → IsSettled home recreated.get
      → perform_maintenance s removed known recreated ≡ some s'
      → History home s'

abbrev OnSome : {A : Type 0} → (A → Type 0) → Option A → Type 0
OnSome P none = Unit
OnSome P (some a) = P a

abbrev re_resolved : Tablet → Result (TabletReplicas × List ℕ) TabletReplicas → Tablet × Bool
re_resolved t (ok resolved) = (record t { replicas = resolved; failed = none }, true)
re_resolved t (err _) = (t, false)

module _ (home : ℕ → Option (List ℕ)) where
  abbrev AtHome : Replica → Type 0
  AtHome r = r.0.datacenter ≡ home r.0.host_id

  -- The invariant of a tablet.
  abbrev Placed : Tablet → Type 0
  Placed t = IsGrouped t.replicas × All AtHome t.replicas.all

  abbrev AllPlaced : List Tablet → Type 0
  AllPlaced = All Placed

  module _ (f : ℕ → Option Node) (settled : IsSettled home f) where
    at_home : (h : ℕ) (n : Node) → f h ≡ some n → n.datacenter ≡ home n.host_id
    at_home h n e = let (same, placed) = settled h n e in placed ∙ ap home (sym same)

    resolve-AtHome : (raw : RawTabletReplicas) → All AtHome (resolve f raw).0
    unfolding resolve
    resolve-AtHome [] = tt
    resolve-AtHome ((replica, shard) ∷ rest) = elim (Option-cases (f replica)) [
      | inl e ↦ rw (e, resolve) (resolve-AtHome rest)
      | inr (n, e) ↦ rw (e, resolve) (at_home replica n e, resolve-AtHome rest)
    ]

    from_raw_tablet-Placed : (raw : RawTablet) → Placed (tablet_of (from_raw_tablet raw f))
    from_raw_tablet-Placed raw =
        rw (replicas-from_raw_tablet raw f)
          (IsGrouped-replicas_of (resolve f raw.replicas).0, resolve-AtHome raw.replicas)

    re_resolved-Placed :
        (t : Tablet) (raw : RawTabletReplicas) (failed : List ℕ)
        → Placed t
        → Placed (re_resolved t (check_failed (resolve f raw).0 failed)).0
    re_resolved-Placed t raw [] h = (IsGrouped-replicas_of (resolve f raw).0, resolve-AtHome raw)
    re_resolved-Placed t raw (x ∷ failed) h = h

    re_resolve_replicas-Placed : (t : Tablet) → Placed t → Placed (re_resolve_replicas t f).0
    unfolding re_resolve_replicas from_raw_replicas
    re_resolve_replicas-Placed t h = elim (Option-cases t.failed) [
      | inl e ↦ rw (e, re_resolve_replicas) h
      | inr (raw, e) ↦ rw (e, re_resolve_replicas) (re_resolved-Placed t raw (resolve f raw).1 h)
    ]

    resolve_tablets-AllPlaced : (l : List Tablet) → AllPlaced l → AllPlaced (resolve_tablets f l)
    unfolding resolve_tablets
    resolve_tablets-AllPlaced [] h = tt
    resolve_tablets-AllPlaced (t ∷ l) (p, h) = elim (Bool-cases (re_resolve_replicas t f).1) [
      | inl e ↦ rw e (re_resolve_replicas-Placed t p, resolve_tablets-AllPlaced l h)
      | inr e ↦ rw e (resolve_tablets-AllPlaced l h)
    ]

  retain_tablets-AllPlaced :
      (removed : HostSet) (l : List Tablet) → AllPlaced l → AllPlaced (retain_tablets removed l)
  unfolding retain_tablets
  retain_tablets-AllPlaced removed [] h = tt
  retain_tablets-AllPlaced removed (t ∷ l) (p, h) =
      elim (Bool-cases (none_removed removed t.replicas.all)) [
        | inl e ↦ rw e (p, retain_tablets-AllPlaced removed l h)
        | inr e ↦ rw e (retain_tablets-AllPlaced removed l h)
      ]

  module _ (recreated : NodeMap) (settled : IsSettled home recreated.get) where
    AtHome-stays : (l : List Replica) → All AtHome l → All (StaysInDc recreated) l
    AtHome-stays [] h = tt
    AtHome-stays (r ∷ l) (p, h) =
        ((λ n e. let (same, placed) = settled r.0.host_id n e in placed ∙ sym p), AtHome-stays l h)

    update_nodes-AtHome : (l : List Replica) → All AtHome l → All AtHome (update_nodes recreated l)
    unfolding update_nodes
    update_nodes-AtHome [] h = tt
    update_nodes-AtHome ((n, s) ∷ l) (p, h) = elim (Option-cases (recreated.get n.host_id)) [
      | inl e ↦ rw (e, current) (p, update_nodes-AtHome l h)
      | inr (k, e) ↦
          rw (e, current) (at_home recreated.get settled n.host_id k e, update_nodes-AtHome l h)
    ]

    update_stale_nodes-AtHome :
        (t : Tablet)
        → All AtHome t.replicas.all
        → OnSome (λ (t' : Tablet). All AtHome t'.replicas.all) (update_stale_nodes recreated t)
    unfolding update_stale_nodes
    update_stale_nodes-AtHome t h = elim (Option-cases (update_all recreated t.replicas.all)) [
      | inl e ↦ rw (e, OnSome) tt
      | inr (x, e) ↦
          let renewed =
            subst (Renewed recreated t.replicas.all) e
              (update_all-Renewed recreated t.replicas.all) in
          rw (e, OnSome) (subst (All AtHome) (sym renewed.0) (update_nodes-AtHome t.replicas.all h))
    ]

    update_stale_nodes-Placed :
        (t : Tablet) → Placed t → OnSome Placed (update_stale_nodes recreated t)
    update_stale_nodes-Placed t (grouped, placed) =
        elim (Option-cases (update_stale_nodes recreated t)) [
          | inl e ↦ rw (e, OnSome) tt
          | inr (t', e) ↦
              rw (e, OnSome)
                (
                  update_stale_nodes-IsGrouped recreated t t' grouped
                      (AtHome-stays t.replicas.all placed) e,
                  subst (OnSome (λ (u : Tablet). All AtHome u.replicas.all)) e
                      (update_stale_nodes-AtHome t placed),
                )
        ]

    update_tablets-AllPlaced :
        (l : List Tablet) → AllPlaced l → OnSome AllPlaced (update_tablets recreated l)
    unfolding update_tablets
    update_tablets-AllPlaced [] h = tt
    update_tablets-AllPlaced (t ∷ l) (p, h) = elim (Option-cases (update_stale_nodes recreated t)) [
      | inl e ↦ rw (e, update_tablets) tt
      | inr (t', e) ↦
          rw (e, update_tablets)
            (elim (Option-cases (update_tablets recreated l)) [
              | inl f ↦ rw (f, OnSome) tt
              | inr (l', f) ↦
                  rw (f, OnSome)
                    (
                      subst (OnSome Placed) e (update_stale_nodes-Placed t p),
                      subst (OnSome AllPlaced) f (update_tablets-AllPlaced l h),
                    )
            ])
    ]

  chosen :
      (b : Bool) (x y : List Tablet) → AllPlaced x → AllPlaced y → AllPlaced (if b then x else y)
  chosen true x y h k = h
  chosen false x y h k = k

  chosen_some :
      (b : Bool) (x : Option (List Tablet)) (y : List Tablet)
      → OnSome AllPlaced x
      → AllPlaced y
      → OnSome AllPlaced (if b then x else some y)
  chosen_some true x y h k = h
  chosen_some false x y h k = k

  AllPlaced-drop : (n : ℕ) (l : List Tablet) → AllPlaced l → AllPlaced (drop n l)
  AllPlaced-drop zero l h = h
  AllPlaced-drop (suc n) [] h = tt
  AllPlaced-drop (suc n) (t ∷ l) h = AllPlaced-drop n l h.1

  AllPlaced-splice :
      (n : ℕ) (l r : List Tablet) → AllPlaced l → AllPlaced r → AllPlaced (take n l ++ r)
  AllPlaced-splice zero l r h k = k
  AllPlaced-splice (suc n) [] r h k = k
  AllPlaced-splice (suc n) (t ∷ l) r h k = (h.0, AllPlaced-splice n l r h.1 k)

  abbrev TablePlaced : TableTablets → Type 0
  TablePlaced s = AllPlaced s.tablet_list

  replace_range-AllPlaced :
      (l : List Tablet) (left right : ℕ) (t : Tablet)
      → AllPlaced l
      → Placed t
      → OnSome AllPlaced (replace_range l left right t)
  unfolding replace_range
  replace_range-AllPlaced l left right t h p = elim (Bool-cases (ltb right left)) [
    | inl e ↦ rw e tt
    | inr e ↦ rw e (AllPlaced-splice left l (t ∷ drop right l) h (p, AllPlaced-drop right l h))
  ]

  on_table :
      (b : Bool) (o : Option (List Tablet))
      → OnSome AllPlaced o
      → OnSome TablePlaced
          (Option.map (λ l. record { tablet_list = l; has_unknown_replicas = b }) o)
  on_table b none h = tt
  on_table b (some l) h = h

  add_tablet-TablePlaced :
      (s : TableTablets) (t : Tablet)
      → TablePlaced s
      → Placed t
      → OnSome TablePlaced (add_tablet s t)
  unfolding add_tablet
  add_tablet-TablePlaced s t h p = on_table _ _ (replace_range-AllPlaced s.tablet_list _ _ t h p)

  module _ (removed : HostSet) (known recreated : NodeMap) where
    perform_maintenance-TablePlaced :
        (s : TableTablets)
        → IsSettled home known.get
        → IsSettled home recreated.get
        → TablePlaced s
        → OnSome TablePlaced (perform_maintenance s removed known recreated)
    unfolding perform_maintenance
    perform_maintenance-TablePlaced s k r h =
        let resolved =
          chosen s.has_unknown_replicas _ _ (resolve_tablets-AllPlaced known.get k s.tablet_list h)
            h in
        let retained =
          chosen (not removed.is_empty) _ _ (retain_tablets-AllPlaced removed _ resolved)
            resolved in
        on_table false _ (
          chosen_some (not recreated.is_empty) _ _ (update_tablets-AllPlaced recreated r _ retained)
            retained)

  History-TablePlaced : (s : TableTablets) → History home s → TablePlaced s
  unfolding new
  History-TablePlaced s History.started = tt
  History-TablePlaced s (History.added t s' raw f r k n e) = subst (OnSome TablePlaced) e (
      add_tablet-TablePlaced t (tablet_of (from_raw_tablet raw f)) (History-TablePlaced t r)
        (from_raw_tablet-Placed f k raw))
  History-TablePlaced s (History.maintained t s' removed known recreated r k n e) =
      subst (OnSome TablePlaced) e
        (perform_maintenance-TablePlaced removed known recreated t k n (History-TablePlaced t r))

  AllPlaced-AllGrouped : (l : List Tablet) → AllPlaced l → AllGrouped l
  AllPlaced-AllGrouped [] h = tt
  AllPlaced-AllGrouped (t ∷ l) h = (h.0.0, AllPlaced-AllGrouped l h.1)

  -- However tablets from the server, whose ranges are not empty, were added to a table, and however its replicas were resolved
  -- again, dropped and moved to new nodes since, while every host stays in its datacenter: the
  -- replicas for a token in a datacenter are those among the replicas for the token which are in
  -- that datacenter, in the same order.
  pub dc_replicas_for_token-in_datacenter :
      (s : TableTablets) (token : ℤ) (dc : List ℕ)
      → History home s
      → dc_replicas_for_token s token dc
        ≡ Option.map (in_datacenter dc) (replicas_for_token s token)
  dc_replicas_for_token-in_datacenter s token dc r =
      dc_replicas_in_grouped s token dc
        (AllPlaced-AllGrouped s.tablet_list (History-TablePlaced s r))
