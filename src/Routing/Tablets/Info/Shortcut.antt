-- ===== src/Routing/Tablets/Info/Shortcut.antt =====
-- Maintenance may skip the tables where there is nothing to do.
use mathlib.Core.Path.{ap, subst, ◌∙◌}
use mathlib.Core.Option
use mathlib.Core.Option.{some_inj}
use scylla_rust_driver.Prelude.{
  ◌≡◌, refl, sym, Bool, true, false, not, ◌||◌, Option, none, some, [], ◌∷◌, if◌then◌else◌, All,
  Bool-cases, Option-cases, inl, inr,
}
use scylla_rust_driver.Routing.Tablets.Replicas.{Tablet}
use scylla_rust_driver.Routing.Tablets.Table.{TableTablets, is_some, replace_range}
use scylla_rust_driver.Routing.Tablets.Table
use scylla_rust_driver.Routing.Tablets.Maintenance.{NodeMap, HostSet}
use scylla_rust_driver.Routing.Tablets.Maintenance
use scylla_rust_driver.Routing.Tablets.Info.{
  TableSpec, spec_eq, Tables, TabletsInfo, new, add_to_entry, add_tablet, retain_tables,
  maintain_tables, perform_maintenance,
}

-- A result, if there is one.
abbrev OnSome : {A : Type 0} → (A → Type 0) → Option A → Type 0
OnSome P none = Unit
OnSome P (some a) = P a

OnSome-map :
    {A B : Type 0} (P : B → Type 0) (f : A → B) (o : Option A)
    → OnSome (λ a. P (f a)) o
    → OnSome P (Option.map f o)
OnSome-map P f none h = tt
OnSome-map P f (some a) h = h

always : {A : Type 0} (P : A → Type 0) (o : Option A) → ((a : A) → P a) → OnSome P o
always P none h = tt
always P (some a) h = h a

abbrev Resolved : TableSpec × TableTablets → Type 0
Resolved e = e.1.has_unknown_replicas ≡ false

-- If the flag is not set, then no table has unknown replicas.
abbrev pub IsCoherent : TabletsInfo → Type 0
IsCoherent s = s.has_unknown_replicas ≡ false → All Resolved s.tablets

table_flag :
    (t : TableTablets) (tablet : Tablet)
    → OnSome
        (λ (t' : TableTablets).
          t'.has_unknown_replicas
          ≡ (if is_some tablet.failed then true else t.has_unknown_replicas))
        (Table.add_tablet t tablet)
unfolding Table.add_tablet
table_flag t tablet =
    OnSome-map
      (λ (t' : TableTablets).
        t'.has_unknown_replicas ≡ (if is_some tablet.failed then true else t.has_unknown_replicas))
      _ (replace_range t.tablet_list _ _ tablet)
      (always _ (replace_range t.tablet_list _ _ tablet) (λ l. refl))

OnSome-imp :
    {A : Type 0} (P Q : A → Type 0) (o : Option A) → ((a : A) → P a → Q a) → OnSome P o → OnSome Q o
OnSome-imp P Q none f h = tt
OnSome-imp P Q (some a) f h = f a h

table_resolved :
    (t : TableTablets) (tablet : Tablet)
    → is_some tablet.failed ≡ false
    → t.has_unknown_replicas ≡ false
    → OnSome (λ (t' : TableTablets). t'.has_unknown_replicas ≡ false) (Table.add_tablet t tablet)
table_resolved t tablet e h =
    OnSome-imp _ _ (Table.add_tablet t tablet)
      (λ (t' : TableTablets)
          (k : t'.has_unknown_replicas
            ≡ (if is_some tablet.failed then true else t.has_unknown_replicas)).
        k ∙ rw e h)
      (table_flag t tablet)

add_to_entry-Resolved :
    (spec : TableSpec) (tablet : Tablet) (tables : Tables)
    → is_some tablet.failed ≡ false
    → All Resolved tables
    → OnSome (All Resolved) (add_to_entry spec tablet tables)
unfolding add_to_entry
add_to_entry-Resolved spec tablet [] e h =
    OnSome-map (All Resolved) (λ t'. (spec, t') ∷ []) (Table.add_tablet Table.new tablet)
      (OnSome-imp _ _ (Table.add_tablet Table.new tablet)
        (λ (t' : TableTablets) (k : t'.has_unknown_replicas ≡ false). (k, tt))
        (table_resolved Table.new tablet e (unfold Table.new in refl)))
add_to_entry-Resolved spec tablet ((k, t) ∷ tables) e (r, h) = elim (Bool-cases (spec_eq spec k)) [
  | inl same ↦ rw same (
      OnSome-map (All Resolved) (λ t'. (k, t') ∷ tables) (Table.add_tablet t tablet)
        (OnSome-imp _ _ (Table.add_tablet t tablet)
          (λ (t' : TableTablets) (f : t'.has_unknown_replicas ≡ false). (f, h))
          (table_resolved t tablet e r)))
  | inr other ↦ rw other (
      OnSome-map (All Resolved) (λ l. (k, t) ∷ l) (add_to_entry spec tablet tables)
        (OnSome-imp _ _ (add_to_entry spec tablet tables)
          (λ (l : Tables) (f : All Resolved l). (r, f))
          (add_to_entry-Resolved spec tablet tables e h)))
]

add_tablet-IsCoherent :
    (s : TabletsInfo) (spec : TableSpec) (tablet : Tablet)
    → IsCoherent s
    → OnSome IsCoherent (add_tablet s spec tablet)
unfolding add_tablet
add_tablet-IsCoherent s spec tablet h =
    OnSome-map IsCoherent _ (add_to_entry spec tablet s.tablets)
      (elim (Bool-cases (is_some tablet.failed)) [
        | inl e ↦ always _ (add_to_entry spec tablet s.tablets) (λ l. rw e (λ k. cc))
        | inr e ↦ elim (Bool-cases s.has_unknown_replicas) [
          | inl f ↦ always _ (add_to_entry spec tablet s.tablets) (λ l. rw e (λ k. cc))
          | inr f ↦
              OnSome-imp _ _ (add_to_entry spec tablet s.tablets)
                (λ (l : Tables) (all : All Resolved l). λ k. all)
                (add_to_entry-Resolved spec tablet s.tablets e (h f))
        ]
      ])

module _ (removed : HostSet) (known recreated : NodeMap) where
  table_done :
      (t : TableTablets)
      → OnSome
          (λ (t' : TableTablets). t'.has_unknown_replicas ≡ false)
          (Maintenance.perform_maintenance t removed known recreated)
  unfolding Maintenance.perform_maintenance
  table_done t =
      OnSome-map (λ (t' : TableTablets). t'.has_unknown_replicas ≡ false) _ _
        (always _ _ (λ l. refl))

  maintain_tables-Resolved :
      (tables : Tables) → OnSome (All Resolved) (maintain_tables removed known recreated tables)
  unfolding maintain_tables
  maintain_tables-Resolved [] = tt
  maintain_tables-Resolved ((k, t) ∷ tables) =
      elim (Option-cases (Maintenance.perform_maintenance t removed known recreated)) [
        | inl e ↦ rw (e, maintain_tables) tt
        | inr (t', e) ↦
            let flag : t'.has_unknown_replicas ≡ false =
              subst (OnSome (λ (t'' : TableTablets). t''.has_unknown_replicas ≡ false)) e
                (table_done t) in
            rw (e, maintain_tables)
              (OnSome-map (All Resolved) (λ l. (k, t') ∷ l)
                (maintain_tables removed known recreated tables)
                (OnSome-imp _ _ (maintain_tables removed known recreated tables)
                  (λ (l : Tables) (f : All Resolved l). (flag, f))
                  (maintain_tables-Resolved tables)))
      ]

  table_idle :
      (t : TableTablets)
      → removed.is_empty ≡ true
      → recreated.is_empty ≡ true
      → t.has_unknown_replicas ≡ false
      → Maintenance.perform_maintenance t removed known recreated ≡ some t
  unfolding Maintenance.perform_maintenance
  table_idle t e f h =
      let same : record { tablet_list = t.tablet_list; has_unknown_replicas = false } ≡ t =
        ap (λ b. record { tablet_list = t.tablet_list; has_unknown_replicas = b }) (sym h) in
      simp (e, f, h) (ap some same)

  -- Tables without unknown replicas stay as they are, if no nodes were removed or created anew.
  maintain_tables_idle :
      (tables : Tables)
      → removed.is_empty ≡ true
      → recreated.is_empty ≡ true
      → All Resolved tables
      → maintain_tables removed known recreated tables ≡ some tables
  unfolding maintain_tables
  maintain_tables_idle [] e f h = refl
  maintain_tables_idle ((k, t) ∷ tables) e f (r, h) =
      rw (table_idle t e f r, maintain_tables)
        (ap (Option.map (λ l. (k, t) ∷ l)) (maintain_tables_idle tables e f h))

retain_tables-Resolved :
    (p : TableSpec → Bool) (tables : Tables)
    → All Resolved tables
    → All Resolved (retain_tables p tables)
unfolding retain_tables
retain_tables-Resolved p [] h = tt
retain_tables-Resolved p ((k, t) ∷ tables) (r, h) = elim (Bool-cases (p k)) [
  | inl e ↦ rw e (r, retain_tables-Resolved p tables h)
  | inr e ↦ rw e (retain_tables-Resolved p tables h)
]

maintained_tables :
    (c : Bool) (removed : HostSet) (known recreated : NodeMap) (tables : Tables)
    → (c ≡ false → All Resolved tables)
    → OnSome
        (All Resolved)
        (if c then maintain_tables removed known recreated tables else some tables)
maintained_tables true removed known recreated tables h =
    maintain_tables-Resolved removed known recreated tables
maintained_tables false removed known recreated tables h = h refl

last_false : (a b c : Bool) → (a || (b || c)) ≡ false → c ≡ false
last_false true b c h = cc
last_false false true c h = cc
last_false false false c h = h

perform_maintenance-IsCoherent :
    (s : TabletsInfo) (p : TableSpec → Bool) (removed : HostSet) (known recreated : NodeMap)
    → IsCoherent s
    → OnSome IsCoherent (perform_maintenance s p removed known recreated)
unfolding perform_maintenance
perform_maintenance-IsCoherent s p removed known recreated h =
    let tables : Tables = retain_tables p s.tablets in
    let c : Bool = not removed.is_empty || (not recreated.is_empty || s.has_unknown_replicas) in
    let out : Option Tables =
      if c then maintain_tables removed known recreated tables else some tables in
    let after : Tables → TabletsInfo = λ l. record { tablets = l; has_unknown_replicas = false } in
    OnSome-map IsCoherent after out (
      OnSome-imp (All Resolved) (λ l. IsCoherent (after l)) out (λ l all k. all)
        (maintained_tables c removed known recreated tables (λ k.
          retain_tables-Resolved p s.tablets (
            h (
              last_false (not removed.is_empty) (not recreated.is_empty) s.has_unknown_replicas
                k)))))

-- The states of the tablets that the driver can be in.
pub data Reach : TabletsInfo → Type 0 where
  started : Reach new
  added :
      (s s' : TabletsInfo) (spec : TableSpec) (tablet : Tablet)
      → Reach s
      → add_tablet s spec tablet ≡ some s'
      → Reach s'
  maintained :
      (s s' : TabletsInfo) (p : TableSpec → Bool) (removed : HostSet) (known recreated : NodeMap)
      → Reach s
      → perform_maintenance s p removed known recreated ≡ some s'
      → Reach s'

pub Reach-IsCoherent : (s : TabletsInfo) → Reach s → IsCoherent s
Reach-IsCoherent s Reach.started = λ k. tt
Reach-IsCoherent s (Reach.added t s' spec tablet r e) =
    subst (OnSome IsCoherent) e (add_tablet-IsCoherent t spec tablet (Reach-IsCoherent t r))
Reach-IsCoherent s (Reach.maintained t s' p removed known recreated r e) =
    subst (OnSome IsCoherent) e
      (perform_maintenance-IsCoherent t p removed known recreated (Reach-IsCoherent t r))

-- The maintenance that goes through all tables that are still there.
abbrev pub maintain_all :
    TabletsInfo → (TableSpec → Bool) → HostSet → NodeMap → NodeMap → Option TabletsInfo
maintain_all s p removed known recreated =
    Option.map (λ l. record { tablets = l; has_unknown_replicas = false })
      (maintain_tables removed known recreated (retain_tables p s.tablets))

-- However tablets were added and maintained before, maintenance does the same as it would if it
-- always went through all tables that are still there.
pub perform_maintenance-eq-maintain_all :
    (s : TabletsInfo) (p : TableSpec → Bool) (removed : HostSet) (known recreated : NodeMap)
    → Reach s
    → perform_maintenance s p removed known recreated ≡ maintain_all s p removed known recreated
unfolding perform_maintenance
perform_maintenance-eq-maintain_all s p removed known recreated r =
    elim (Bool-cases removed.is_empty) [
      | inl e ↦ elim (Bool-cases recreated.is_empty) [
        | inl f ↦ elim (Bool-cases s.has_unknown_replicas) [
          | inl g ↦ simp (e, f, g)
          | inr g ↦
              let all = retain_tables-Resolved p s.tablets (Reach-IsCoherent s r g) in
              simp (
                e,
                f,
                g,
                maintain_tables_idle removed known recreated (retain_tables p s.tablets) e f all,
              )
        ]
        | inr f ↦ simp (e, f)
      ]
      | inr e ↦ simp e
    ]
