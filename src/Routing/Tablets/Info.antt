-- ===== src/Routing/Tablets/Info.antt =====
-- `TabletsInfo`: the tablets of all tables.
pub mod Shortcut
mod Examples
use mathlib.Core.Option
use scylla_rust_driver.Prelude.{
  ℕ, Bool, true, false, not, ◌&&◌, ◌||◌, Option, none, some, List, [], ◌∷◌, if◌then◌else◌,
}
use scylla_rust_driver.Prelude.Int.{ℤ}
use scylla_rust_driver.Prelude.Bytes.{bytes_eq}
use scylla_rust_driver.Routing.Tablets.Replicas.{Tablet}
use scylla_rust_driver.Routing.Tablets.Table.{TableTablets, is_some}
use scylla_rust_driver.Routing.Tablets.Table
use scylla_rust_driver.Routing.Tablets.Maintenance.{NodeMap, HostSet}
use scylla_rust_driver.Routing.Tablets.Maintenance

pub record TableSpec : Type 0 where
  pub ks_name : List ℕ
  pub table_name : List ℕ

abbrev pub spec_eq : TableSpec → TableSpec → Bool
spec_eq a b = bytes_eq a.ks_name b.ks_name && bytes_eq a.table_name b.table_name

-- The hash map of the tables, as its entries.
abbrev pub Tables : Type 0
Tables = List (TableSpec × TableTablets)

pub record TabletsInfo : Type 0 where
  pub tablets : Tables
  pub has_unknown_replicas : Bool

abbrev pub new : TabletsInfo
new = record { tablets = []; has_unknown_replicas = false }

abbrev pub find_table : TableSpec → Tables → Option TableTablets
find_table spec [] = none
find_table spec ((k, t) ∷ tables) =
    let rest = find_table spec tables in if spec_eq spec k then some t else rest

unfoldable pub tablets_for_table : TabletsInfo → TableSpec → Option TableTablets
tablets_for_table s table_spec = find_table table_spec s.tablets

-- `entry(table_spec).or_insert_with_key(…).add_tablet(tablet)`; `none` is the panic of the latter.
unfoldable pub add_to_entry : TableSpec → Tablet → Tables → Option Tables
add_to_entry spec tablet [] = Option.map (λ t'. (spec, t') ∷ []) (Table.add_tablet Table.new tablet)
add_to_entry spec tablet ((k, t) ∷ tables) =
    let rest = add_to_entry spec tablet tables in
    if spec_eq spec k
    then Option.map (λ t'. (k, t') ∷ tables) (Table.add_tablet t tablet)
    else Option.map (λ l. (k, t) ∷ l) rest

unfoldable pub add_tablet : TabletsInfo → TableSpec → Tablet → Option TabletsInfo
unfolding add_to_entry
add_tablet s table_spec tablet =
    let unknown = if is_some tablet.failed then true else s.has_unknown_replicas in
    Option.map (λ l. record { tablets = l; has_unknown_replicas = unknown })
      (add_to_entry table_spec tablet s.tablets)

-- `retain` of the tables that are still there.
unfoldable pub retain_tables : (TableSpec → Bool) → Tables → Tables
retain_tables table_predicate [] = []
retain_tables table_predicate ((k, t) ∷ tables) =
    let rest = retain_tables table_predicate tables in
    if table_predicate k then (k, t) ∷ rest else rest

-- The loop over the tables; `none` is the panic within one of them.
unfoldable pub maintain_tables : HostSet → NodeMap → NodeMap → Tables → Option Tables
maintain_tables removed_nodes all_current_nodes recreated_nodes [] = some []
maintain_tables removed_nodes all_current_nodes recreated_nodes ((k, t) ∷ tables) =
    let rest = maintain_tables removed_nodes all_current_nodes recreated_nodes tables in
    elim (Maintenance.perform_maintenance t removed_nodes all_current_nodes recreated_nodes) [
      | none ↦ none
      | some t' ↦ Option.map (λ l. (k, t') ∷ l) rest
    ]

unfoldable pub perform_maintenance :
    TabletsInfo → (TableSpec → Bool) → HostSet → NodeMap → NodeMap → Option TabletsInfo
unfolding retain_tables maintain_tables
perform_maintenance s table_predicate removed_nodes all_current_nodes recreated_nodes =
    let tables = retain_tables table_predicate s.tablets in
    let maintained =
      if not removed_nodes.is_empty || (not recreated_nodes.is_empty || s.has_unknown_replicas)
      then maintain_tables removed_nodes all_current_nodes recreated_nodes tables
      else some tables in
    Option.map (λ l. record { tablets = l; has_unknown_replicas = false }) maintained
