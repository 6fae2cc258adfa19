-- ===== src/Routing/Tablets/Info/Examples.antt =====
-- Maintenance of all tables at a concrete input.
use scylla_rust_driver.Prelude.{◌≡◌, refl, true, false, none, some, [], ◌∷◌}
use scylla_rust_driver.Prelude.Int.{pos}
use scylla_rust_driver.Prelude.Bytes.{codes}
use scylla_rust_driver.Routing.Tablets.Replicas.{Tablet}
use scylla_rust_driver.Routing.Tablets.Table
use scylla_rust_driver.Routing.Tablets.Maintenance.{NodeMap, HostSet}
use scylla_rust_driver.Routing.Tablets.Info.{
  TableSpec, TabletsInfo, new, add_to_entry, add_tablet, perform_maintenance,
}
use scylla_rust_driver.Routing.Tablets.Info.Shortcut.{
  Reach, maintain_all, perform_maintenance-eq-maintain_all,
}

abbrev users : TableSpec
users = record { ks_name = codes "ks"; table_name = codes "users" }

-- A tablet with a replica on an unknown host.
abbrev tablet : Tablet
tablet = record {
  first_token = pos 1;
  last_token = pos 100;
  replicas = record { all = []; per_dc = [] };
  failed = some ((7, 0) ∷ []);
}

abbrev with_tablet : TabletsInfo
with_tablet = record {
  tablets = (users, record { tablet_list = tablet ∷ []; has_unknown_replicas = true }) ∷ [];
  has_unknown_replicas = true;
}

with_tablet-Reach : Reach with_tablet
unfolding add_tablet add_to_entry Table.add_tablet Table.new Table.partition_point
    Table.replace_range
with_tablet-Reach = Reach.added new with_tablet users tablet Reach.started refl

abbrev no_hosts : HostSet
no_hosts = record { member = λ host. false; is_empty = true }

abbrev no_nodes : NodeMap
no_nodes = record { get = λ host. none; is_empty = true }

perform_maintenance-eq-maintain_all_example :
    perform_maintenance with_tablet (λ spec. true) no_hosts no_nodes no_nodes
    ≡ maintain_all with_tablet (λ spec. true) no_hosts no_nodes no_nodes
perform_maintenance-eq-maintain_all_example =
    perform_maintenance-eq-maintain_all with_tablet (λ spec. true) no_hosts no_nodes no_nodes
      with_tablet-Reach
