-- ===== src/Routing/Tablets/Examples.antt =====
-- The theorems on tablets at concrete inputs.
use scylla_rust_driver.Prelude.{
  ℕ, ◌≡◌, refl, Option, true, false, none, some, List, [], ◌∷◌, ◌==◌, arith, if◌then◌else◌,
}
use mathlib.Core.Option
use scylla_rust_driver.Prelude.Int.{pos, negsuc}
use scylla_rust_driver.Prelude.Bytes.{bytes_eq}
use scylla_rust_driver.Routing.Tablets.Replicas.{
  Node, Replica, Tablet, RawTablet, from_raw_tablet, resolve, replicas_of, group_by_dc, push_dc,
}
use scylla_rust_driver.Routing.Tablets.Table.{
  TableTablets, new, add_tablet, tablet_for_token, replicas_for_token, dc_replicas_for_token,
  replicas_in,
}
use scylla_rust_driver.Routing.Tablets.Maintenance.{
  NodeMap, HostSet, update_stale_nodes, perform_maintenance,
}
use scylla_rust_driver.Routing.Tablets.Ranges.{IsOrdered, find_covering, tablet_for_token-eq-find}
use scylla_rust_driver.Routing.Tablets.Adding.{Added, add_tablet-Added, add_tablet_inverted}
use scylla_rust_driver.Routing.Tablets.Upkeep.{IsNodeMap, IsHostSet}
use scylla_rust_driver.Routing.Tablets.Upkeep.Outcome.{Maintained}
use scylla_rust_driver.Routing.Tablets.Upkeep.Panic.{
  perform_maintenance_ends, perform_maintenance_panics,
}
use scylla_rust_driver.Routing.Tablets.Grouping.{
  in_datacenter, IsGrouped-replicas_of, tablet_of, update_stale_nodes-IsGrouped,
}
use scylla_rust_driver.Routing.Tablets.Grouping.Histories.{
  IsSettled, History, dc_replicas_for_token-in_datacenter,
}

abbrev node_a : Node
node_a = record { address = 1; host_id = 10; datacenter = some (1 ∷ []) }

abbrev node_b : Node
node_b = record { address = 2; host_id = 20; datacenter = some (2 ∷ []) }

-- The node of host 10 after a new address was seen.
abbrev new_a : Node
new_a = record { address = 3; host_id = 10; datacenter = some (1 ∷ []) }

abbrev on_a_and_b : List Replica
on_a_and_b = (node_a, 0) ∷ (node_b, 1) ∷ []

abbrev low : Tablet
low = record {
  first_token = negsuc 99;
  last_token = pos 0;
  replicas = replicas_of on_a_and_b;
  failed = none;
}

abbrev high : Tablet
high = record {
  first_token = pos 1;
  last_token = pos 100;
  replicas = replicas_of ((node_b, 0) ∷ []);
  failed = none;
}

abbrev middle : Tablet
middle = record {
  first_token = negsuc 9;
  last_token = pos 10;
  replicas = replicas_of ((node_a, 3) ∷ []);
  failed = none;
}

abbrev two_tablets : TableTablets
two_tablets = record { tablet_list = low ∷ high ∷ []; has_unknown_replicas = false }

two_tablets-IsOrdered : IsOrdered two_tablets.tablet_list
two_tablets-IsOrdered = (omega arith, (omega arith, tt), (omega arith, tt, tt))

tablet_for_token-eq-find_example :
    tablet_for_token two_tablets (pos 50) ≡ find_covering (pos 50) (low ∷ high ∷ [])
tablet_for_token-eq-find_example =
    tablet_for_token-eq-find two_tablets (pos 50) two_tablets-IsOrdered

add_tablet-Added_example :
    (s' : TableTablets) × (add_tablet two_tablets middle ≡ some s') × Added two_tablets middle s'
add_tablet-Added_example = add_tablet-Added two_tablets middle two_tablets-IsOrdered (omega arith)

abbrev inverted : Tablet
inverted = record middle { first_token = pos 500; last_token = negsuc 500 }

add_tablet_inverted_example : add_tablet two_tablets inverted ≡ none
add_tablet_inverted_example =
    add_tablet_inverted two_tablets inverted high (low ∷ []) [] refl two_tablets-IsOrdered
      (omega arith) (omega arith)

abbrev no_hosts : HostSet
no_hosts = record { member = λ _. false; is_empty = true }

abbrev known_nodes : NodeMap
known_nodes = record {
  get = λ h. if h == 10 then some new_a else if h == 20 then some node_b else none;
  is_empty = false;
}

abbrev recreated_a : NodeMap
recreated_a = record { get = λ h. if h == 10 then some new_a else none; is_empty = false }

keyed_by_host : (h : ℕ) (n : Node) → recreated_a.get h ≡ some n → n.host_id ≡ h
keyed_by_host h n e = ground arith

recreated_a-IsNodeMap : IsNodeMap recreated_a
recreated_a-IsNodeMap = record { empty = λ e. absurd (ground (arith, e)); keyed = keyed_by_host }

no_hosts-IsHostSet : IsHostSet no_hosts
no_hosts-IsHostSet = record { empty = λ _ _. refl }

perform_maintenance_ends_example :
    (s' : TableTablets) × (perform_maintenance two_tablets no_hosts known_nodes recreated_a
      ≡ some s')
    × Maintained no_hosts recreated_a two_tablets s'
perform_maintenance_ends_example =
    perform_maintenance_ends two_tablets no_hosts known_nodes recreated_a two_tablets-IsOrdered
      (λ _. (refl, (refl, tt)))
      (((λ n e. ground arith), ((λ n e. ground arith), tt)), (((λ n e. ground arith), tt), tt))
      no_hosts-IsHostSet recreated_a-IsNodeMap

abbrev waiting : TableTablets
waiting = record {
  tablet_list =
      record low {
        replicas = replicas_of ((node_a, 0) ∷ []);
        failed = some ((10, 0) ∷ (20, 1) ∷ []);
      }
      ∷ [];
  has_unknown_replicas = true;
}

perform_maintenance_panics_example :
    perform_maintenance waiting no_hosts known_nodes recreated_a ≡ none
unfolding resolve
perform_maintenance_panics_example =
    perform_maintenance_panics waiting no_hosts known_nodes recreated_a _ [] 10 0 ((20, 1) ∷ [])
      new_a refl refl refl refl refl refl refl refl refl

abbrev raw : RawTablet
raw = record { first_token = pos 1; last_token = pos 9; replicas = (10, 0) ∷ (30, 0) ∷ [] }

abbrev home : ℕ → Option (List ℕ)
home h = if h == 10 then some (1 ∷ []) else some (2 ∷ [])

known_nodes-IsSettled : IsSettled home known_nodes.get
known_nodes-IsSettled h n e = (ground (arith, e), ground (arith, e))

recreated_a-IsSettled : IsSettled home recreated_a.get
recreated_a-IsSettled h n e = (ground (arith, e), ground (arith, e))

table_of : Option TableTablets → TableTablets
table_of none = new
table_of (some s) = s

-- The host 10 is known by its old node when the tablet is added.
abbrev old_nodes : ℕ → Option Node
old_nodes h = if h == 10 then some node_a else if h == 20 then some node_b else none

old_nodes-IsSettled : IsSettled home old_nodes
old_nodes-IsSettled h n e = (ground (arith, e), ground (arith, e))

abbrev on_both : RawTablet
on_both = record raw { replicas = (10, 0) ∷ (20, 1) ∷ [] }

with_tablet : TableTablets
unfolding table_of add_tablet from_raw_tablet new
with_tablet = table_of (add_tablet new (tablet_of (from_raw_tablet on_both old_nodes)))

with_new_node : TableTablets
unfolding with_tablet table_of perform_maintenance
with_new_node = table_of (perform_maintenance with_tablet no_hosts known_nodes recreated_a)

lived : History home with_new_node
unfolding with_new_node
lived =
    History.maintained with_tablet with_new_node no_hosts known_nodes recreated_a
      (History.added new with_tablet on_both old_nodes History.started old_nodes-IsSettled
        (omega arith) refl)
      known_nodes-IsSettled recreated_a-IsSettled refl

dc_replicas_for_token-in_datacenter_example :
    dc_replicas_for_token with_new_node (pos 3) (1 ∷ [])
    ≡ Option.map (in_datacenter (1 ∷ [])) (replicas_for_token with_new_node (pos 3))
dc_replicas_for_token-in_datacenter_example =
    dc_replicas_for_token-in_datacenter home with_new_node (pos 3) (1 ∷ []) lived

-- The replica of host 10 is on its new node.
found_in_dc : dc_replicas_for_token with_new_node (pos 3) (1 ∷ []) ≡ some ((new_a, 0) ∷ [])
unfolding with_new_node dc_replicas_for_token bytes_eq
found_in_dc = refl

abbrev low_renewed : Tablet
low_renewed = record low { replicas = replicas_of ((new_a, 0) ∷ (node_b, 1) ∷ []) }

low_renewed_is : update_stale_nodes recreated_a low ≡ some low_renewed
unfolding update_stale_nodes group_by_dc push_dc bytes_eq
low_renewed_is = refl

update_stale_nodes-IsGrouped_example :
    replicas_in (1 ∷ []) low_renewed.replicas.per_dc
    ≡ in_datacenter (1 ∷ []) low_renewed.replicas.all
update_stale_nodes-IsGrouped_example =
    update_stale_nodes-IsGrouped recreated_a low low_renewed (IsGrouped-replicas_of on_a_and_b)
      ((λ n e. ground arith), ((λ n e. ground arith), tt)) low_renewed_is (1 ∷ [])
