-- ===== src/Routing/Tablets/Maintenance.antt =====
-- `perform_maintenance` of `TableTablets`, which follows a change of the topology.
use scylla_rust_driver.Prelude.{
  ℕ, Bool, true, false, not, ◌&&◌, Option, none, some, List, [], ◌∷◌, if◌then◌else◌, ◌==◌, FunMap,
}
use scylla_rust_driver.Routing.Tablets.Replicas.{
  Node, Replica, DcReplicas, Tablet, re_resolve_replicas,
}
use scylla_rust_driver.Routing.Tablets.Table.{TableTablets}
use mathlib.Core.Option

-- `HashMap<Uuid, Arc<Node>>` with its `is_empty`, and `HashSet<Uuid>`.
pub record NodeMap : Type 0 where
  pub get : FunMap Node
  pub is_empty : Bool

pub record HostSet : Type 0 where
  pub member : ℕ → Bool
  pub is_empty : Bool

-- The first loop of `update_stale_nodes`, over `all`: the replicas afterwards and `any_updated`.
-- `none` is the panic of the `assert!` that a replaced node is not the new one already.
unfoldable pub update_all : NodeMap → List Replica → Option (List Replica × Bool)
update_all recreated [] = some ([], false)
update_all recreated ((node, shard) ∷ rest) =
    let tail = update_all recreated rest in
    elim (recreated.get node.host_id) [
      | none ↦ Option.map (λ (r : List Replica × Bool). ((node, shard) ∷ r.0, r.1)) tail
      | some new_node ↦
          if new_node.address == node.address
          then none
          else Option.map (λ (r : List Replica × Bool). ((new_node, shard) ∷ r.0, true)) tail
    ]

-- The loops over the lists of the datacenters.
abbrev pub current : NodeMap → Replica → Replica
current recreated (node, shard) = elim (recreated.get node.host_id) [
  | none ↦ (node, shard)
  | some new_node ↦ (new_node, shard)
]

unfoldable pub update_nodes : NodeMap → List Replica → List Replica
update_nodes recreated [] = []
update_nodes recreated (r ∷ rest) = current recreated r ∷ update_nodes recreated rest

unfoldable pub update_per_dc : NodeMap → DcReplicas → DcReplicas
unfolding update_nodes
update_per_dc recreated [] = []
update_per_dc recreated ((dc, rs) ∷ rest) =
    (dc, update_nodes recreated rs) ∷ update_per_dc recreated rest

unfoldable pub update_stale_nodes : NodeMap → Tablet → Option Tablet
unfolding update_all update_per_dc
update_stale_nodes recreated t = elim (update_all recreated t.replicas.all) [
  | none ↦ none
  | some (all, any_updated) ↦ some (record t {
    replicas = record {
      all = all;
      per_dc = if any_updated then update_per_dc recreated t.replicas.per_dc else t.replicas.per_dc;
    };
  })
]

-- `retain_mut` by `re_resolve_replicas`: a tablet that is not resolved is dropped.
unfoldable pub resolve_tablets : (ℕ → Option Node) → List Tablet → List Tablet
unfolding re_resolve_replicas
resolve_tablets translator [] = []
resolve_tablets translator (t ∷ ts) =
    let (t', resolved) = re_resolve_replicas t translator in
    let rest = resolve_tablets translator ts in if resolved then t' ∷ rest else rest

-- `iter().all(|node| !removed_nodes.contains(&node.host_id))`.
unfoldable pub none_removed : HostSet → List Replica → Bool
none_removed removed [] = true
none_removed removed ((node, _) ∷ rest) =
    not (removed.member node.host_id) && none_removed removed rest

unfoldable pub retain_tablets : HostSet → List Tablet → List Tablet
unfolding none_removed
retain_tablets removed [] = []
retain_tablets removed (t ∷ ts) =
    let rest = retain_tablets removed ts in
    if none_removed removed t.replicas.all then t ∷ rest else rest

unfoldable pub update_tablets : NodeMap → List Tablet → Option (List Tablet)
unfolding update_stale_nodes
update_tablets recreated [] = some []
update_tablets recreated (t ∷ ts) =
    let rest = update_tablets recreated ts in
    elim (update_stale_nodes recreated t) [ none ↦ none | some t' ↦ Option.map (λ l. t' ∷ l) rest ]

unfoldable pub perform_maintenance :
    TableTablets → HostSet → NodeMap → NodeMap → Option TableTablets
unfolding resolve_tablets retain_tablets update_tablets
perform_maintenance s removed_nodes all_current_nodes recreated_nodes =
    let resolved =
      if s.has_unknown_replicas
      then resolve_tablets all_current_nodes.get s.tablet_list
      else s.tablet_list in
    let retained =
      if not removed_nodes.is_empty then retain_tablets removed_nodes resolved else resolved in
    let updated =
      if not recreated_nodes.is_empty
      then update_tablets recreated_nodes retained
      else some retained in
    Option.map (λ l. record { tablet_list = l; has_unknown_replicas = false }) updated
