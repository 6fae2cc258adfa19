-- ===== src/Routing/Tablets/Replicas.antt =====
-- The replicas of one tablet, as host ids and shards and as nodes: `RawTabletReplicas`,
-- `TabletReplicas` and `Tablet`.
use scylla_rust_driver.Prelude.{
  ℕ, Bool, true, false, Option, none, some, List, [], ◌∷◌, ◌++◌, if◌then◌else◌, Result, ok, err,
}
use scylla_rust_driver.Prelude.Int.{ℤ}
use scylla_rust_driver.Prelude.Bytes.{bytes_eq}

-- An `Arc<Node>`: `address` tells two allocations apart, as `Arc::ptr_eq` does; a host id stands
-- for its UUID. The fields of a node that no tablet reads are left out.
pub record Node : Type 0 where
  pub address : ℕ
  pub host_id : ℕ
  pub datacenter : Option (List ℕ)

abbrev pub RawTabletReplicas : Type 0
RawTabletReplicas = List (ℕ × ℕ)

-- A replica is a node and a shard.
abbrev pub Replica : Type 0
Replica = Node × ℕ

abbrev pub DcReplicas : Type 0
DcReplicas = List (List ℕ × List Replica)

pub record TabletReplicas : Type 0 where
  pub all : List Replica
  pub per_dc : DcReplicas

-- The replicas whose host id is known, and the host ids that are not.
unfoldable pub resolve : (ℕ → Option Node) → RawTabletReplicas → List Replica × List ℕ
resolve translator [] = ([], [])
resolve translator ((replica, shard) ∷ rest) =
    let (all, failed) = resolve translator rest in
    elim (translator replica) [
      | some node ↦ ((node, shard) ∷ all, failed)
      | none ↦ (all, replica ∷ failed)
    ]

-- `per_dc.get_mut(dc)` and a push, or the insertion of a new list.
unfoldable pub push_dc : List ℕ → Replica → DcReplicas → DcReplicas
push_dc dc r [] = (dc, r ∷ []) ∷ []
push_dc dc r ((d, rs) ∷ rest) =
    if bytes_eq d dc then (d, rs ++ r ∷ []) ∷ rest else (d, rs) ∷ push_dc dc r rest

-- A replica without a datacenter is in no list.
unfoldable pub add_to_dc : DcReplicas → Replica → DcReplicas
unfolding push_dc
add_to_dc per_dc (node, shard) = elim node.datacenter [
  | none ↦ per_dc
  | some dc ↦ push_dc dc (node, shard) per_dc
]

-- The loop over `all`.
unfoldable pub group_by_dc : DcReplicas → List Replica → DcReplicas
unfolding add_to_dc
group_by_dc per_dc [] = per_dc
group_by_dc per_dc (r ∷ rest) = group_by_dc (add_to_dc per_dc r) rest

abbrev pub replicas_of : List Replica → TabletReplicas
replicas_of all = record { all = all; per_dc = group_by_dc [] all }

abbrev pub check_failed : List Replica → List ℕ → Result (TabletReplicas × List ℕ) TabletReplicas
check_failed all [] = ok (replicas_of all)
check_failed all (f ∷ failed) = err (replicas_of all, f ∷ failed)

unfoldable pub from_raw_replicas :
    RawTabletReplicas → (ℕ → Option Node) → Result (TabletReplicas × List ℕ) TabletReplicas
unfolding resolve group_by_dc
from_raw_replicas raw_replicas replica_translator =
    let (all, failed) = resolve replica_translator raw_replicas in check_failed all failed

pub record RawTablet : Type 0 where
  pub first_token : ℤ
  pub last_token : ℤ
  pub replicas : RawTabletReplicas

pub record Tablet : Type 0 where
  pub first_token : ℤ
  pub last_token : ℤ
  pub replicas : TabletReplicas
  pub failed : Option RawTabletReplicas

unfoldable pub from_raw_tablet : RawTablet → (ℕ → Option Node) → Result (Tablet × List ℕ) Tablet
unfolding from_raw_replicas
from_raw_tablet raw_tablet replica_translator =
    elim (from_raw_replicas raw_tablet.replicas replica_translator) [
      | ok replicas ↦ ok (record {
        first_token = raw_tablet.first_token;
        last_token = raw_tablet.last_token;
        replicas = replicas;
        failed = none;
      })
      | err (replicas, failed_replicas) ↦ err (
        record {
          first_token = raw_tablet.first_token;
          last_token = raw_tablet.last_token;
          replicas = replicas;
          failed = some raw_tablet.replicas;
        },
        failed_replicas,
      )
    ]

-- `re_resolve_replicas`: the tablet afterwards, and whether the result was `Ok`. The host ids of
-- the `Err` go to a log line only.
unfoldable pub re_resolve_replicas : Tablet → (ℕ → Option Node) → Tablet × Bool
re_resolve_replicas t replica_translator = elim t.failed [
  | none ↦ (t, true)
  | some failed ↦ elim (from_raw_replicas failed replica_translator) [
    | ok resolved ↦ (record t { replicas = resolved; failed = none }, true)
    | err _ ↦ (t, false)
  ]
]
