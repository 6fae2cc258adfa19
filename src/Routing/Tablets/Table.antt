-- ===== src/Routing/Tablets/Table.antt =====
-- `TableTablets`: the tablets of a table in the order of their tokens.
use scylla_rust_driver.Prelude.{
  ℕ, suc, Bool, true, false, Option, none, some, List, [], ◌∷◌, ◌++◌, if◌then◌else◌, ltb, take,
  drop, get_elem?,
}
use scylla_rust_driver.Prelude.Int.{ℤ, ltb_ℤ, leb_ℤ}
use scylla_rust_driver.Prelude.Bytes.{bytes_eq}
use scylla_rust_driver.Routing.Tablets.Replicas.{Tablet, Replica, DcReplicas}
use mathlib.Core.Option

pub record TableTablets : Type 0 where
  pub tablet_list : List Tablet
  pub has_unknown_replicas : Bool

unfoldable pub new : TableTablets
new = record { tablet_list = []; has_unknown_replicas = false }

-- `slice::partition_point`: how many elements stand before the first that fails the test. The
-- standard library promises this of lists on which no element passes behind one that fails.
unfoldable pub partition_point {ℓ} : {A : Type ℓ} → (A → Bool) → List A → ℕ
partition_point p [] = 0
partition_point p (x ∷ xs) = if p x then suc (partition_point p xs) else 0

abbrev pub starting_by : ℤ → Option Tablet → Option Tablet
starting_by token none = none
starting_by token (some t) = if leb_ℤ t.first_token token then some t else none

unfoldable pub tablet_for_token : TableTablets → ℤ → Option Tablet
unfolding partition_point
tablet_for_token s token =
    let idx = partition_point (λ (t : Tablet). ltb_ℤ t.last_token token) s.tablet_list in
    starting_by token (get_elem? s.tablet_list idx)

unfoldable pub replicas_for_token : TableTablets → ℤ → Option (List Replica)
unfolding tablet_for_token
replicas_for_token s token = Option.map (λ (t : Tablet). t.replicas.all) (tablet_for_token s token)

-- `per_dc.get(dc)`, or an empty list.
unfoldable pub replicas_in : List ℕ → DcReplicas → List Replica
replicas_in dc [] = []
replicas_in dc ((d, rs) ∷ rest) = if bytes_eq d dc then rs else replicas_in dc rest

unfoldable pub dc_replicas_for_token : TableTablets → ℤ → List ℕ → Option (List Replica)
unfolding tablet_for_token replicas_in
dc_replicas_for_token s token dc =
    Option.map (λ (t : Tablet). replicas_in dc t.replicas.per_dc) (tablet_for_token s token)

abbrev pub is_some {ℓ} : {A : Type ℓ} → Option A → Bool
is_some none = false
is_some (some _) = true

-- `drain(left..right)` and `insert(left, tablet)`; `none` is the panic of `drain` on bounds that
-- are out of order. Both bounds are positions of the list.
unfoldable pub replace_range : List Tablet → ℕ → ℕ → Tablet → Option (List Tablet)
replace_range l left right tablet =
    if ltb right left then none else some (take left l ++ tablet ∷ drop right l)

unfoldable pub add_tablet : TableTablets → Tablet → Option TableTablets
unfolding partition_point replace_range
add_tablet s tablet =
    let unknown = if is_some tablet.failed then true else s.has_unknown_replicas in
    let left_idx =
      partition_point (λ (t : Tablet). ltb_ℤ t.last_token tablet.first_token) s.tablet_list in
    let right_idx =
      partition_point (λ (t : Tablet). leb_ℤ t.first_token tablet.last_token) s.tablet_list in
    Option.map (λ l. record { tablet_list = l; has_unknown_replicas = unknown })
      (replace_range s.tablet_list left_idx right_idx tablet)
