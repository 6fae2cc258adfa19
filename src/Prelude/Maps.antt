-- ===== src/Prelude/Maps.antt =====
-- A hash map with numeric keys, seen through its lookups: the code never relies on the order of
-- the entries of such a map.
use Prim.Native.Nat.{ℕ}
use mathlib.Core.Option.{Option, none, some}
use scylla_rust_driver.Prelude.Tests.{◌==◌, if◌then◌else◌}

abbrev pub FunMap {ℓ} : Type ℓ → Type ℓ
FunMap V = ℕ → Option V

module _ {ℓ} {V : Type ℓ} where
  abbrev pub empty_map : FunMap V
  empty_map _ = none

  -- `HashMap::insert` and `HashMap::remove`, without the value that they return.
  abbrev pub insert_map : ℕ → V → FunMap V → FunMap V
  insert_map k v m j = if j == k then some v else m j

  abbrev pub remove_map : ℕ → FunMap V → FunMap V
  remove_map k m j = if j == k then none else m j
