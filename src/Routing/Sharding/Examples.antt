-- ===== src/Routing/Sharding/Examples.antt =====
-- The theorems on shards and ports at concrete inputs.
use scylla_rust_driver.Prelude.{
  ℕ, ◌≤◌, ◌≡◌, refl, ◌&&◌, Option, none, some, List, if◌then◌else◌, ltb, leb, arith, ◌==◌, lt→ltb,
  le→ltb,
}
use scylla_rust_driver.Prelude.Int.{pos, negsuc}
use scylla_rust_driver.Routing.Sharding.{
  Sharder, shard_of, ShardAwarePortRange, ephemeral_port_range, draw_source_port, iter_source_ports,
  shard_of_source_port, div_ceil,
}
use scylla_rust_driver.Routing.Sharding.Tokens.{shard_of-le}
use scylla_rust_driver.Routing.Sharding.Ports.{
  IsPortRange, Draws, RefusesEmpty, draw_source_port-shard_of_source_port, first_port, count,
  iter_source_ports-count, draw_source_port_narrow,
}

abbrev five_shards : Sharder
five_shards = record { nr_shards = 5; msb_ignore = 12 }

abbrev all_bits : Sharder
all_bits = record { nr_shards = 5; msb_ignore = 0 }

shard_of-le_example :
    (k : ℕ) × (l : ℕ) × (shard_of all_bits (record { value = negsuc 77 }) ≡ some k)
    × (shard_of all_bits (record { value = pos 5 }) ≡ some l)
    × (k ≤ l)
shard_of-le_example =
    shard_of-le all_bits (record { value = negsuc 77 }) (record { value = pos 5 })
      (omega arith, omega arith) refl (omega arith) (omega arith) (omega arith)

-- A generator that gives the lowest number.
lowest : ℕ → ℕ → Option ℕ
lowest low high = if ltb low high then some low else none

lowest-Draws : Draws lowest
unfolding lowest
lowest-Draws low high h = (low, rw (lt→ltb low high h) refl, omega arith, h)

lowest-RefusesEmpty : RefusesEmpty lowest
unfolding lowest
lowest-RefusesEmpty low high h = rw (le→ltb low high h) refl

ephemeral-IsPortRange : IsPortRange ephemeral_port_range
ephemeral-IsPortRange = record {
  ascends = omega arith;
  unreserved = omega arith;
  ends = omega arith;
}

draw_source_port-shard_of_source_port_example :
    (port : ℕ) × (draw_source_port lowest five_shards 3 ephemeral_port_range ≡ some port)
    × (49152 ≤ port)
    × (port ≤ 65535)
    × (shard_of_source_port five_shards port ≡ 3)
draw_source_port-shard_of_source_port_example =
    draw_source_port-shard_of_source_port five_shards ephemeral_port_range ephemeral-IsPortRange
      (omega arith, omega arith) (omega arith) lowest lowest-Draws 3 (omega arith)

iter_source_ports-count_example :
    (ports : List ℕ) × (iter_source_ports lowest five_shards 3 ephemeral_port_range ≡ some ports)
    × ((p : ℕ)
        → count p ports ≡ (
            if leb (first_port five_shards ephemeral_port_range 3) p
              && leb p 65535
              && (shard_of_source_port five_shards p == 3)
            then 1
            else 0))
iter_source_ports-count_example =
    iter_source_ports-count five_shards ephemeral_port_range ephemeral-IsPortRange
      (omega arith, omega arith) (omega arith) lowest lowest-Draws 3 (omega arith)

-- The port 49153 is in the range and leads to the shard 3, and lies below the first port.
missed_port :
    (shard_of_source_port five_shards 49153 ≡ 3)
    × (first_port five_shards ephemeral_port_range 3 ≡ 49158)
unfolding shard_of_source_port div_ceil
missed_port = (refl, refl)

abbrev narrow : ShardAwarePortRange
narrow = record { start = 2000; end = 2007 }

draw_source_port_narrow_example : draw_source_port lowest five_shards 3 narrow ≡ none
draw_source_port_narrow_example =
    draw_source_port_narrow five_shards narrow lowest 3
      (record { ascends = omega arith; unreserved = omega arith; ends = omega arith })
      (omega arith, omega arith) lowest-RefusesEmpty (omega arith)
