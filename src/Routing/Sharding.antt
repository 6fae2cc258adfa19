-- ===== src/Routing/Sharding.antt =====
-- `Token` and the `Sharder`: the shard that owns a token, and the source ports that lead to a shard.
pub mod Tokens
pub mod Ports
pub mod Examples
use scylla_rust_driver.Prelude.{
  ℕ, zero, suc, ◌+◌, ◌-◌, ◌*◌, ◌/◌, ◌%◌, ◌^◌, Bool, true, false, Option, none, some, List, [], ◌∷◌,
  ◌++◌, if◌then◌else◌, ltb, leb, ◌==◌, Result, ok, err,
}
use scylla_rust_driver.Prelude.Int.{ℤ, pos, negsuc}
use scylla_rust_driver.Prelude.Options.{◌>>=◌}

-- An `i64`, which `new` keeps off `i64::MIN`.
pub record Token : Type 0 where
  pub value : ℤ

unfoldable pub token_new : ℤ → Token
token_new (pos n) = record { value = pos n }
token_new (negsuc n) =
    if n == 2 ^ 63 - 1 then record { value = pos (2 ^ 63 - 1) } else record { value = negsuc n }

-- `Token::INVALID`.
abbrev pub invalid : Token
invalid = record { value = negsuc (2 ^ 63 - 1) }

-- `ShardCount` is a `u16` that is not 0, and `msb_ignore` a `u8`.
pub record Sharder : Type 0 where
  pub nr_shards : ℕ
  pub msb_ignore : ℕ

pub record ShardInfo : Type 0 where
  pub shard : ℕ
  pub nr_shards : ℕ
  pub msb_ignore : ℕ

unfoldable pub get_sharder : ShardInfo → Sharder
get_sharder i = record { nr_shards = i.nr_shards; msb_ignore = i.msb_ignore }

-- `value as u64`.
unfoldable pub as_u64 : ℤ → ℕ
as_u64 (pos n) = n
as_u64 (negsuc n) = 2 ^ 64 - suc n

-- `none` is the overflow of a shift by 64 bits or more.
unfoldable pub shard_of : Sharder → Token → Option ℕ
unfolding as_u64
shard_of s token =
    let biased_token = (as_u64 token.value + 2 ^ 63) % 2 ^ 64 in
    if ltb s.msb_ignore 64
    then some (biased_token * 2 ^ s.msb_ignore % 2 ^ 64 * s.nr_shards / 2 ^ 64 % 2 ^ 32)
    else none

unfoldable pub shard_of_source_port : Sharder → ℕ → ℕ
shard_of_source_port s source_port = source_port % s.nr_shards

-- A `RangeInclusive<u16>`.
pub record ShardAwarePortRange : Type 0 where
  pub start : ℕ
  pub end : ℕ

pub data InvalidShardAwarePortRange : Type 0 where
  invalid_range : InvalidShardAwarePortRange

unfoldable pub range_new : ℕ → ℕ → Result InvalidShardAwarePortRange ShardAwarePortRange
range_new start end =
    if ltb end start
    then err InvalidShardAwarePortRange.invalid_range
    else if ltb start 1024
    then err InvalidShardAwarePortRange.invalid_range
    else ok (record { start = start; end = end })

abbrev pub ephemeral_port_range : ShardAwarePortRange
ephemeral_port_range = record { start = 49152; end = 65535 }

-- The arithmetic of `u16`, where `none` is the panic on overflow.
unfoldable pub add_u16 : ℕ → ℕ → Option ℕ
add_u16 a b = if ltb (a + b) (2 ^ 16) then some (a + b) else none

unfoldable pub sub_u16 : ℕ → ℕ → Option ℕ
sub_u16 a b = if leb b a then some (a - b) else none

-- `rand::rng().random_range(low..high)` is the parameter `random_range`, where `none` is a panic.
unfoldable pub draw_source_port : (ℕ → ℕ → Option ℕ) → Sharder → ℕ → ShardAwarePortRange → Option ℕ
draw_source_port random_range s shard port_range = if leb s.nr_shards shard then none else do
  with_shards ← add_u16 port_range.start s.nr_shards
  low ← sub_u16 with_shards 1
  without_shards ← sub_u16 port_range.end s.nr_shards
  high ← add_u16 without_shards 1
  drawn ← random_range low high
  add_u16 (drawn / s.nr_shards * s.nr_shards) shard

-- The elements `from`, `from + step`, … below `until`; as many rounds as there are numbers below
-- `until` are enough for a step that is not 0.
unfoldable pub stepped : ℕ → ℕ → ℕ → ℕ → List ℕ
stepped zero from until step = []
stepped (suc fuel) from until step =
    let rest = stepped fuel (from + step) until step in if ltb from until then from ∷ rest else []

unfoldable pub step_by : ℕ → ℕ → ℕ → List ℕ
unfolding stepped
step_by from until step = stepped until from until step

unfoldable pub div_ceil : ℕ → ℕ → ℕ
div_ceil a b = a / b + (if a % b == 0 then 0 else 1)

unfoldable pub iter_source_ports :
    (ℕ → ℕ → Option ℕ) → Sharder → ℕ → ShardAwarePortRange → Option (List ℕ)
iter_source_ports random_range s shard port_range = if leb s.nr_shards shard then none else do
  starting_port ← draw_source_port random_range s shard port_range
  first_valid_port ← add_u16 (div_ceil port_range.start s.nr_shards * s.nr_shards) shard
  some (
      step_by starting_port (suc port_range.end) s.nr_shards
      ++ step_by first_valid_port starting_port s.nr_shards)
