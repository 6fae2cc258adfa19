-- ===== src/Routing/Sharding/Tokens.antt =====
-- The shards of the tokens.
use scylla_rust_driver.Prelude.{
  ℕ, ◌+◌, ◌-◌, ◌*◌, ◌/◌, ◌%◌, ◌^◌, ◌≤◌, ◌<◌, ◌≡◌, ◌≢◌, refl, some, arith, ◌==◌, inl, inr, lt→ltb,
  Bool-cases,
}
use native.Mathlib.Nat.{
  mod-lt, div-lt_iff_lt-mul, mod-eq_of_lt, mul-lt-mul_of_pos_right, mul-le-mul_right, mul_comm,
}
use scylla_rust_driver.Prelude.Int.{ℤ, pos, negsuc, ◌≤ℤ◌}
use scylla_rust_driver.Routing.Sharding.{Token, Sharder, token_new, invalid, as_u64, shard_of}

abbrev pub IsI64 : ℤ → Type 0
IsI64 (pos n) = n < 2 ^ 63
IsI64 (negsuc n) = n < 2 ^ 63

-- The types' bounds: a `NonZeroU16`.
abbrev pub IsShardCount : ℕ → Type 0
IsShardCount n = (0 < n) × (n < 2 ^ 16)

-- Every token that `new` makes of an `i64` is an `i64` other than `i64::MIN`.
pub token_new-IsValid : (v : ℤ) → IsI64 v → IsI64 (token_new v).value × (token_new v ≢ invalid)
unfolding token_new
token_new-IsValid (pos n) h = (h, λ e. ground arith)
token_new-IsValid (negsuc n) h = elim (Bool-cases (n == 2 ^ 63 - 1)) [
  | inl e ↦ rw (e, IsI64, token_new) (omega arith, λ p. ground arith)
  | inr e ↦ rw (e, IsI64, token_new) (h, λ p. ground arith)
]

scaled_lt : (b n : ℕ) → 0 < n → b < 2 ^ 64 → b * n / 2 ^ 64 < n
scaled_lt b n p h =
    (div-lt_iff_lt-mul {k = 2 ^ 64} {x = b * n} {y = n} (omega arith)).1
      (rw (mul_comm n (2 ^ 64)) (ground (arith, mul-lt-mul_of_pos_right {k = n} h p, mul_comm b n)))

-- The shard without the truncation to `u32`.
abbrev scaled : Sharder → Token → ℕ
scaled s t = (as_u64 t.value + 2 ^ 63) % 2 ^ 64 * 2 ^ s.msb_ignore % 2 ^ 64 * s.nr_shards / 2 ^ 64

shard_of-scaled :
    (s : Sharder) (t : Token)
    → IsShardCount s.nr_shards
    → s.msb_ignore < 64
    → (shard_of s t ≡ some (scaled s t)) × (scaled s t < s.nr_shards)
unfolding shard_of
shard_of-scaled s t n m =
    let below : scaled s t < s.nr_shards = scaled_lt _ s.nr_shards n.0 (mod-lt _ (omega arith)) in
    let fits : scaled s t < 2 ^ 32 = omega (arith, below, n.1) in
    (rw (lt→ltb s.msb_ignore 64 m, mod-eq_of_lt fits) refl, below)

-- With fewer than 64 bits to ignore, `shard_of` does not overflow, and the shard is one of the
-- node's.
pub shard_of-lt :
    (s : Sharder) (t : Token)
    → IsShardCount s.nr_shards
    → s.msb_ignore < 64
    → (k : ℕ) × (shard_of s t ≡ some k) × (k < s.nr_shards)
shard_of-lt s t n m = let (e, below) = shard_of-scaled s t n m in (scaled s t, e, below)

biased_le :
    (v w : ℤ)
    → IsI64 v
    → IsI64 w
    → v ≤ℤ w
    → (as_u64 v + 2 ^ 63) % 2 ^ 64 ≤ (as_u64 w + 2 ^ 63) % 2 ^ 64
unfolding as_u64
biased_le (pos a) (pos b) i j h = omega arith
biased_le (pos a) (negsuc b) i j h = omega arith
biased_le (negsuc a) (pos b) i j h = omega arith
biased_le (negsuc a) (negsuc b) i j h = omega arith

scaled_le :
    (a b n : ℕ)
    → a ≤ b
    → a < 2 ^ 64
    → b < 2 ^ 64
    → a * 1 % 2 ^ 64 * n / 2 ^ 64 ≤ b * 1 % 2 ^ 64 * n / 2 ^ 64
scaled_le a b n h i j =
    let x : a * 1 % 2 ^ 64 ≡ a = omega arith in
    let y : b * 1 % 2 ^ 64 ≡ b = omega arith in
    let z : a * n ≤ b * n = mul-le-mul_right n h in rw (x, y) (omega (arith, z))

-- Where no bits are ignored, the shards own ascending ranges of tokens: of two tokens the greater
-- one is not on a lower shard.
pub shard_of-le :
    (s : Sharder) (t u : Token)
    → IsShardCount s.nr_shards
    → s.msb_ignore ≡ 0
    → IsI64 t.value
    → IsI64 u.value
    → t.value ≤ℤ u.value
    → (k : ℕ) × (l : ℕ) × (shard_of s t ≡ some k) × (shard_of s u ≡ some l) × (k ≤ l)
shard_of-le s t u n m i j h =
    let (a, _) = shard_of-scaled s t n (rw m (omega arith)) in
    let (b, _) = shard_of-scaled s u n (rw m (omega arith)) in
    (
      scaled s t,
      scaled s u,
      a,
      b,
      rw m (
          scaled_le _ _ s.nr_shards (biased_le t.value u.value i j h) (mod-lt _ (omega arith))
            (mod-lt _ (omega arith))),
    )
