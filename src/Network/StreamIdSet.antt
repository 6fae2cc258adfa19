-- ===== src/Network/StreamIdSet.antt =====
-- `StreamIdSet`: the stream ids in use on a connection, a bitmap of 512 words of 64 bits.
-- An id is an `i16` that is not negative: the reader drops the frames with a negative one.
pub mod Laws
use scylla_rust_driver.Prelude.{
  ℕ, zero, suc, ◌+◌, ◌-◌, ◌*◌, ◌/◌, ◌%◌, ◌^◌, ◌≤◌, ◌<◌, ◌≡◌, Bool, true, false, not, Option, none,
  some, List, [], ◌∷◌, ltb, ◌==◌, if◌then◌else◌, length, All,
}
use scylla_rust_driver.Prelude.Bits.{test_bit, set_bit, clear_bit, trailing_ones}
use mathlib.Core.Option

pub record StreamIdSet : Type 0 where
  pub used_bitmap : List ℕ

-- `vec![0; n]`.
unfoldable pub zeros : ℕ → List ℕ
zeros zero = []
zeros (suc n) = 0 ∷ zeros n

abbrev pub bitmap_size : ℕ
bitmap_size = (32767 + 1) / 64

unfoldable pub new : StreamIdSet
unfolding zeros
new = record { used_bitmap = zeros bitmap_size }

-- `!0` of a word.
abbrev all_ones : ℕ
all_ones = 2 ^ 64 - 1

-- The loop of `allocate` over the blocks from number `block_id` on. The sum cannot overflow an
-- `i16`: `Laws` shows that it is below 32768.
unfoldable pub allocate_from : ℕ → List ℕ → Option (ℕ × List ℕ)
allocate_from block_id [] = none
allocate_from block_id (block ∷ rest) =
    let later = allocate_from (block_id + 1) rest in
    if not (block == all_ones)
    then (let off = trailing_ones 64 block in some (off + block_id * 64, set_bit block off ∷ rest))
    else Option.map (λ (r : ℕ × List ℕ). (r.0, block ∷ r.1)) later

unfoldable pub allocate : StreamIdSet → Option (ℕ × StreamIdSet)
unfolding allocate_from
allocate s =
    Option.map (λ (r : ℕ × List ℕ). (r.0, record { used_bitmap = r.1 }))
      (allocate_from 0 s.used_bitmap)

-- `used_bitmap[block_id] &= !(1 << off)`; `none` is the panic of an index out of bounds.
unfoldable pub free_in : List ℕ → ℕ → ℕ → Option (List ℕ)
free_in [] block_id off = none
free_in (block ∷ rest) zero off = some (clear_bit block off ∷ rest)
free_in (block ∷ rest) (suc block_id) off = Option.map (λ r. block ∷ r) (free_in rest block_id off)

unfoldable pub free : StreamIdSet → ℕ → Option StreamIdSet
unfolding free_in
free s stream_id =
    Option.map (λ b. record { used_bitmap = b })
      (free_in s.used_bitmap (stream_id / 64) (stream_id % 64))
