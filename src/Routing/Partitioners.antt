-- ===== src/Routing/Partitioners.antt =====
-- The partitioners of scylla/src/routing/partitioner.rs, which hash a partition key to a token.
pub mod Feeding
pub mod Midway
pub mod Written
pub mod Parts
pub mod Keys
pub mod Examples
use Prim.Native.Nat.{min, bit_or, bit_xor}
use mathlib.Core.Option
use scylla_rust_driver.Prelude.{
  ℕ, zero, suc, ◌+◌, ◌-◌, ◌*◌, ◌/◌, ◌%◌, ◌^◌, Bool, true, false, ◌&&◌, Option, none, some, List, [],
  ◌∷◌, ◌++◌, if◌then◌else◌, ltb, leb, ◌==◌, length, take, drop, replicate, Result, ok, err,
}
use scylla_rust_driver.Prelude.Options.{◌>>=◌}
use scylla_rust_driver.Prelude.Int.{ℤ, pos, negsuc}
use scylla_rust_driver.Frame.Wire.{RawValue, as_value}
use scylla_rust_driver.Routing.Sharding.{Token, token_new, invalid}

-- `get_i64_le` and `get_i64` of the crate `bytes`: the word, as its 64 bits, and the bytes behind
-- it. `none` is the panic on too few bytes.
pub record Buf : Type 0 where
  pub get_i64_le : List ℕ → Option (ℕ × List ℕ)
  pub get_i64 : List ℕ → Option (ℕ × List ℕ)

-- `Wrapping<i64>`, as its 64 bits.
unfoldable pub wrapping_mul : ℕ → ℕ → ℕ
wrapping_mul a b = a * b % 2 ^ 64

unfoldable pub wrapping_add : ℕ → ℕ → ℕ
wrapping_add a b = (a + b) % 2 ^ 64

-- `(v.0 << n) | (v.0 as u64 >> (64 - n))`.
unfoldable pub rotl64 : ℕ → ℕ → ℕ
rotl64 v n = bit_or (v * 2 ^ n % 2 ^ 64) (v / 2 ^ (64 - n))

abbrev pub c1 : ℕ
c1 = 0x87c37b91114253d5

abbrev pub c2 : ℕ
c2 = 0x4cf5ad432745937f

unfoldable pub fmix : ℕ → ℕ
unfolding wrapping_mul
fmix k =
    let k = bit_xor k (k / 2 ^ 33) in
    let k = wrapping_mul k 0xff51afd7ed558ccd in
    let k = bit_xor k (k / 2 ^ 33) in
    let k = wrapping_mul k 0xc4ceb9fe1a85ec53 in bit_xor k (k / 2 ^ 33)

pub record Murmur3PartitionerHasher : Type 0 where
  pub total_len : ℕ
  pub buf : List ℕ
  pub h1 : ℕ
  pub h2 : ℕ

unfoldable pub murmur3_build_hasher : Murmur3PartitionerHasher
murmur3_build_hasher = record { total_len = 0; buf = replicate 16 0; h1 = 0; h2 = 0 }

-- The two halves of the state after 16 bytes, from the halves before.
unfoldable pub hash_16_bytes : (k1 k2 h1 h2 : ℕ) → ℕ × ℕ
unfolding wrapping_mul wrapping_add rotl64
hash_16_bytes k1 k2 h1 h2 =
    let k1 = wrapping_mul (rotl64 (wrapping_mul k1 c1) 31) c2 in
    let h1 = rotl64 (bit_xor h1 k1) 27 in
    let h1 = wrapping_add (wrapping_mul (wrapping_add h1 h2) 5) 0x52dce729 in
    let k2 = wrapping_mul (rotl64 (wrapping_mul k2 c2) 33) c1 in
    let h2 = rotl64 (bit_xor h2 k2) 31 in
    let h2 = wrapping_add (wrapping_mul (wrapping_add h2 h1) 5) 0x38495ab5 in (h1, h2)

abbrev pub hash_words : Murmur3PartitionerHasher → ℕ × ℕ → Murmur3PartitionerHasher
hash_words h (k1, k2) =
    let (h1, h2) = hash_16_bytes k1 k2 h.h1 h.h2 in record h { h1 = h1; h2 = h2 }

-- `buf[at..at + src.len()].copy_from_slice(src)`; the bounds are those of `write`.
unfoldable pub copy_from_slice : ℕ → List ℕ → List ℕ → List ℕ
copy_from_slice at src buf = take at buf ++ (src ++ drop (at + length src) buf)

-- `total_len += pk_part.len()`, where `none` is the overflow of a `usize`.
unfoldable pub add_usize : ℕ → ℕ → Option ℕ
add_usize a b = if ltb (a + b) (2 ^ 64) then some (a + b) else none

-- `as i8 as i64` of a byte, and `as i128` of a word, as bits.
abbrev pub sign_extend : ℕ → ℕ
sign_extend b = if ltb b 128 then b else b + 2 ^ 64 - 256

abbrev pub as_i128 : ℕ → ℕ
as_i128 h = if ltb h (2 ^ 63) then h else h + 2 ^ 128 - 2 ^ 64

abbrev pub as_i64 : ℕ → ℤ
as_i64 n = if ltb n (2 ^ 63) then pos n else negsuc (2 ^ 64 - 1 - n)

-- `buf[i]`, which is always in bounds.
abbrev pub byte_at : List ℕ → ℕ → ℕ
byte_at [] i = 0
byte_at (b ∷ bs) zero = b
byte_at (b ∷ bs) (suc i) = byte_at bs i

-- The loops of `finish`, downwards from `count - 1`.
unfoldable pub xor_bytes : (offset count : ℕ) → List ℕ → ℕ → ℕ
xor_bytes offset zero buf k = k
xor_bytes offset (suc i) buf k =
    xor_bytes offset i buf
      (bit_xor k (sign_extend (byte_at buf (offset + i)) * 2 ^ (i * 8) % 2 ^ 64))

module _ (b : Buf) where
  unfoldable pub fetch_16_bytes_from_buf : List ℕ → Option ((ℕ × ℕ) × List ℕ)
  fetch_16_bytes_from_buf buf = do
    first ← b.get_i64_le buf
    second ← b.get_i64_le first.1
    some ((first.0, second.0), second.1)

  -- The hasher, the bytes left of the part, and `buf_len`.
  unfoldable pub fill_buffer :
      ℕ → Murmur3PartitionerHasher → List ℕ → Option (Murmur3PartitionerHasher × List ℕ × ℕ)
  fill_buffer buf_len h pk_part =
      if ltb 0 buf_len && leb (16 - buf_len) (length pk_part)
      then (let to_write = min (16 - buf_len) (length pk_part) in
          let buf = copy_from_slice buf_len (take to_write pk_part) h.buf in
          fetch_16_bytes_from_buf buf >>= λ (k, _).
          some (hash_words (record h { buf = buf }) k, drop to_write pk_part, 0))
      else some (h, pk_part, buf_len)

  -- The fast path; a part of `n` bytes takes fewer than `n + 1` rounds.
  unfoldable pub hash_blocks :
      ℕ → Murmur3PartitionerHasher → List ℕ → Option (Murmur3PartitionerHasher × List ℕ)
  hash_blocks zero h pk_part = none
  hash_blocks (suc fuel) h pk_part =
      let more =
        fetch_16_bytes_from_buf pk_part >>= λ (k, rest). hash_blocks fuel (hash_words h k) rest in
      if leb 16 (length pk_part) then more else some (h, pk_part)

  -- The last phase, with its `debug_assert!`.
  unfoldable pub keep_rest : ℕ → Murmur3PartitionerHasher → List ℕ → Option Murmur3PartitionerHasher
  keep_rest buf_len h pk_part =
      if ltb (length pk_part) (16 - buf_len)
      then some (record h { buf = copy_from_slice buf_len pk_part h.buf })
      else none

  unfoldable pub murmur3_write : Murmur3PartitionerHasher → List ℕ → Option Murmur3PartitionerHasher
  murmur3_write h pk_part = do
    total_len ← add_usize h.total_len (length pk_part)
    filled ← fill_buffer (h.total_len % 16) (record h { total_len = total_len }) pk_part
    hashed ←
        if filled.2 == 0
        then hash_blocks (suc (length filled.1)) filled.0 filled.1
        else some (filled.0, filled.1)
    keep_rest filled.2 hashed.0 hashed.1

-- The words of the bytes that are left, if there are any.
abbrev pub tail_h2 : ℕ → List ℕ → ℕ → ℕ
tail_h2 buf_len buf h2 =
    if ltb 8 buf_len
    then bit_xor h2
        (wrapping_mul (rotl64 (wrapping_mul (xor_bytes 8 (buf_len - 8) buf 0) c2) 33) c1)
    else h2

abbrev pub tail_h1 : ℕ → List ℕ → ℕ → ℕ
tail_h1 buf_len buf h1 =
    if ltb 0 buf_len
    then bit_xor h1
        (wrapping_mul (rotl64 (wrapping_mul (xor_bytes 0 (min 8 buf_len) buf 0) c1) 31) c2)
    else h1

-- The end of `finish`.
unfoldable pub final_mix : (total_len h1 h2 : ℕ) → Token
unfolding wrapping_add fmix
final_mix total_len h1 h2 =
    let h1 = bit_xor h1 (total_len % 2 ^ 64) in
    let h2 = bit_xor h2 (total_len % 2 ^ 64) in
    let h1 = wrapping_add h1 h2 in
    let h2 = wrapping_add h2 h1 in
    let h1 = fmix h1 in
    let h2 = fmix h2 in
    let h1 = wrapping_add h1 h2 in
    let h2 = wrapping_add h2 h1 in
    token_new (as_i64 (bit_or (as_i128 h2 * 2 ^ 64 % 2 ^ 128) (as_i128 h1) % 2 ^ 64))

unfoldable pub murmur3_finish : Murmur3PartitionerHasher → Token
murmur3_finish h =
    let buf_len = h.total_len % 16 in
    final_mix h.total_len (tail_h1 buf_len h.buf h.h1) (tail_h2 buf_len h.buf h.h2)

pub data CdcPartitionerHasher : Type 0 where
  feeding : (len : ℕ) → (buf : List ℕ) → CdcPartitionerHasher
  computed : Token → CdcPartitionerHasher

unfoldable pub cdc_build_hasher : CdcPartitionerHasher
cdc_build_hasher = CdcPartitionerHasher.feeding 0 (replicate 8 0)

unfoldable pub cdc_finish : CdcPartitionerHasher → Token
cdc_finish (CdcPartitionerHasher.feeding len buf) = invalid
cdc_finish (CdcPartitionerHasher.computed token) = token

module _ (b : Buf) where
  abbrev pub cdc_fed : ℕ → List ℕ → Option CdcPartitionerHasher
  cdc_fed len buf =
      if len == 8
      then (b.get_i64 buf >>= λ (v, _). some (CdcPartitionerHasher.computed (token_new (as_i64 v))))
      else some (CdcPartitionerHasher.feeding len buf)

  unfoldable pub cdc_write : CdcPartitionerHasher → List ℕ → Option CdcPartitionerHasher
  cdc_write (CdcPartitionerHasher.feeding len buf) pk_part =
      let copied_len = min (length pk_part) (8 - len) in
      cdc_fed (len + copied_len) (copy_from_slice len (take copied_len pk_part) buf)
  cdc_write (CdcPartitionerHasher.computed token) pk_part =
      some (CdcPartitionerHasher.computed token)
