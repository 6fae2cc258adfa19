-- ===== src/Routing/Partitioners/Examples.antt =====
-- Tests and witnesses of the partitioners, with the readers of `bytes` written out.
use mathlib.Core.Path.{subst}
use scylla_rust_driver.Prelude.{
  ℕ, ◌+◌, ◌*◌, ◌≡◌, refl, true, Option, none, some, List, [], ◌∷◌, ◌++◌, if◌then◌else◌, leb, length,
  take, drop, replicate, arith, length-append, take-length_append,
}
use scylla_rust_driver.Prelude.Bytes.{codes}
use scylla_rust_driver.Prelude.Int.{pos, negsuc}
use scylla_rust_driver.Frame.Wire.{RawValue}
use scylla_rust_driver.Routing.Sharding.{token_new}
use scylla_rust_driver.Routing.Partitioners.{
  Buf, Murmur3PartitionerHasher, murmur3_build_hasher, murmur3_write, murmur3_finish,
  CdcPartitionerHasher, cdc_build_hasher, cdc_write, cdc_finish, add_usize, fill_buffer,
  hash_blocks, keep_rest, final_mix, rotl64, xor_bytes, copy_from_slice,
}
use scylla_rust_driver.Routing.Partitioners.Feeding.{ReadsWords, nothing_fed, feed, fed_token}
use scylla_rust_driver.Routing.Partitioners.Midway.{Holds}
use scylla_rust_driver.Routing.Partitioners.Written.{murmur3_write-Holds}
use scylla_rust_driver.Routing.Partitioners.Parts.{
  write_parts, write_parts-fed_token, concat, start-Holds,
}
use scylla_rust_driver.Routing.Partitioners.Keys.{
  PartitionerName, build_hasher, write, finish, hash_one, calculate_token_for_partition_key,
}
use scylla_rust_driver.Routing.Partitioners.Keys.Cdc.{
  cdc_write_parts, cdc_write_parts-cdc_token, cdc_token,
}
use scylla_rust_driver.Routing.Partitioners.Keys.Composite.{
  too_long, key_token, calculate_token_for_partition_key-key_token,
}

abbrev little_endian : List ℕ → ℕ
little_endian [] = 0
little_endian (x ∷ xs) = x + 256 * little_endian xs

abbrev big_endian : ℕ → List ℕ → ℕ
big_endian acc [] = acc
big_endian acc (x ∷ xs) = big_endian (acc * 256 + x) xs

abbrev read_word : (List ℕ → ℕ) → List ℕ → Option (ℕ × List ℕ)
read_word word bytes =
    if leb 8 (length bytes) then some (word (take 8 bytes), drop 8 bytes) else none

abbrev bytes_crate : Buf
bytes_crate = record { get_i64_le = read_word little_endian; get_i64 = read_word (big_endian 0) }

drop-length_append : (xs ys : List ℕ) → drop (length xs) (xs ++ ys) ≡ ys
drop-length_append [] ys = refl
drop-length_append (x ∷ xs) ys = drop-length_append xs ys

read_word_lem :
    (word : List ℕ → ℕ) (a rest : List ℕ)
    → length a ≡ 8
    → read_word word (a ++ rest) ≡ some (word a, rest)
read_word_lem word a rest e =
    let long : leb 8 (length (a ++ rest)) ≡ true = ground (arith, length-append a rest, e) in
    let first : take 8 (a ++ rest) ≡ a =
      subst (λ n. take n (a ++ rest) ≡ a) e (take-length_append a rest) in
    let second : drop 8 (a ++ rest) ≡ rest =
      subst (λ n. drop n (a ++ rest) ≡ rest) e (drop-length_append a rest) in
    simp (long, first, second)

bytes_crate-ReadsWords : ReadsWords bytes_crate
bytes_crate-ReadsWords = record {
  word_le = little_endian;
  word = big_endian 0;
  le = read_word_lem little_endian;
  be = read_word_lem (big_endian 0);
}

-- The tokens of the tests of partitioner.rs.
hash_xd :
    hash_one bytes_crate PartitionerName.murmur3 (codes "xd")
    ≡ some (token_new (pos 4507812186440344727))
unfolding hash_one write build_hasher murmur3_write add_usize murmur3_build_hasher fill_buffer
    hash_blocks keep_rest token_new finish murmur3_finish final_mix rotl64 xor_bytes copy_from_slice
hash_xd = refl

hash_test :
    hash_one bytes_crate PartitionerName.murmur3 (codes "test")
    ≡ some (token_new (negsuc 6017608668500074082))
unfolding hash_one write build_hasher murmur3_write add_usize murmur3_build_hasher fill_buffer
    hash_blocks keep_rest token_new finish murmur3_finish final_mix rotl64 xor_bytes copy_from_slice
hash_test = refl

hash_cdc :
    hash_one bytes_crate PartitionerName.cdc (0 ∷ 0 ∷ 0 ∷ 0 ∷ 0 ∷ 0 ∷ 1 ∷ 2 ∷ 3 ∷ [])
    ≡ some (token_new (pos 258))
unfolding hash_one write build_hasher cdc_write cdc_build_hasher copy_from_slice token_new finish
    cdc_finish
hash_cdc = refl

abbrev key_parts : List (List ℕ)
key_parts = (1 ∷ 2 ∷ 3 ∷ []) ∷ replicate 20 7 ∷ [] ∷ (4 ∷ []) ∷ []

write_parts-fed_token_example :
    (h : Murmur3PartitionerHasher) × (write_parts bytes_crate murmur3_build_hasher key_parts
      ≡ some h)
    × (murmur3_finish h
        ≡ fed_token (feed bytes_crate bytes_crate-ReadsWords nothing_fed (concat key_parts)))
write_parts-fed_token_example =
    write_parts-fed_token bytes_crate bytes_crate-ReadsWords key_parts (omega arith)

murmur3_write-Holds_example :
    (h : Murmur3PartitionerHasher) × (murmur3_write bytes_crate murmur3_build_hasher
        (replicate 40 9)
      ≡ some h)
    × Holds h (feed bytes_crate bytes_crate-ReadsWords nothing_fed (replicate 40 9))
murmur3_write-Holds_example =
    murmur3_write-Holds bytes_crate bytes_crate-ReadsWords murmur3_build_hasher nothing_fed
      (replicate 40 9) start-Holds (omega arith) (omega arith)

cdc_write_parts-cdc_token_example :
    (h : CdcPartitionerHasher) × (cdc_write_parts bytes_crate cdc_build_hasher key_parts ≡ some h)
    × (cdc_finish h ≡ cdc_token bytes_crate bytes_crate-ReadsWords (concat key_parts))
cdc_write_parts-cdc_token_example =
    cdc_write_parts-cdc_token bytes_crate bytes_crate-ReadsWords key_parts

abbrev key_values : List RawValue
key_values = RawValue.value (1 ∷ 2 ∷ []) ∷ RawValue.null ∷ RawValue.value [] ∷ []

calculate_token_for_partition_key-key_token_example :
    calculate_token_for_partition_key bytes_crate key_values PartitionerName.murmur3
    ≡ some (key_token bytes_crate bytes_crate-ReadsWords (too_long key_values) key_values)
calculate_token_for_partition_key-key_token_example =
    calculate_token_for_partition_key-key_token bytes_crate bytes_crate-ReadsWords key_values
      (omega arith)
