-- ===== src/Routing/Partitioners/Keys.antt =====
-- `PartitionerName`, the hasher of any partitioner, and the token of a serialized partition key.
pub mod Cdc
pub mod Composite
use mathlib.Core.Option
use scylla_rust_driver.Prelude.{
  ℕ, zero, suc, ◌-◌, ◌/◌, ◌%◌, ◌^◌, Bool, true, false, Option, none, some, List, [], ◌∷◌, ◌++◌,
  if◌then◌else◌, ltb, leb, ◌==◌, length, drop, Result, ok, err,
}
use scylla_rust_driver.Prelude.Options.{◌>>=◌}
use scylla_rust_driver.Prelude.Bytes.{codes, bytes_eq}
use scylla_rust_driver.Frame.Wire.{RawValue}
use scylla_rust_driver.Routing.Sharding.{Token}
use scylla_rust_driver.Routing.Partitioners.{
  Buf, Murmur3PartitionerHasher, murmur3_build_hasher, murmur3_write, murmur3_finish,
  CdcPartitionerHasher, cdc_build_hasher, cdc_write, cdc_finish,
}

pub data PartitionerName : Type 0 where
  murmur3 cdc : PartitionerName

-- `str::ends_with`.
unfoldable pub ends_with : List ℕ → List ℕ → Bool
ends_with name suffix =
    if leb (length suffix) (length name)
    then bytes_eq (drop (length name - length suffix) name) suffix
    else false

unfoldable pub partitioner_from_str : List ℕ → Option PartitionerName
unfolding ends_with
partitioner_from_str name =
    if ends_with name (codes "Murmur3Partitioner")
    then some PartitionerName.murmur3
    else if ends_with name (codes "CDCPartitioner")
    then some PartitionerName.cdc
    else none

pub data PartitionerHasherAny : Type 0 where
  murmur3 : Murmur3PartitionerHasher → PartitionerHasherAny
  cdc : CdcPartitionerHasher → PartitionerHasherAny

unfoldable pub build_hasher : PartitionerName → PartitionerHasherAny
build_hasher PartitionerName.murmur3 = PartitionerHasherAny.murmur3 murmur3_build_hasher
build_hasher PartitionerName.cdc = PartitionerHasherAny.cdc cdc_build_hasher

unfoldable pub finish : PartitionerHasherAny → Token
finish (PartitionerHasherAny.murmur3 h) = murmur3_finish h
finish (PartitionerHasherAny.cdc h) = cdc_finish h

pub data TokenCalculationError : Type 0 where
  value_too_long : ℕ → TokenCalculationError

module _ (b : Buf) where
  unfoldable pub write : PartitionerHasherAny → List ℕ → Option PartitionerHasherAny
  write (PartitionerHasherAny.murmur3 h) pk_part =
      Option.map PartitionerHasherAny.murmur3 (murmur3_write b h pk_part)
  write (PartitionerHasherAny.cdc h) pk_part =
      Option.map PartitionerHasherAny.cdc (cdc_write b h pk_part)

  -- `Partitioner::hash_one`.
  unfoldable pub hash_one : PartitionerName → List ℕ → Option Token
  hash_one name bytes = Option.map finish (write (build_hasher name) bytes)

  -- A key of one value.
  unfoldable pub write_single : PartitionerHasherAny → RawValue → Option PartitionerHasherAny
  write_single h (RawValue.value val) = write h val
  write_single h _ = some h

  -- A value among several: its length in two bytes, the value, and a zero. The big-endian bytes of
  -- a `u16` are written out.
  unfoldable pub write_component :
      PartitionerHasherAny → List ℕ → Option (Result TokenCalculationError PartitionerHasherAny)
  write_component h val =
      if ltb (length val) (2 ^ 16)
      then (do
        h1 ← write h (length val / 256 ∷ length val % 256 ∷ [])
        h2 ← write h1 val
        h3 ← write h2 (0 ∷ [])
        some (ok h3))
      else some (err (TokenCalculationError.value_too_long (length val)))

  -- The loop over the values that are neither null nor unset.
  unfoldable pub write_components :
      PartitionerHasherAny
      → List RawValue
      → Option (Result TokenCalculationError PartitionerHasherAny)
  write_components h [] = some (ok h)
  write_components h (RawValue.value val ∷ values) = write_component h val >>= λ r. elim r [
    | err e ↦ some (err e)
    | ok h' ↦ write_components h' values
  ]
  write_components h (_ ∷ values) = write_components h values

  -- The outer `none` is a panic. `values` are the values of the key; a key has fewer than 2^16.
  unfoldable pub calculate_token_for_partition_key :
      List RawValue → PartitionerName → Option (Result TokenCalculationError Token)
  calculate_token_for_partition_key (val ∷ []) partitioner =
      write_single (build_hasher partitioner) val >>= λ h. some (ok (finish h))
  calculate_token_for_partition_key values partitioner =
      write_components (build_hasher partitioner) values >>= λ r. elim r [
        | err e ↦ some (err e)
        | ok h ↦ some (ok (finish h))
      ]
