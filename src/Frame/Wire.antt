-- ===== src/Frame/Wire.antt =====
-- Reading and writing the primitive types of the protocol: scylla-cql/src/frame/types.rs. A reader
-- takes the bytes left and gives a value with the bytes after it; a writer gives the bytes which
-- it appends. What a failed call leaves of the buffer is left out.
pub mod Lengths
pub mod Strings
pub mod Inet
pub mod Examples
use scylla_rust_driver.Prelude.{
  ℕ, zero, suc, ◌+◌, ◌-◌, ◌%◌, ◌^◌, Bool, true, false, ◌&&◌, Option, none, some, List, [], ◌∷◌,
  ◌++◌, if◌then◌else◌, ltb, leb, ◌==◌, length, take, drop, Result, ok, err, map_err, ◌>>=◌,
}
use scylla_rust_driver.Prelude.Int.{ℤ, pos, negsuc}
use scylla_rust_driver.Frame.Consistency.{
  Consistency, SerialConsistency, TryFromPrimitiveError, as_u16, serial_as_u16,
  consistency_try_from,
}

-- What the crates `byteorder` and `bytes` do with big-endian integers: each reader gives the
-- number and the bytes after it, or `none` for the error on too few bytes.
pub record BigEndian : Type 0 where
  pub get_byte : List ℕ → Option (ℕ × List ℕ)
  pub get_short : List ℕ → Option (ℕ × List ℕ)
  pub get_int : List ℕ → Option (ℤ × List ℕ)
  pub get_long : List ℕ → Option (ℤ × List ℕ)
  pub put_byte : ℕ → List ℕ
  pub put_short : ℕ → List ℕ
  pub put_int : ℤ → List ℕ
  pub put_long : ℤ → List ℕ

-- The causes of the errors; an `io::Error` is always the one on too few bytes.
pub data LowLevelDeserializationError : Type 0 where
  io_error try_from_int_error utf8_error : LowLevelDeserializationError
  too_few_bytes_received : (expected received : ℕ) → LowLevelDeserializationError
  invalid_value_length : ℤ → LowLevelDeserializationError
  unknown_consistency : TryFromPrimitiveError → LowLevelDeserializationError
  invalid_inet_length : ℕ → LowLevelDeserializationError

pub data TryFromIntError : Type 0 where
  out_of_range : TryFromIntError

pub data RawValue : Type 0 where
  null unset : RawValue
  value : List ℕ → RawValue

unfoldable pub as_value : RawValue → Option (List ℕ)
as_value (RawValue.value v) = some v
as_value _ = none

abbrev pub Read : Type 0 → Type 0
Read A = Result LowLevelDeserializationError (A × List ℕ)

abbrev pub Written : Type 0
Written = Result TryFromIntError (List ℕ)

-- `?` on an `io::Error`.
abbrev pub or_io_error {ℓ} : {A : Type ℓ} → Option A → Result LowLevelDeserializationError A
or_io_error none = err LowLevelDeserializationError.io_error
or_io_error (some v) = ok v

unfoldable pub read_raw_bytes : ℕ → List ℕ → Read (List ℕ)
read_raw_bytes count buf =
    if ltb (length buf) count
    then err (LowLevelDeserializationError.too_few_bytes_received count (length buf))
    else ok (take count buf, drop count buf)

-- `str::from_utf8`: how many bytes a lead byte wants, with the bounds of the first of them, after
-- table 3-7 of the Unicode standard.
unfoldable pub lead : ℕ → Option (ℕ × ℕ × ℕ)
lead b =
    if leb b 0x7f
    then some (0, 0x80, 0xbf)
    else if leb b 0xc1
    then none
    else if leb b 0xdf
    then some (1, 0x80, 0xbf)
    else if b == 0xe0
    then some (2, 0xa0, 0xbf)
    else if b == 0xed
    then some (2, 0x80, 0x9f)
    else if leb b 0xef
    then some (2, 0x80, 0xbf)
    else if b == 0xf0
    then some (3, 0x90, 0xbf)
    else if leb b 0xf3
    then some (3, 0x80, 0xbf)
    else if b == 0xf4
    then some (3, 0x80, 0x8f)
    else none

unfoldable pub scan_utf8 : ℕ → ℕ → ℕ → List ℕ → Bool
unfolding lead
scan_utf8 zero low high [] = true
scan_utf8 (suc n) low high [] = false
scan_utf8 zero low high (b ∷ bs) = elim (lead b) [
  | none ↦ false
  | some (n, first_low, first_high) ↦ scan_utf8 n first_low first_high bs
]
scan_utf8 (suc n) low high (b ∷ bs) = leb low b && leb b high && scan_utf8 n 0x80 0xbf bs

abbrev pub is_utf8 : List ℕ → Bool
is_utf8 bytes = scan_utf8 0 0 0 bytes

-- A text is its bytes.
unfoldable pub from_utf8 : List ℕ → Result LowLevelDeserializationError (List ℕ)
from_utf8 raw = if is_utf8 raw then ok raw else err LowLevelDeserializationError.utf8_error

-- `usize::try_from(i32)` and back, and `u16::try_from(usize)`.
unfoldable pub to_usize : ℤ → Result LowLevelDeserializationError ℕ
to_usize (pos n) = ok n
to_usize (negsuc n) = err LowLevelDeserializationError.try_from_int_error

unfoldable pub to_i32 : ℕ → Result TryFromIntError ℤ
to_i32 n = if ltb n (2 ^ 31) then ok (pos n) else err TryFromIntError.out_of_range

unfoldable pub to_u16 : ℕ → Result TryFromIntError ℕ
to_u16 n = if ltb n (2 ^ 16) then ok n else err TryFromIntError.out_of_range

-- A result with the rest of the buffer.
abbrev pub at_rest : {A : Type 0} → List ℕ → Result LowLevelDeserializationError A → Read A
at_rest rest (err e) = err e
at_rest rest (ok v) = ok (v, rest)

module _ (w : BigEndian) where
  unfoldable pub read_int : List ℕ → Read ℤ
  read_int buf = or_io_error (w.get_int buf)

  unfoldable pub write_int : ℤ → List ℕ
  write_int v = w.put_int v

  unfoldable pub read_int_length : List ℕ → Read ℕ
  read_int_length buf = read_int buf >>= λ (v, rest). at_rest rest (to_usize v)

  unfoldable pub write_int_length : ℕ → Written
  write_int_length v = to_i32 v >>= λ n. ok (write_int n)

  unfoldable pub read_long : List ℕ → Read ℤ
  read_long buf = or_io_error (w.get_long buf)

  unfoldable pub write_long : ℤ → List ℕ
  write_long v = w.put_long v

  unfoldable pub read_short : List ℕ → Read ℕ
  read_short buf = or_io_error (w.get_short buf)

  unfoldable pub write_short : ℕ → List ℕ
  write_short v = w.put_short v

  unfoldable pub read_short_length : List ℕ → Read ℕ
  read_short_length buf = read_short buf

  unfoldable pub write_short_length : ℕ → Written
  write_short_length v = to_u16 v >>= λ n. ok (write_short n)

  unfoldable pub read_bytes_opt : List ℕ → Read (Option (List ℕ))
  read_bytes_opt buf = read_int buf >>= λ (len, rest). elim len [
    | negsuc _ ↦ ok (none, rest)
    | pos n ↦ read_raw_bytes n rest >>= λ (v, rest'). ok (some v, rest')
  ]

  unfoldable pub read_bytes : List ℕ → Read (List ℕ)
  read_bytes buf = read_int_length buf >>= λ (len, rest). read_raw_bytes len rest

  unfoldable pub read_value : List ℕ → Read RawValue
  read_value buf = read_int buf >>= λ (len, rest). elim len [
    | negsuc n ↦
        if n == 1
        then ok (RawValue.unset, rest)
        else if n == 0
        then ok (RawValue.null, rest)
        else err (LowLevelDeserializationError.invalid_value_length (negsuc n))
    | pos n ↦ read_raw_bytes n rest >>= λ (v, rest'). ok (RawValue.value v, rest')
  ]

  unfoldable pub read_short_bytes : List ℕ → Read (List ℕ)
  read_short_bytes buf = read_short_length buf >>= λ (len, rest). read_raw_bytes len rest

  unfoldable pub write_bytes : List ℕ → Written
  write_bytes v = write_int_length (length v) >>= λ len. ok (len ++ v)

  unfoldable pub write_bytes_opt : Option (List ℕ) → Written
  write_bytes_opt (some bytes) = write_int_length (length bytes) >>= λ len. ok (len ++ bytes)
  write_bytes_opt none = ok (write_int (negsuc 0))

  unfoldable pub write_short_bytes : List ℕ → Written
  write_short_bytes v = write_short_length (length v) >>= λ len. ok (len ++ v)

  unfoldable pub read_string : List ℕ → Read (List ℕ)
  read_string buf = read_short_length buf >>= λ (len, rest).
      read_raw_bytes len rest >>= λ (raw, rest'). at_rest rest' (from_utf8 raw)

  unfoldable pub write_string : List ℕ → Written
  write_string v = write_short_length (length v) >>= λ len. ok (len ++ v)

  unfoldable pub read_long_string : List ℕ → Read (List ℕ)
  read_long_string buf = read_int_length buf >>= λ (len, rest).
      read_raw_bytes len rest >>= λ (raw, rest'). at_rest rest' (from_utf8 raw)

  unfoldable pub write_long_string : List ℕ → Written
  write_long_string v = write_int_length (length v) >>= λ len. ok (len ++ v)

  -- The loop of `read_string_list`, and the one of `write_string_list`.
  unfoldable pub read_strings : ℕ → List ℕ → Read (List (List ℕ))
  read_strings zero buf = ok ([], buf)
  read_strings (suc n) buf =
      read_string buf >>= λ (v, rest). read_strings n rest >>= λ (vs, rest'). ok (v ∷ vs, rest')

  unfoldable pub read_string_list : List ℕ → Read (List (List ℕ))
  read_string_list buf = read_short_length buf >>= λ (len, rest). read_strings len rest

  unfoldable pub write_strings : List (List ℕ) → Written
  write_strings [] = ok []
  write_strings (v ∷ vs) =
      write_string v >>= λ first. write_strings vs >>= λ others. ok (first ++ others)

  unfoldable pub write_string_list : List (List ℕ) → Written
  write_string_list v =
      write_short_length (length v) >>= λ len. write_strings v >>= λ strings. ok (len ++ strings)

  -- A `Uuid` is its 16 bytes.
  unfoldable pub read_uuid : List ℕ → Read (List ℕ)
  read_uuid buf = read_raw_bytes 16 buf

  unfoldable pub write_uuid : List ℕ → List ℕ
  write_uuid uuid = uuid

  unfoldable pub read_consistency : List ℕ → Read Consistency
  read_consistency buf = read_short buf >>= λ (raw, rest).
      at_rest rest
        (map_err LowLevelDeserializationError.unknown_consistency (consistency_try_from raw))

  unfoldable pub write_consistency : Consistency → List ℕ
  write_consistency c = write_short (as_u16 c)

  unfoldable pub write_serial_consistency : SerialConsistency → List ℕ
  write_serial_consistency c = write_short (serial_as_u16 c)
