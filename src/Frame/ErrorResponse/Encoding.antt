-- ===== src/Frame/ErrorResponse/Encoding.antt =====
-- The body of an ERROR response as the protocol describes it: the code, the reason, and the fields
-- of the error in their order.
use scylla_rust_driver.Prelude.{
  ℕ, ◌≤◌, ◌<◌, ◌^◌, ◌≡◌, Bool, true, false, Option, none, some, List, [], ◌∷◌, ◌++◌, length, All,
  ok, ◌>>=◌,
}
use scylla_rust_driver.Prelude.Int.{ℤ, pos}
use scylla_rust_driver.Frame.DbError.{
  DbError, OperationType, WriteType, write_type_from, as_str, db_error_code,
}
use scylla_rust_driver.Frame.Wire.{
  BigEndian, Written, write_int, write_string, write_consistency, write_string_list,
  write_short_bytes,
}
use scylla_rust_driver.Frame.Wire.Lengths.{IsI32}
use scylla_rust_driver.Frame.Wire.Strings.{IsShortText}
use scylla_rust_driver.Frame.ErrorResponse.{Error, is_code, is_rate_limit}

abbrev pub bool_byte : Bool → ℕ
bool_byte true = 1
bool_byte false = 0

abbrev pub operation_byte : OperationType → ℕ
operation_byte OperationType.read = 0
operation_byte OperationType.write = 1
operation_byte (OperationType.other b) = b

abbrev pub or_zero : Option ℤ → ℤ
or_zero none = pos 0
or_zero (some code) = code

abbrev pub known_codes : List ℕ
known_codes =
    0x0000 ∷ 0x000a ∷ 0x0100 ∷ 0x1000 ∷ 0x1001 ∷ 0x1002 ∷ 0x1003 ∷ 0x1100 ∷ 0x1200 ∷ 0x1300 ∷ 0x1400
    ∷ 0x1500 ∷ 0x2000 ∷ 0x2100 ∷ 0x2200 ∷ 0x2300 ∷ 0x2400 ∷ 0x2500 ∷ []

abbrev pub IsUnknownCode : ℤ → Type 0
IsUnknownCode code = IsI32 code × All (λ m. is_code code m ≡ false) known_codes

-- A type of another name than those that the driver knows.
abbrev pub IsWireWriteType : WriteType → Type 0
IsWireWriteType (WriteType.other s) = IsShortText s × (write_type_from s ≡ WriteType.other s)
IsWireWriteType _ = Unit

abbrev pub IsWireOperationType : OperationType → Type 0
IsWireOperationType (OperationType.other b) = (2 ≤ b) × (b < 2 ^ 8)
IsWireOperationType _ = Unit

abbrev pub IsRateLimitCode : Option ℤ → Type 0
IsRateLimitCode none = ⊥
IsRateLimitCode (some code) = IsUnknownCode code

-- The fields fit their types, and a code or a name of a type that the driver does not know is not
-- one that it knows.
abbrev pub IsWireError : Option ℤ → DbError → Type 0
IsWireError rate_limit (DbError.unavailable c required alive) = IsI32 required × IsI32 alive
IsWireError rate_limit (DbError.write_timeout c received required write_type) =
    IsI32 received × IsI32 required × IsWireWriteType write_type
IsWireError rate_limit (DbError.read_timeout c received required data_present) =
    IsI32 received × IsI32 required
IsWireError rate_limit (DbError.read_failure c received required numfailures data_present) =
    IsI32 received × IsI32 required × IsI32 numfailures
IsWireError rate_limit (DbError.write_failure c received required numfailures write_type) =
    IsI32 received × IsI32 required × IsI32 numfailures × IsWireWriteType write_type
IsWireError rate_limit (DbError.function_failure keyspace function arg_types) =
    IsShortText keyspace
    × IsShortText function
    × All IsShortText arg_types
    × (length arg_types < 2 ^ 16)
IsWireError rate_limit (DbError.already_exists keyspace table) =
    IsShortText keyspace × IsShortText table
IsWireError rate_limit (DbError.unprepared statement_id) = length statement_id < 2 ^ 16
IsWireError rate_limit (DbError.rate_limit_reached op_type rejected) =
    IsRateLimitCode rate_limit × IsWireOperationType op_type
IsWireError rate_limit (DbError.other code) =
    IsUnknownCode code × (is_rate_limit rate_limit code ≡ false)
IsWireError rate_limit _ = Unit

module _ (w : BigEndian) where
  unfoldable pub encode_fields : DbError → Written
  encode_fields (DbError.unavailable c required alive) =
      ok (write_consistency w c ++ (write_int w required ++ write_int w alive))
  encode_fields (DbError.write_timeout c received required write_type) =
      write_string w (as_str write_type) >>= λ t.
      ok (write_consistency w c ++ (write_int w received ++ (write_int w required ++ t)))
  encode_fields (DbError.read_timeout c received required data_present) = ok (
      write_consistency w c
      ++ (write_int w received ++ (write_int w required ++ w.put_byte (bool_byte data_present))))
  encode_fields (DbError.read_failure c received required numfailures data_present) = ok (
      write_consistency w c
      ++ (write_int w received
          ++ (write_int w required
              ++ (write_int w numfailures ++ w.put_byte (bool_byte data_present)))))
  encode_fields (DbError.write_failure c received required numfailures write_type) =
      write_string w (as_str write_type) >>= λ t. ok (
        write_consistency w c
        ++ (write_int w received ++ (write_int w required ++ (write_int w numfailures ++ t))))
  encode_fields (DbError.function_failure keyspace function arg_types) =
      write_string w keyspace >>= λ k. write_string w function >>= λ f.
      write_string_list w arg_types >>= λ args. ok (k ++ (f ++ args))
  encode_fields (DbError.already_exists keyspace table) =
      write_string w keyspace >>= λ k. write_string w table >>= λ t. ok (k ++ t)
  encode_fields (DbError.unprepared statement_id) = write_short_bytes w statement_id
  encode_fields (DbError.rate_limit_reached op_type rejected) =
      ok (w.put_byte (operation_byte op_type) ++ w.put_byte (bool_byte rejected))
  encode_fields _ = ok []

  unfoldable pub encode : (rate_limit_error : Option ℤ) → Error → Written
  unfolding encode_fields
  encode rate_limit_error e = write_string w e.reason >>= λ reason.
      encode_fields e.error >>= λ fields.
      ok (write_int w (or_zero (db_error_code e.error rate_limit_error)) ++ (reason ++ fields))
