-- ===== src/Frame/ErrorResponse.antt =====
-- `Error::deserialize` of scylla-cql/src/frame/response/error.rs: the body of an ERROR response.
pub mod Encoding
pub mod RoundTrip
pub mod Examples
use Prim.Native.String.{String}
use scylla_rust_driver.Prelude.{
  ℕ, Bool, true, false, not, ◌&&◌, Option, none, some, List, [], ◌∷◌, ◌++◌, if◌then◌else◌, ◌==◌,
  Result, ok, err, map_err, ◌>>=◌,
}
use scylla_rust_driver.Prelude.Int.{ℤ, pos, negsuc}
use scylla_rust_driver.Frame.DbError.{
  DbError, OperationType, WriteType, operation_type_from, write_type_from,
}
use scylla_rust_driver.Frame.Wire.{
  BigEndian, LowLevelDeserializationError, Read, or_io_error, read_int, read_string,
  read_consistency, read_string_list, read_short_bytes,
}

pub data CqlErrorParseError : Type 0 where
  error_code_parse_error reason_parse_error : LowLevelDeserializationError → CqlErrorParseError
  malformed_error_field :
      (db_error field : String) → LowLevelDeserializationError → CqlErrorParseError

pub record Error : Type 0 where
  pub error : DbError
  pub reason : List ℕ

abbrev pub ReadError : Type 0 → Type 0
ReadError A = List ℕ → Result CqlErrorParseError (A × List ℕ)

-- A field, with `make_error_field_err` as its error.
unfoldable pub field : {A : Type 0} → String → String → (List ℕ → Read A) → ReadError A
field db_error name reader buf =
    map_err (CqlErrorParseError.malformed_error_field db_error name) (reader buf)

-- The numbers of the codes; none of them is negative.
abbrev pub is_code : ℤ → ℕ → Bool
is_code (pos n) m = n == m
is_code (negsuc n) m = false

abbrev pub eqb_ℤ : ℤ → ℤ → Bool
eqb_ℤ (pos n) (pos m) = n == m
eqb_ℤ (negsuc n) (negsuc m) = n == m
eqb_ℤ _ _ = false

-- `Some(code) == features.rate_limit_error`.
abbrev pub is_rate_limit : Option ℤ → ℤ → Bool
is_rate_limit none code = false
is_rate_limit (some n) code = eqb_ℤ code n

module _ (w : BigEndian) where
  -- `buf.read_u8()`, as it is, against 0, and as an operation type; and a text as a write type.
  unfoldable pub read_bool : List ℕ → Read Bool
  read_bool buf = or_io_error (w.get_byte buf) >>= λ (b, rest). ok (not (b == 0), rest)

  unfoldable pub read_operation_type : List ℕ → Read OperationType
  read_operation_type buf =
      or_io_error (w.get_byte buf) >>= λ (b, rest). ok (operation_type_from b, rest)

  unfoldable pub read_write_type : List ℕ → Read WriteType
  read_write_type buf = read_string w buf >>= λ (s, rest). ok (write_type_from s, rest)

  unfoldable pub read_unavailable : ReadError DbError
  unfolding field
  read_unavailable buf =
      field "UNAVAILABLE" "CONSISTENCY" (read_consistency w) buf >>= λ (consistency, rest0).
      field "UNAVAILABLE" "REQUIRED" (read_int w) rest0 >>= λ (required, rest1).
      field "UNAVAILABLE" "ALIVE" (read_int w) rest1 >>= λ (alive, rest2).
      ok (DbError.unavailable consistency required alive, rest2)

  unfoldable pub read_write_timeout : ReadError DbError
  unfolding field
  read_write_timeout buf =
      field "WRITE_TIMEOUT" "CONSISTENCY" (read_consistency w) buf >>= λ (consistency, rest0).
      field "WRITE_TIMEOUT" "RECEIVED" (read_int w) rest0 >>= λ (received, rest1).
      field "WRITE_TIMEOUT" "REQUIRED" (read_int w) rest1 >>= λ (required, rest2).
      field "WRITE_TIMEOUT" "WRITE_TYPE" (read_write_type) rest2 >>= λ (write_type, rest3).
      ok (DbError.write_timeout consistency received required write_type, rest3)

  unfoldable pub read_read_timeout : ReadError DbError
  unfolding field
  read_read_timeout buf =
      field "READ_TIMEOUT" "CONSISTENCY" (read_consistency w) buf >>= λ (consistency, rest0).
      field "READ_TIMEOUT" "RECEIVED" (read_int w) rest0 >>= λ (received, rest1).
      field "READ_TIMEOUT" "REQUIRED" (read_int w) rest1 >>= λ (required, rest2).
      field "READ_TIMEOUT" "DATA_PRESENT" (read_bool) rest2 >>= λ (data_present, rest3).
      ok (DbError.read_timeout consistency received required data_present, rest3)

  unfoldable pub read_read_failure : ReadError DbError
  unfolding field
  read_read_failure buf =
      field "READ_FAILURE" "CONSISTENCY" (read_consistency w) buf >>= λ (consistency, rest0).
      field "READ_FAILURE" "RECEIVED" (read_int w) rest0 >>= λ (received, rest1).
      field "READ_FAILURE" "REQUIRED" (read_int w) rest1 >>= λ (required, rest2).
      field "READ_FAILURE" "NUM_FAILURES" (read_int w) rest2 >>= λ (num_failures, rest3).
      field "READ_FAILURE" "DATA_PRESENT" (read_bool) rest3 >>= λ (data_present, rest4).
      ok (DbError.read_failure consistency received required num_failures data_present, rest4)

  unfoldable pub read_function_failure : ReadError DbError
  unfolding field
  read_function_failure buf =
      field "FUNCTION_FAILURE" "KEYSPACE" (read_string w) buf >>= λ (keyspace, rest0).
      field "FUNCTION_FAILURE" "FUNCTION" (read_string w) rest0 >>= λ (function, rest1).
      field "FUNCTION_FAILURE" "ARG_TYPES" (read_string_list w) rest1 >>= λ (arg_types, rest2).
      ok (DbError.function_failure keyspace function arg_types, rest2)

  unfoldable pub read_write_failure : ReadError DbError
  unfolding field
  read_write_failure buf =
      field "WRITE_FAILURE" "CONSISTENCY" (read_consistency w) buf >>= λ (consistency, rest0).
      field "WRITE_FAILURE" "RECEIVED" (read_int w) rest0 >>= λ (received, rest1).
      field "WRITE_FAILURE" "REQUIRED" (read_int w) rest1 >>= λ (required, rest2).
      field "WRITE_FAILURE" "NUM_FAILURES" (read_int w) rest2 >>= λ (num_failures, rest3).
      field "WRITE_FAILURE" "WRITE_TYPE" (read_write_type) rest3 >>= λ (write_type, rest4).
      ok (DbError.write_failure consistency received required num_failures write_type, rest4)

  unfoldable pub read_already_exists : ReadError DbError
  unfolding field
  read_already_exists buf =
      field "ALREADY_EXISTS" "KEYSPACE" (read_string w) buf >>= λ (keyspace, rest0).
      field "ALREADY_EXISTS" "TABLE" (read_string w) rest0 >>= λ (table, rest1).
      ok (DbError.already_exists keyspace table, rest1)

  unfoldable pub read_unprepared : ReadError DbError
  unfolding field
  read_unprepared buf =
      field "UNPREPARED" "STATEMENT_ID" (read_short_bytes w) buf >>= λ (statement_id, rest0).
      ok (DbError.unprepared statement_id, rest0)

  unfoldable pub read_rate_limit_reached : ReadError DbError
  unfolding field
  read_rate_limit_reached buf =
      field "RATE_LIMIT_REACHED" "OP_TYPE" (read_operation_type) buf >>= λ (op_type, rest0).
      field "RATE_LIMIT_REACHED" "REJECTED_BY_COORDINATOR" (read_bool) rest0
      >>= λ (rejected_by_coordinator, rest1).
          ok (DbError.rate_limit_reached op_type rejected_by_coordinator, rest1)

  unfoldable pub read_db_error : (rate_limit_error : Option ℤ) → ℤ → ReadError DbError
  unfolding read_unavailable read_write_timeout read_read_timeout read_read_failure
      read_function_failure read_write_failure read_already_exists read_unprepared
      read_rate_limit_reached
  read_db_error rate_limit_error code buf =
      if is_code code 0x0000
      then ok (DbError.server_error, buf)
      else if is_code code 0x000a
      then ok (DbError.protocol_error, buf)
      else if is_code code 0x0100
      then ok (DbError.authentication_error, buf)
      else if is_code code 0x1000
      then read_unavailable buf
      else if is_code code 0x1001
      then ok (DbError.overloaded, buf)
      else if is_code code 0x1002
      then ok (DbError.is_bootstrapping, buf)
      else if is_code code 0x1003
      then ok (DbError.truncate_error, buf)
      else if is_code code 0x1100
      then read_write_timeout buf
      else if is_code code 0x1200
      then read_read_timeout buf
      else if is_code code 0x1300
      then read_read_failure buf
      else if is_code code 0x1400
      then read_function_failure buf
      else if is_code code 0x1500
      then read_write_failure buf
      else if is_code code 0x2000
      then ok (DbError.syntax_error, buf)
      else if is_code code 0x2100
      then ok (DbError.unauthorized, buf)
      else if is_code code 0x2200
      then ok (DbError.invalid, buf)
      else if is_code code 0x2300
      then ok (DbError.config_error, buf)
      else if is_code code 0x2400
      then read_already_exists buf
      else if is_code code 0x2500
      then read_unprepared buf
      else if is_rate_limit rate_limit_error code
      then read_rate_limit_reached buf
      else ok (DbError.other code, buf)

  unfoldable pub deserialize : (rate_limit_error : Option ℤ) → ReadError Error
  unfolding read_db_error
  deserialize rate_limit_error buf =
      map_err CqlErrorParseError.error_code_parse_error (read_int w buf) >>= λ (code, rest).
      map_err CqlErrorParseError.reason_parse_error (read_string w rest) >>= λ (reason, rest').
      read_db_error rate_limit_error code rest' >>= λ (error, rest'').
      ok (record { error = error; reason = reason }, rest'')
