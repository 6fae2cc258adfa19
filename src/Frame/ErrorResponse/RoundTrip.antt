-- ===== src/Frame/ErrorResponse/RoundTrip.antt =====
-- An encoded error is read back.
use mathlib.Core.Path.{◌∙◌}
use scylla_rust_driver.Prelude.{
  ℕ, ◌<◌, ◌^◌, ◌≡◌, refl, Bool, true, false, Option, none, some, List, [], ◌++◌, ◌==◌,
  if◌then◌else◌, length, All, ==_refl, ok, arith,
}
use scylla_rust_driver.Prelude.Int.{ℤ, pos, negsuc}
use scylla_rust_driver.Frame.Consistency.{Consistency}
use scylla_rust_driver.Frame.DbError.{
  DbError, OperationType, WriteType, operation_type_from, write_type_from, as_str, db_error_code,
}
use scylla_rust_driver.Frame.Wire
use scylla_rust_driver.Frame.Wire.Lengths.{IsI32, IsBigEndian, RoundTrips, append_assoc}
use scylla_rust_driver.Frame.Wire.Strings.{
  IsShortText, write_short_bytes-RoundTrips, write_string-RoundTrips, write_string_list-RoundTrips,
  write_consistency-read_consistency,
}
use scylla_rust_driver.Frame.ErrorResponse
use scylla_rust_driver.Frame.ErrorResponse.Encoding.{
  bool_byte, operation_byte, IsWireWriteType, IsWireOperationType, IsWireError, IsUnknownCode,
  encode_fields, encode, or_zero,
}

known_write_type :
    (t : WriteType) → IsWireWriteType t → IsShortText (as_str t) × (write_type_from (as_str t) ≡ t)
unfolding as_str write_type_from Wire.scan_utf8
known_write_type (WriteType.other s) h = h
known_write_type _ h = ((refl, omega arith), refl)

module _ (w : Wire.BigEndian) (b : IsBigEndian w) where
  int_back :
      (v : ℤ)
      → IsI32 v
      → (rest : List ℕ) → Wire.read_int w (Wire.write_int w v ++ rest) ≡ ok (v, rest)
  unfolding Wire.read_int Wire.write_int
  int_back v h rest = simp (b.int v h rest)

  bool_back :
      (v : Bool) (rest : List ℕ)
      → ErrorResponse.read_bool w (w.put_byte (bool_byte v) ++ rest) ≡ ok (v, rest)
  unfolding ErrorResponse.read_bool
  bool_back true rest = simp (b.byte 1 (omega arith) rest)
  bool_back false rest = simp (b.byte 0 (omega arith) rest)

  operation_back :
      (t : OperationType) (rest : List ℕ)
      → IsWireOperationType t
      → ErrorResponse.read_operation_type w (w.put_byte (operation_byte t) ++ rest) ≡ ok (t, rest)
  unfolding ErrorResponse.read_operation_type operation_type_from
  operation_back OperationType.read rest h = simp (b.byte 0 (omega arith) rest)
  operation_back OperationType.write rest h = simp (b.byte 1 (omega arith) rest)
  operation_back (OperationType.other n) rest h =
      let not_read : (n == 0) ≡ false = ground (arith, h.0) in
      let not_write : (n == 1) ≡ false = ground (arith, h.0) in
      simp (b.byte n h.1 rest, not_read, not_write)

  write_type_back :
      (t : WriteType)
      → IsWireWriteType t
      → RoundTrips (Wire.write_string w (as_str t)) (ErrorResponse.read_write_type w) t
  unfolding ErrorResponse.read_write_type
  write_type_back t h =
      let (short, same) = known_write_type t h in
      let (bytes, e, back) = write_string-RoundTrips w b (as_str t) short in
      (bytes, e, λ rest. simp (back rest, same))

  -- A code that the driver does not know is the rate limit's, or another.
  unknown_code :
      (rate_limit : Option ℤ) (code : ℤ) (buf : List ℕ)
      → IsUnknownCode code
      → ErrorResponse.read_db_error w rate_limit code buf ≡ (
          if ErrorResponse.is_rate_limit rate_limit code
          then ErrorResponse.read_rate_limit_reached w buf
          else ok (DbError.other code, buf))
  unfolding ErrorResponse.read_db_error
  unknown_code rate_limit (negsuc n) buf h = refl
  unknown_code rate_limit (pos n) buf
        (
          i,
          (
            h0,
            (
              h1,
              (
                h2,
                (
                  h3,
                  (
                    h4,
                    (
                      h5,
                      (
                        h6,
                        (h7, (h8, (h9, (h10, (h11, (h12, (h13, (h14, (h15, (h16, (h17, _))))))))))),
                      ),
                    ),
                  ),
                ),
              ),
            ),
          ),
        ) =
      simp (h0, h1, h2, h3, h4, h5, h6, h7, h8, h9, h10, h11, h12, h13, h14, h15, h16, h17)

  -- The fields are encoded, and read back behind the code of the error.
  abbrev FieldsBack : Option ℤ → DbError → Type 0
  FieldsBack rate_limit e =
      (fields : List ℕ) × (encode_fields w e ≡ ok fields)
      × ((rest : List ℕ)
          → ErrorResponse.read_db_error w rate_limit (or_zero (db_error_code e rate_limit))
              (fields ++ rest)
            ≡ ok (e, rest))

  eqb_refl : (v : ℤ) → ErrorResponse.eqb_ℤ v v ≡ true
  eqb_refl (pos n) = ==_refl n
  eqb_refl (negsuc n) = ==_refl n

  rate_limit_back :
      (code : ℤ) (t : OperationType) (v : Bool)
      → IsUnknownCode code
      → IsWireOperationType t
      → FieldsBack (some code) (DbError.rate_limit_reached t v)
  unfolding ErrorResponse.read_rate_limit_reached ErrorResponse.field encode_fields db_error_code
  rate_limit_back code t v h k = (
    w.put_byte (operation_byte t) ++ w.put_byte (bool_byte v),
    refl,
    λ rest.
        unknown_code (some code) code
          ((w.put_byte (operation_byte t) ++ w.put_byte (bool_byte v)) ++ rest) h
        ∙ simp (
          eqb_refl code,
          append_assoc,
          operation_back t (w.put_byte (bool_byte v) ++ rest) k,
          bool_back v,
        ),
  )

  write_timeout_back :
      (rate_limit : Option ℤ) (c : Consistency) (received required : ℤ) (t : WriteType)
      → IsI32 received
      → IsI32 required
      → IsWireWriteType t
      → FieldsBack rate_limit (DbError.write_timeout c received required t)
  unfolding ErrorResponse.read_db_error ErrorResponse.read_write_timeout ErrorResponse.field
      encode_fields db_error_code
  write_timeout_back rate_limit c received required t h k l =
      let (bytes, e, back) = write_type_back t l in
      (
        Wire.write_consistency w c
            ++ (Wire.write_int w received ++ (Wire.write_int w required ++ bytes)),
        rw e refl,
        λ rest. simp (
          append_assoc,
          write_consistency-read_consistency w b c,
          int_back received h,
          int_back required k,
          back,
        ),
      )

  write_failure_back :
      (rate_limit : Option ℤ) (c : Consistency) (received required numfailures : ℤ) (t : WriteType)
      → IsI32 received
      → IsI32 required
      → IsI32 numfailures
      → IsWireWriteType t
      → FieldsBack rate_limit (DbError.write_failure c received required numfailures t)
  unfolding ErrorResponse.read_db_error ErrorResponse.read_write_failure ErrorResponse.field
      encode_fields db_error_code
  write_failure_back rate_limit c received required numfailures t h k n l =
      let (bytes, e, back) = write_type_back t l in
      (
        Wire.write_consistency w c
            ++ (Wire.write_int w received
                ++ (Wire.write_int w required ++ (Wire.write_int w numfailures ++ bytes))),
        rw e refl,
        λ rest. simp (
          append_assoc,
          write_consistency-read_consistency w b c,
          int_back received h,
          int_back required k,
          int_back numfailures n,
          back,
        ),
      )

  function_failure_back :
      (rate_limit : Option ℤ) (keyspace function : List ℕ) (arg_types : List (List ℕ))
      → IsShortText keyspace
      → IsShortText function
      → All IsShortText arg_types
      → length arg_types < 2 ^ 16
      → FieldsBack rate_limit (DbError.function_failure keyspace function arg_types)
  unfolding ErrorResponse.read_db_error ErrorResponse.read_function_failure ErrorResponse.field
      encode_fields db_error_code
  function_failure_back rate_limit keyspace function arg_types h k l n =
      let (bytes, e, back) = write_string-RoundTrips w b keyspace h in
      let (bytes', e', back') = write_string-RoundTrips w b function k in
      let (bytes'', e'', back'') = write_string_list-RoundTrips w b arg_types l n in
      (
        bytes ++ (bytes' ++ bytes''),
        rw (e, e', e'') refl,
        λ rest. simp (append_assoc, back, back', back''),
      )

  already_exists_back :
      (rate_limit : Option ℤ) (keyspace table : List ℕ)
      → IsShortText keyspace
      → IsShortText table
      → FieldsBack rate_limit (DbError.already_exists keyspace table)
  unfolding ErrorResponse.read_db_error ErrorResponse.read_already_exists ErrorResponse.field
      encode_fields db_error_code
  already_exists_back rate_limit keyspace table h k =
      let (bytes, e, back) = write_string-RoundTrips w b keyspace h in
      let (bytes', e', back') = write_string-RoundTrips w b table k in
      (bytes ++ bytes', rw (e, e') refl, λ rest. simp (append_assoc, back, back'))

  unprepared_back :
      (rate_limit : Option ℤ) (statement_id : List ℕ)
      → length statement_id < 2 ^ 16
      → FieldsBack rate_limit (DbError.unprepared statement_id)
  unfolding ErrorResponse.read_db_error ErrorResponse.read_unprepared ErrorResponse.field
      encode_fields db_error_code
  unprepared_back rate_limit statement_id h =
      let (bytes, e, back) = write_short_bytes-RoundTrips w b statement_id h in
      (bytes, e, λ rest. simp (back rest))

  fields_back :
      (rate_limit : Option ℤ) (e : DbError) → IsWireError rate_limit e → FieldsBack rate_limit e
  unfolding ErrorResponse.read_db_error ErrorResponse.read_unavailable
      ErrorResponse.read_read_timeout ErrorResponse.read_read_failure ErrorResponse.field
      encode_fields db_error_code
  fields_back rate_limit (DbError.unavailable c required alive) (h, k) = (
    Wire.write_consistency w c ++ (Wire.write_int w required ++ Wire.write_int w alive),
    refl,
    λ rest. simp (
      append_assoc,
      write_consistency-read_consistency w b c,
      int_back required h,
      int_back alive k,
    ),
  )
  fields_back rate_limit (DbError.write_timeout c received required t) (h, k, l) =
      write_timeout_back rate_limit c received required t h k l
  fields_back rate_limit (DbError.read_timeout c received required v) (h, k) = (
    Wire.write_consistency w c
        ++ (Wire.write_int w received ++ (Wire.write_int w required ++ w.put_byte (bool_byte v))),
    refl,
    λ rest. simp (
      append_assoc,
      write_consistency-read_consistency w b c,
      int_back received h,
      int_back required k,
      bool_back v,
    ),
  )
  fields_back rate_limit (DbError.read_failure c received required numfailures v) (h, k, n) = (
    Wire.write_consistency w c
        ++ (Wire.write_int w received
            ++ (Wire.write_int w required
                ++ (Wire.write_int w numfailures ++ w.put_byte (bool_byte v)))),
    refl,
    λ rest. simp (
      append_assoc,
      write_consistency-read_consistency w b c,
      int_back received h,
      int_back required k,
      int_back numfailures n,
      bool_back v,
    ),
  )
  fields_back rate_limit (DbError.write_failure c received required numfailures t) (h, k, n, l) =
      write_failure_back rate_limit c received required numfailures t h k n l
  fields_back rate_limit (DbError.function_failure keyspace function arg_types) (h, k, l, n) =
      function_failure_back rate_limit keyspace function arg_types h k l n
  fields_back rate_limit (DbError.already_exists keyspace table) (h, k) =
      already_exists_back rate_limit keyspace table h k
  fields_back rate_limit (DbError.unprepared statement_id) h =
      unprepared_back rate_limit statement_id h
  fields_back none (DbError.rate_limit_reached t v) h = absurd h.0
  fields_back (some code) (DbError.rate_limit_reached t v) (h, k) = rate_limit_back code t v h k
  fields_back rate_limit (DbError.other code) (h, k) =
      ([], refl, λ rest. unknown_code rate_limit code rest h ∙ simp k)
  fields_back rate_limit _ h = ([], refl, λ rest. refl)

  code_IsI32 :
      (rate_limit : Option ℤ) (e : DbError)
      → IsWireError rate_limit e
      → IsI32 (or_zero (db_error_code e rate_limit))
  unfolding db_error_code
  code_IsI32 none (DbError.rate_limit_reached t v) h = absurd h.0
  code_IsI32 (some code) (DbError.rate_limit_reached t v) h = h.0.0
  code_IsI32 rate_limit (DbError.other code) h = h.0.0
  code_IsI32 rate_limit _ h = omega arith

  -- An error whose fields fit their types, with a reason that does, is encoded with the code that
  -- `DbError::code` gives, and `deserialize` gives it back and leaves the bytes behind it. A rate
  -- limit error wants a negotiated code, and neither that nor the code of an unknown error is one of
  -- the known codes.
  pub encode-deserialize :
      (rate_limit : Option ℤ) (e : ErrorResponse.Error)
      → IsWireError rate_limit e.error
      → IsShortText e.reason
      → (bytes : List ℕ) × (encode w rate_limit e ≡ ok bytes)
        × ((rest : List ℕ) → ErrorResponse.deserialize w rate_limit (bytes ++ rest) ≡ ok (e, rest))
  unfolding ErrorResponse.deserialize encode
  encode-deserialize rate_limit e h k =
      let code : ℤ = or_zero (db_error_code e.error rate_limit) in
      let (reason, r, reason_back) = write_string-RoundTrips w b e.reason k in
      let (fields, f, back) = fields_back rate_limit e.error h in
      (
        Wire.write_int w code ++ (reason ++ fields),
        rw (r, f) refl,
        λ rest.
            simp (append_assoc, int_back code (code_IsI32 rate_limit e.error h), reason_back, back),
      )
