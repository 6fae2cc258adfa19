-- ===== src/Frame/DbError.antt =====
-- The server's errors: `DbError`, `OperationType` and `WriteType` of
-- scylla-cql/src/frame/response/error.rs. Texts are their bytes.
use scylla_rust_driver.Prelude.{ℕ, Bool, true, false, List, Option, some, if◌then◌else◌, ◌==◌}
use scylla_rust_driver.Prelude.Int.{ℤ, pos}
use scylla_rust_driver.Prelude.Bytes.{codes, bytes_eq}
use scylla_rust_driver.Frame.Consistency.{Consistency}

pub data OperationType : Type 0 where
  read write : OperationType
  other : ℕ → OperationType

pub data WriteType : Type 0 where
  simple batch unlogged_batch counter batch_log cas view cdc : WriteType
  other : List ℕ → WriteType

pub data DbError : Type 0 where
  syntax_error invalid : DbError
  already_exists : (keyspace table : List ℕ) → DbError
  function_failure : (keyspace function : List ℕ) → (arg_types : List (List ℕ)) → DbError
  authentication_error unauthorized config_error : DbError
  unavailable : (consistency : Consistency) → (required alive : ℤ) → DbError
  overloaded is_bootstrapping truncate_error : DbError
  read_timeout : Consistency → (received required : ℤ) → (data_present : Bool) → DbError
  write_timeout : Consistency → (received required : ℤ) → WriteType → DbError
  read_failure : Consistency → (received required numfailures : ℤ) → (data_present : Bool) → DbError
  write_failure : Consistency → (received required numfailures : ℤ) → WriteType → DbError
  unprepared : (statement_id : List ℕ) → DbError
  server_error protocol_error : DbError
  rate_limit_reached : OperationType → (rejected_by_coordinator : Bool) → DbError
  other : ℤ → DbError

-- `OperationType::from(u8)`.
unfoldable pub operation_type_from : ℕ → OperationType
operation_type_from b =
    if b == 0
    then OperationType.read
    else if b == 1
    then OperationType.write
    else OperationType.other b

-- `WriteType::from(&str)`.
unfoldable pub write_type_from : List ℕ → WriteType
unfolding bytes_eq
write_type_from s =
    if bytes_eq s (codes "SIMPLE")
    then WriteType.simple
    else if bytes_eq s (codes "BATCH")
    then WriteType.batch
    else if bytes_eq s (codes "UNLOGGED_BATCH")
    then WriteType.unlogged_batch
    else if bytes_eq s (codes "COUNTER")
    then WriteType.counter
    else if bytes_eq s (codes "BATCH_LOG")
    then WriteType.batch_log
    else if bytes_eq s (codes "CAS")
    then WriteType.cas
    else if bytes_eq s (codes "VIEW")
    then WriteType.view
    else if bytes_eq s (codes "CDC")
    then WriteType.cdc
    else WriteType.other s

-- `WriteType::as_str`.
unfoldable pub as_str : WriteType → List ℕ
as_str WriteType.simple = codes "SIMPLE"
as_str WriteType.batch = codes "BATCH"
as_str WriteType.unlogged_batch = codes "UNLOGGED_BATCH"
as_str WriteType.counter = codes "COUNTER"
as_str WriteType.batch_log = codes "BATCH_LOG"
as_str WriteType.cas = codes "CAS"
as_str WriteType.view = codes "VIEW"
as_str WriteType.cdc = codes "CDC"
as_str (WriteType.other s) = s

-- `DbError::code`, given the negotiated `ProtocolFeatures::rate_limit_error`. `none` is the panic
-- of `unwrap` on a rate limit error that was not negotiated.
unfoldable pub db_error_code : DbError → Option ℤ → Option ℤ
db_error_code DbError.server_error rate_limit = some (pos 0x0000)
db_error_code DbError.protocol_error rate_limit = some (pos 0x000a)
db_error_code DbError.authentication_error rate_limit = some (pos 0x0100)
db_error_code (DbError.unavailable _ _ _) rate_limit = some (pos 0x1000)
db_error_code DbError.overloaded rate_limit = some (pos 0x1001)
db_error_code DbError.is_bootstrapping rate_limit = some (pos 0x1002)
db_error_code DbError.truncate_error rate_limit = some (pos 0x1003)
db_error_code (DbError.write_timeout _ _ _ _) rate_limit = some (pos 0x1100)
db_error_code (DbError.read_timeout _ _ _ _) rate_limit = some (pos 0x1200)
db_error_code (DbError.read_failure _ _ _ _ _) rate_limit = some (pos 0x1300)
db_error_code (DbError.function_failure _ _ _) rate_limit = some (pos 0x1400)
db_error_code (DbError.write_failure _ _ _ _ _) rate_limit = some (pos 0x1500)
db_error_code DbError.syntax_error rate_limit = some (pos 0x2000)
db_error_code DbError.unauthorized rate_limit = some (pos 0x2100)
db_error_code DbError.invalid rate_limit = some (pos 0x2200)
db_error_code DbError.config_error rate_limit = some (pos 0x2300)
db_error_code (DbError.already_exists _ _) rate_limit = some (pos 0x2400)
db_error_code (DbError.unprepared _) rate_limit = some (pos 0x2500)
db_error_code (DbError.other code) rate_limit = some code
db_error_code (DbError.rate_limit_reached _ _) rate_limit = rate_limit

-- `DbError::can_speculative_retry`.
unfoldable pub can_speculative_retry : DbError → Bool
can_speculative_retry DbError.syntax_error = false
can_speculative_retry DbError.invalid = false
can_speculative_retry (DbError.already_exists _ _) = false
can_speculative_retry DbError.unauthorized = false
can_speculative_retry DbError.protocol_error = false
can_speculative_retry DbError.authentication_error = false
can_speculative_retry (DbError.other _) = false
can_speculative_retry (DbError.function_failure _ _ _) = false
can_speculative_retry DbError.config_error = false
can_speculative_retry DbError.truncate_error = false
can_speculative_retry (DbError.unavailable _ _ _) = true
can_speculative_retry DbError.overloaded = true
can_speculative_retry DbError.is_bootstrapping = true
can_speculative_retry (DbError.read_timeout _ _ _ _) = true
can_speculative_retry (DbError.write_timeout _ _ _ _) = true
can_speculative_retry (DbError.read_failure _ _ _ _ _) = true
can_speculative_retry (DbError.write_failure _ _ _ _ _) = true
can_speculative_retry (DbError.unprepared _) = true
can_speculative_retry DbError.server_error = true
can_speculative_retry (DbError.rate_limit_reached _ _) = true
