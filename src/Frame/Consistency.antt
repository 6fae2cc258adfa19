-- ===== src/Frame/Consistency.antt =====
-- The consistency levels of scylla-cql/src/frame/types.rs and their numbers on the wire.
use scylla_rust_driver.Prelude.{ℕ, Bool, true, false, ◌==◌, if◌then◌else◌, Result, ok, err}

pub data Consistency : Type 0 where
  any one two three quorum all local_quorum each_quorum local_one serial local_serial : Consistency

pub data SerialConsistency : Type 0 where
  serial local_serial : SerialConsistency

-- `enum_name` is a constant of each conversion and is left out.
pub record TryFromPrimitiveError : Type 0 where
  pub primitive : ℕ

-- `c as u16`: the discriminants that the enum declares.
unfoldable pub as_u16 : Consistency → ℕ
as_u16 Consistency.any = 0x0000
as_u16 Consistency.one = 0x0001
as_u16 Consistency.two = 0x0002
as_u16 Consistency.three = 0x0003
as_u16 Consistency.quorum = 0x0004
as_u16 Consistency.all = 0x0005
as_u16 Consistency.local_quorum = 0x0006
as_u16 Consistency.each_quorum = 0x0007
as_u16 Consistency.local_one = 0x000a
as_u16 Consistency.serial = 0x0008
as_u16 Consistency.local_serial = 0x0009

unfoldable pub serial_as_u16 : SerialConsistency → ℕ
serial_as_u16 SerialConsistency.serial = 0x0008
serial_as_u16 SerialConsistency.local_serial = 0x0009

-- `Consistency::try_from(u16)`.
unfoldable pub consistency_try_from : ℕ → Result TryFromPrimitiveError Consistency
consistency_try_from value =
    if value == 0x0000
    then ok Consistency.any
    else if value == 0x0001
    then ok Consistency.one
    else if value == 0x0002
    then ok Consistency.two
    else if value == 0x0003
    then ok Consistency.three
    else if value == 0x0004
    then ok Consistency.quorum
    else if value == 0x0005
    then ok Consistency.all
    else if value == 0x0006
    then ok Consistency.local_quorum
    else if value == 0x0007
    then ok Consistency.each_quorum
    else if value == 0x000a
    then ok Consistency.local_one
    else if value == 0x0008
    then ok Consistency.serial
    else if value == 0x0009
    then ok Consistency.local_serial
    else err (record { primitive = value })

-- `SerialConsistency::try_from(i16)`; every value but the two is refused, negative ones too.
unfoldable pub serial_try_from : ℕ → Result TryFromPrimitiveError SerialConsistency
serial_try_from value =
    if value == 0x0008
    then ok SerialConsistency.serial
    else if value == 0x0009
    then ok SerialConsistency.local_serial
    else err (record { primitive = value })

unfoldable pub is_serial : Consistency → Bool
is_serial Consistency.serial = true
is_serial Consistency.local_serial = true
is_serial _ = false

-- `SerialConsistency::try_from(Consistency)`; the error carries the level.
unfoldable pub to_serial : Consistency → Result Consistency SerialConsistency
to_serial Consistency.serial = ok SerialConsistency.serial
to_serial Consistency.local_serial = ok SerialConsistency.local_serial
to_serial c = err c
