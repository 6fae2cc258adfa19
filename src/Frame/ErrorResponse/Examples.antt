-- ===== src/Frame/ErrorResponse/Examples.antt =====
-- The round trip of an error at a concrete one.
use scylla_rust_driver.Prelude.{ℕ, ◌≡◌, refl, none, List, ◌++◌, ok, arith}
use scylla_rust_driver.Prelude.Int.{pos}
use scylla_rust_driver.Prelude.Bytes.{codes}
use scylla_rust_driver.Frame.Consistency.{Consistency}
use scylla_rust_driver.Frame.DbError.{DbError, WriteType}
use scylla_rust_driver.Frame.Wire.{scan_utf8}
use scylla_rust_driver.Frame.Wire.Examples.{network_order, network_order-IsBigEndian}
use scylla_rust_driver.Frame.ErrorResponse.{Error, deserialize}
use scylla_rust_driver.Frame.ErrorResponse.Encoding.{encode}
use scylla_rust_driver.Frame.ErrorResponse.RoundTrip.{encode-deserialize}

abbrev timed_out : Error
timed_out = record {
  error = DbError.write_timeout Consistency.quorum (pos 1) (pos 2) WriteType.batch_log;
  reason = codes "Operation timed out";
}

encode-deserialize_example :
    (bytes : List ℕ) × (encode network_order none timed_out ≡ ok bytes)
    × ((rest : List ℕ) → deserialize network_order none (bytes ++ rest) ≡ ok (timed_out, rest))
unfolding scan_utf8
encode-deserialize_example =
    encode-deserialize network_order network_order-IsBigEndian none timed_out
      (omega arith, omega arith, tt) (refl, omega arith)
