-- ===== src/Frame/Wire/Lengths.antt =====
-- What the crates promise of big-endian integers, and bytes behind their length.
use scylla_rust_driver.Prelude.{
  ℕ, ◌^◌, ◌<◌, ◌≡◌, refl, false, some, List, [], ◌∷◌, ◌++◌, ltb, lt→ltb, le→ltb, length, ok, err,
  arith, length-append, take-length_append, drop-length_append,
}
use scylla_rust_driver.Prelude.Int.{ℤ, pos, negsuc}
use mathlib.Core.Path.{ap}
use scylla_rust_driver.Frame.Wire

-- The numbers of `i32`.
abbrev pub IsI32 : ℤ → Type 0
IsI32 (pos n) = n < 2 ^ 31
IsI32 (negsuc n) = n < 2 ^ 31

-- A reader gives back what the writer of its type wrote, and leaves the bytes behind it.
pub record IsBigEndian (w : Wire.BigEndian) : Type 0 where
  pub byte :
      (b : ℕ) → b < 2 ^ 8 → (rest : List ℕ) → w.get_byte (w.put_byte b ++ rest) ≡ some (b, rest)
  pub short :
      (n : ℕ) → n < 2 ^ 16 → (rest : List ℕ) → w.get_short (w.put_short n ++ rest) ≡ some (n, rest)
  pub int : (v : ℤ) → IsI32 v → (rest : List ℕ) → w.get_int (w.put_int v ++ rest) ≡ some (v, rest)

-- A writer does not fail, and the reader gives back what it wrote and leaves the bytes behind it.
abbrev pub RoundTrips : {A : Type 0} → Wire.Written → (List ℕ → Wire.Read A) → A → Type 0
RoundTrips written read v =
    (bytes : List ℕ) × (written ≡ ok bytes)
    × ((rest : List ℕ) → read (bytes ++ rest) ≡ ok (v, rest))

pub read_raw_bytes-append :
    (v rest : List ℕ) → Wire.read_raw_bytes (length v) (v ++ rest) ≡ ok (v, rest)
unfolding Wire.read_raw_bytes
read_raw_bytes-append v rest =
    let enough : ltb (length (v ++ rest)) (length v) ≡ false =
      le→ltb (length (v ++ rest)) (length v) (omega (arith, length-append v rest)) in
    rw (enough, take-length_append v rest, drop-length_append v rest) refl

-- With fewer bytes left than asked for, the reader says how many there are.
pub read_raw_bytes_short :
    (count : ℕ) (buf : List ℕ)
    → length buf < count
    → Wire.read_raw_bytes count buf
      ≡ err (Wire.LowLevelDeserializationError.too_few_bytes_received count (length buf))
unfolding Wire.read_raw_bytes
read_raw_bytes_short count buf h = rw (lt→ltb (length buf) count h) refl

pub append_assoc : (a b c : List ℕ) → (a ++ b) ++ c ≡ a ++ (b ++ c)
append_assoc [] b c = refl
append_assoc (x ∷ a) b c = ap (λ l. x ∷ l) (append_assoc a b c)

module _ (w : Wire.BigEndian) (b : IsBigEndian w) where
  pub write_short_length-RoundTrips :
      (n : ℕ) → n < 2 ^ 16 → RoundTrips (Wire.write_short_length w n) (Wire.read_short_length w) n
  unfolding Wire.write_short_length Wire.read_short_length Wire.write_short Wire.read_short
      Wire.to_u16
  write_short_length-RoundTrips n h =
      (w.put_short n, rw (lt→ltb n (2 ^ 16) h) refl, λ rest. rw (b.short n h rest) refl)

  pub write_int_length-RoundTrips :
      (n : ℕ) → n < 2 ^ 31 → RoundTrips (Wire.write_int_length w n) (Wire.read_int_length w) n
  unfolding Wire.write_int_length Wire.read_int_length Wire.write_int Wire.read_int Wire.to_i32
      Wire.to_usize
  write_int_length-RoundTrips n h =
      (w.put_int (pos n), rw (lt→ltb n (2 ^ 31) h) refl, λ rest. rw (b.int (pos n) h rest) refl)
