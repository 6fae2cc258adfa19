-- ===== src/Frame/Wire/Strings.antt =====
-- The round trips of bytes, texts and lists of texts.
use scylla_rust_driver.Prelude.{
  ℕ, ◌^◌, ◌<◌, ◌≡◌, refl, true, Option, none, some, List, [], ◌∷◌, ◌++◌, lt→ltb, length, ok, arith,
  All,
}
use scylla_rust_driver.Prelude.Int.{pos, negsuc}
use scylla_rust_driver.Frame.Consistency.{Consistency, consistency_try_from, as_u16}
use scylla_rust_driver.Frame.Wire
use scylla_rust_driver.Frame.Wire.Lengths.{
  IsBigEndian, RoundTrips, read_raw_bytes-append, append_assoc, write_short_length-RoundTrips,
  write_int_length-RoundTrips,
}

-- A text whose length fits the two bytes before it.
abbrev pub IsShortText : List ℕ → Type 0
IsShortText v = (Wire.is_utf8 v ≡ true) × (length v < 2 ^ 16)

abbrev pub opt_value : Option (List ℕ) → Wire.RawValue
opt_value none = Wire.RawValue.null
opt_value (some v) = Wire.RawValue.value v

abbrev pub FitsInt : Option (List ℕ) → Type 0
FitsInt none = Unit
FitsInt (some v) = length v < 2 ^ 31

module _ (w : Wire.BigEndian) (b : IsBigEndian w) where
  -- Bytes shorter than 2^31 are written without an error and read back.
  pub write_bytes-RoundTrips :
      (v : List ℕ) → length v < 2 ^ 31 → RoundTrips (Wire.write_bytes w v) (Wire.read_bytes w) v
  unfolding Wire.write_bytes Wire.read_bytes
  write_bytes-RoundTrips v h =
      let (len, e, back) = write_int_length-RoundTrips w b (length v) h in
      (
        len ++ v,
        rw e refl,
        λ rest. rw (append_assoc len v rest, back (v ++ rest)) (read_raw_bytes-append v rest),
      )

  pub write_short_bytes-RoundTrips :
      (v : List ℕ)
      → length v < 2 ^ 16
      → RoundTrips (Wire.write_short_bytes w v) (Wire.read_short_bytes w) v
  unfolding Wire.write_short_bytes Wire.read_short_bytes
  write_short_bytes-RoundTrips v h =
      let (len, e, back) = write_short_length-RoundTrips w b (length v) h in
      (
        len ++ v,
        rw e refl,
        λ rest. rw (append_assoc len v rest, back (v ++ rest)) (read_raw_bytes-append v rest),
      )

  -- A text shorter than 2^16 is written without an error and read back.
  pub write_string-RoundTrips :
      (v : List ℕ) → IsShortText v → RoundTrips (Wire.write_string w v) (Wire.read_string w) v
  unfolding Wire.write_string Wire.read_string Wire.from_utf8
  write_string-RoundTrips v (u, h) =
      let (len, e, back) = write_short_length-RoundTrips w b (length v) h in
      (
        len ++ v,
        rw e refl,
        λ rest. simp (append_assoc len v rest, back (v ++ rest), read_raw_bytes-append v rest, u),
      )

  -- The same for a text whose length takes four bytes.
  pub write_long_string-RoundTrips :
      (v : List ℕ)
      → Wire.is_utf8 v ≡ true
      → length v < 2 ^ 31
      → RoundTrips (Wire.write_long_string w v) (Wire.read_long_string w) v
  unfolding Wire.write_long_string Wire.read_long_string Wire.from_utf8
  write_long_string-RoundTrips v u h =
      let (len, e, back) = write_int_length-RoundTrips w b (length v) h in
      (
        len ++ v,
        rw e refl,
        λ rest. simp (append_assoc len v rest, back (v ++ rest), read_raw_bytes-append v rest, u),
      )

  write_strings-RoundTrips :
      (vs : List (List ℕ))
      → All IsShortText vs
      → RoundTrips (Wire.write_strings w vs) (Wire.read_strings w (length vs)) vs
  unfolding Wire.write_strings Wire.read_strings
  write_strings-RoundTrips [] h = ([], refl, λ rest. refl)
  write_strings-RoundTrips (v ∷ vs) h =
      let (first, e, back) = write_string-RoundTrips v h.0 in
      let (others, f, again) = write_strings-RoundTrips vs h.1 in
      (
        first ++ others,
        rw (e, f) refl,
        λ rest. simp (append_assoc first others rest, back (others ++ rest), again rest),
      )

  -- A list of fewer than 2^16 texts, each shorter than 2^16, is written without an error and read
  -- back.
  pub write_string_list-RoundTrips :
      (vs : List (List ℕ))
      → All IsShortText vs
      → length vs < 2 ^ 16
      → RoundTrips (Wire.write_string_list w vs) (Wire.read_string_list w) vs
  unfolding Wire.write_string_list Wire.read_string_list
  write_string_list-RoundTrips vs t h =
      let (len, e, back) = write_short_length-RoundTrips w b (length vs) h in
      let (strings, f, again) = write_strings-RoundTrips vs t in
      (
        len ++ strings,
        rw (e, f) refl,
        λ rest. simp (append_assoc len strings rest, back (strings ++ rest), again rest),
      )

  -- Bytes that may be missing are written without an error, if there are fewer than 2^31, and are
  -- read back as bytes that may be missing and as a value, where missing bytes are the null value.
  pub write_bytes_opt-RoundTrips :
      (v : Option (List ℕ))
      → FitsInt v
      → RoundTrips (Wire.write_bytes_opt w v) (Wire.read_bytes_opt w) v
        × RoundTrips (Wire.write_bytes_opt w v) (Wire.read_value w) (opt_value v)
  unfolding Wire.write_bytes_opt Wire.read_bytes_opt Wire.read_value Wire.read_int Wire.write_int
      Wire.write_int_length Wire.to_i32
  write_bytes_opt-RoundTrips none h = (
    (w.put_int (negsuc 0), refl, λ rest. rw (b.int (negsuc 0) (omega arith) rest) refl),
    (w.put_int (negsuc 0), refl, λ rest. rw (b.int (negsuc 0) (omega arith) rest) refl),
  )
  write_bytes_opt-RoundTrips (some v) h =
      let len = w.put_int (pos (length v)) in
      let written : Wire.write_int_length w (length v) ≡ ok len =
        rw (lt→ltb (length v) (2 ^ 31) h) refl in
      let back = λ (rest : List ℕ). b.int (pos (length v)) h (v ++ rest) in
      (
        (
          len ++ v,
          rw written refl,
          λ rest. simp (append_assoc len v rest, back rest, read_raw_bytes-append v rest),
        ),
        (
          len ++ v,
          rw written refl,
          λ rest. simp (append_assoc len v rest, back rest, read_raw_bytes-append v rest),
        ),
      )

  small : (c : Consistency) → as_u16 c < 2 ^ 16
  unfolding as_u16
  small c = ground arith

  parsed : (c : Consistency) → consistency_try_from (as_u16 c) ≡ ok c
  unfolding as_u16 consistency_try_from
  parsed c = ground arith

  -- A consistency level is read back.
  pub write_consistency-read_consistency :
      (c : Consistency) (rest : List ℕ)
      → Wire.read_consistency w (Wire.write_consistency w c ++ rest) ≡ ok (c, rest)
  unfolding Wire.read_consistency Wire.write_consistency Wire.read_short Wire.write_short
  write_consistency-read_consistency c rest = simp (b.short (as_u16 c) (small c) rest, parsed c)
