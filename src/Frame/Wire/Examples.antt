-- ===== src/Frame/Wire/Examples.antt =====
-- The round trips at concrete inputs, on big-endian integers written out.
use scylla_rust_driver.Prelude.{
  ℕ, ◌+◌, ◌-◌, ◌*◌, ◌/◌, ◌%◌, ◌^◌, ◌≡◌, inl, refl, false, Option, none, some, List, [], ◌∷◌, ◌++◌,
  if◌then◌else◌, ltb, ok, arith,
}
use scylla_rust_driver.Prelude.Int.{ℤ, pos, negsuc}
use scylla_rust_driver.Prelude.Bytes.{codes}
use scylla_rust_driver.Frame.Wire
use scylla_rust_driver.Frame.Wire.Lengths.{IsI32, IsBigEndian, RoundTrips}
use scylla_rust_driver.Frame.Wire.Strings.{
  opt_value, write_string_list-RoundTrips, write_bytes_opt-RoundTrips,
}
use scylla_rust_driver.Frame.Wire.Inet.{
  SocketAddr, ip, new_socket_addr, read_inet, write_inet, write_inet-read_inet, read_inet_short,
}

abbrev bytes4 : ℕ → List ℕ
bytes4 n = n / 2 ^ 24 ∷ n / 2 ^ 16 % 256 ∷ n / 256 % 256 ∷ n % 256 ∷ []

abbrev number4 : (a b c d : ℕ) → ℕ
number4 a b c d = a * 2 ^ 24 + b * 2 ^ 16 + c * 256 + d

abbrev signed : ℕ → ℕ → ℤ
signed half n = if ltb n half then pos n else negsuc (half + half - 1 - n)

abbrev unsigned : ℕ → ℤ → ℕ
unsigned half (pos n) = n
unsigned half (negsuc n) = half + half - 1 - n

abbrev get_byte : List ℕ → Option (ℕ × List ℕ)
get_byte (a ∷ rest) = some (a, rest)
get_byte _ = none

abbrev get_short : List ℕ → Option (ℕ × List ℕ)
get_short (a ∷ b ∷ rest) = some (a * 256 + b, rest)
get_short _ = none

abbrev get_int : List ℕ → Option (ℤ × List ℕ)
get_int (a ∷ b ∷ c ∷ d ∷ rest) = some (signed (2 ^ 31) (number4 a b c d), rest)
get_int _ = none

abbrev get_long : List ℕ → Option (ℤ × List ℕ)
get_long (a ∷ b ∷ c ∷ d ∷ e ∷ f ∷ g ∷ h ∷ rest) =
    some (signed (2 ^ 63) (number4 a b c d * 2 ^ 32 + number4 e f g h), rest)
get_long _ = none

abbrev pub network_order : Wire.BigEndian
network_order = record {
  get_byte = get_byte;
  get_short = get_short;
  get_int = get_int;
  get_long = get_long;
  put_byte = λ b. b ∷ [];
  put_short = λ n. n / 256 ∷ n % 256 ∷ [];
  put_int = λ v. bytes4 (unsigned (2 ^ 31) v);
  put_long = λ v. bytes4 (unsigned (2 ^ 63) v / 2 ^ 32) ++ bytes4 (unsigned (2 ^ 63) v % 2 ^ 32);
}

number4_bytes4 : (n : ℕ) → number4 (n / 2 ^ 24) (n / 2 ^ 16 % 256) (n / 256 % 256) (n % 256) ≡ n
number4_bytes4 n = omega arith

signed-unsigned : (v : ℤ) → IsI32 v → signed (2 ^ 31) (unsigned (2 ^ 31) v) ≡ v
signed-unsigned (pos n) h = ground arith
signed-unsigned (negsuc n) h = ground arith

short_back : (n : ℕ) (rest : List ℕ) → get_short (n / 256 ∷ n % 256 ∷ rest) ≡ some (n, rest)
short_back n rest = let e : n / 256 * 256 + n % 256 ≡ n = omega arith in rw e refl

int_back :
    (v : ℤ)
    → IsI32 v
    → (rest : List ℕ) → get_int (bytes4 (unsigned (2 ^ 31) v) ++ rest) ≡ some (v, rest)
int_back v h rest = rw (number4_bytes4 (unsigned (2 ^ 31) v), signed-unsigned v h) refl

pub network_order-IsBigEndian : IsBigEndian network_order
network_order-IsBigEndian = record {
  byte = λ b h rest. refl;
  short = λ n h rest. short_back n rest;
  int = int_back;
}

abbrev versions : List (List ℕ)
versions = codes "3.0.0" ∷ codes "" ∷ codes "4.2.0" ∷ []

write_string_list-RoundTrips_example :
    RoundTrips
      (Wire.write_string_list network_order versions)
      (Wire.read_string_list network_order)
      versions
unfolding Wire.scan_utf8
write_string_list-RoundTrips_example =
    write_string_list-RoundTrips network_order network_order-IsBigEndian versions
      ((refl, omega arith), ((refl, omega arith), ((refl, omega arith), tt))) (omega arith)

-- A text with letters of two, three and four bytes.
abbrev mixed : List ℕ
mixed = 0xc3 ∷ 0xa9 ∷ 0xe2 ∷ 0x82 ∷ 0xac ∷ 0xf0 ∷ 0x9f ∷ 0x98 ∷ 0x80 ∷ []

-- A surrogate is refused.
surrogate_refused : Wire.is_utf8 (0xed ∷ 0xa0 ∷ 0x80 ∷ []) ≡ false
unfolding Wire.scan_utf8
surrogate_refused = refl

write_bytes_opt-RoundTrips_example :
    RoundTrips
      (Wire.write_bytes_opt network_order (some (7 ∷ 8 ∷ [])))
      (Wire.read_bytes_opt network_order)
      (some (7 ∷ 8 ∷ []))
    × RoundTrips
        (Wire.write_bytes_opt network_order (some (7 ∷ 8 ∷ [])))
        (Wire.read_value network_order)
        (opt_value (some (7 ∷ 8 ∷ [])))
write_bytes_opt-RoundTrips_example =
    write_bytes_opt-RoundTrips network_order network_order-IsBigEndian (some (7 ∷ 8 ∷ []))
      (omega arith)

-- A link-local address with its scope, which is lost.
abbrev link_local : SocketAddr
link_local =
    SocketAddr.socket_v6 (254 ∷ 128 ∷ 0 ∷ 0 ∷ 0 ∷ 0 ∷ 0 ∷ 0 ∷ 0 ∷ 0 ∷ 0 ∷ 0 ∷ 0 ∷ 0 ∷ 0 ∷ 1 ∷ [])
      9042 0 7

write_inet-read_inet_example :
    read_inet network_order (write_inet network_order link_local ++ 5 ∷ [])
    ≡ some (ok (new_socket_addr (ip link_local) 9042, 5 ∷ []))
write_inet-read_inet_example =
    write_inet-read_inet network_order network_order-IsBigEndian link_local (5 ∷ [])
      (omega arith, refl)

read_inet_short_example : read_inet network_order (network_order.put_byte 4 ++ 127 ∷ 0 ∷ []) ≡ none
read_inet_short_example =
    read_inet_short network_order network_order-IsBigEndian 4 (127 ∷ 0 ∷ []) (inl refl)
      (omega arith)
