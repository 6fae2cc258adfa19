-- ===== src/Frame/Wire/Inet.antt =====
-- Socket addresses: `read_inet` and `write_inet`.
use scylla_rust_driver.Prelude.{
  ℕ, ◌-◌, ◌%◌, ◌^◌, ◌<◌, ◌≡◌, ◌⊎◌, inl, inr, refl, false, Option, none, some, List, ◌++◌,
  if◌then◌else◌, ltb, lt→ltb, le→ltb, length, take, drop, ok, err, ◌>>=◌, arith, ◌==◌,
  length-append, take-length_append, drop-length_append,
}
use mathlib.Core.Path.{◌∙◌}
use scylla_rust_driver.Prelude.Int.{ℤ, pos, negsuc}
use scylla_rust_driver.Frame.Wire
use scylla_rust_driver.Frame.Wire.Lengths.{IsBigEndian, append_assoc}

-- An address is its octets.
pub data IpAddr : Type 0 where
  v4 v6 : List ℕ → IpAddr

-- A V6 address has a flow label and a scope with it.
pub data SocketAddr : Type 0 where
  socket_v4 : (octets : List ℕ) (port : ℕ) → SocketAddr
  socket_v6 : (octets : List ℕ) (port flowinfo scope_id : ℕ) → SocketAddr

abbrev pub ip : SocketAddr → IpAddr
ip (socket_v4 octets port) = IpAddr.v4 octets
ip (socket_v6 octets port flowinfo scope_id) = IpAddr.v6 octets

abbrev pub port_of : SocketAddr → ℕ
port_of (socket_v4 octets port) = port
port_of (socket_v6 octets port flowinfo scope_id) = port

-- `SocketAddr::new`, which leaves the flow label and the scope 0.
abbrev pub new_socket_addr : IpAddr → ℕ → SocketAddr
new_socket_addr (IpAddr.v4 octets) port = socket_v4 octets port
new_socket_addr (IpAddr.v6 octets) port = socket_v6 octets port 0 0

-- `port as u16`.
unfoldable pub wrap_u16 : ℤ → ℕ
wrap_u16 (pos n) = n % 2 ^ 16
wrap_u16 (negsuc n) = 2 ^ 16 - 1 - n % 2 ^ 16

-- `&buf[0..n]` and `buf.advance(n)`, where `none` is the panic on too few bytes.
unfoldable pub slice_first : ℕ → List ℕ → Option (List ℕ × List ℕ)
slice_first n buf = if ltb (length buf) n then none else some (take n buf, drop n buf)

module _ (w : Wire.BigEndian) where
  unfoldable pub read_port : IpAddr → List ℕ → Wire.Read SocketAddr
  read_port ip_addr buf =
      Wire.read_int w buf >>= λ (port, rest). ok (new_socket_addr ip_addr (wrap_u16 port), rest)

  -- The octets, and the port behind them.
  unfoldable pub read_octets : ℕ → (List ℕ → IpAddr) → List ℕ → Option (Wire.Read SocketAddr)
  read_octets n make buf = elim (slice_first n buf) [
    | none ↦ none
    | some (octets, rest) ↦ some (read_port (make octets) rest)
  ]

  unfoldable pub read_inet : List ℕ → Option (Wire.Read SocketAddr)
  read_inet buf = elim (w.get_byte buf) [
    | none ↦ some (err Wire.LowLevelDeserializationError.io_error)
    | some (len, rest) ↦
        if len == 4
        then read_octets 4 IpAddr.v4 rest
        else if len == 16
        then read_octets 16 IpAddr.v6 rest
        else some (err (Wire.LowLevelDeserializationError.invalid_inet_length len))
  ]

  unfoldable pub write_inet : SocketAddr → List ℕ
  write_inet addr = elim (ip addr) [
    | IpAddr.v4 octets ↦ (w.put_byte 4 ++ octets) ++ Wire.write_int w (pos (port_of addr))
    | IpAddr.v6 octets ↦ (w.put_byte 16 ++ octets) ++ Wire.write_int w (pos (port_of addr))
  ]

-- The sizes of the types.
abbrev pub IsSocketAddr : SocketAddr → Type 0
IsSocketAddr a =
    (port_of a < 2 ^ 16)
    × elim (ip a) [ IpAddr.v4 octets ↦ length octets ≡ 4 | IpAddr.v6 octets ↦ length octets ≡ 16 ]

slice_first-append :
    (n : ℕ) (v rest : List ℕ) → length v ≡ n → slice_first n (v ++ rest) ≡ some (v, rest)
unfolding slice_first
slice_first-append n v rest h = rw⁻¹ h (
    let enough : ltb (length (v ++ rest)) (length v) ≡ false =
      le→ltb (length (v ++ rest)) (length v) (omega (arith, length-append v rest)) in
    rw (enough, take-length_append v rest, drop-length_append v rest) refl)

module _ (w : Wire.BigEndian) (b : IsBigEndian w) where
  read_octets-written :
      (n : ℕ) (make : List ℕ → IpAddr) (octets rest : List ℕ) (port : ℕ)
      → length octets ≡ n
      → port < 2 ^ 16
      → read_octets w n make (octets ++ (w.put_int (pos port) ++ rest))
        ≡ some (ok (new_socket_addr (make octets) port, rest))
  unfolding read_octets read_port Wire.read_int wrap_u16
  read_octets-written n make octets rest port h p =
      let small : port % 2 ^ 16 ≡ port = omega arith in
      rw
        (
          slice_first-append n octets (w.put_int (pos port) ++ rest) h,
          read_octets,
          b.int (pos port) (omega (arith, p)) rest,
          small,
        )
        refl

  assoc_parts : (x y z t : List ℕ) → ((x ++ y) ++ z) ++ t ≡ x ++ (y ++ (z ++ t))
  assoc_parts x y z t = append_assoc (x ++ y) z t ∙ append_assoc x y (z ++ t)

  -- A socket address is read back without its flow label and its scope, which are not written, and
  -- the bytes behind it are left.
  pub write_inet-read_inet :
      (a : SocketAddr) (rest : List ℕ)
      → IsSocketAddr a
      → read_inet w (write_inet w a ++ rest) ≡ some (ok (new_socket_addr (ip a) (port_of a), rest))
  unfolding read_inet write_inet Wire.write_int
  write_inet-read_inet (socket_v4 octets port) rest h =
      rw
        (
          assoc_parts (w.put_byte 4) octets (w.put_int (pos port)) rest,
          b.byte 4 (omega arith) (octets ++ (w.put_int (pos port) ++ rest)),
          read_inet,
        )
        (read_octets-written 4 IpAddr.v4 octets rest port h.1 h.0)
  write_inet-read_inet (socket_v6 octets port flowinfo scope_id) rest h =
      rw
        (
          assoc_parts (w.put_byte 16) octets (w.put_int (pos port)) rest,
          b.byte 16 (omega arith) (octets ++ (w.put_int (pos port) ++ rest)),
          read_inet,
        )
        (read_octets-written 16 IpAddr.v6 octets rest port h.1 h.0)

  read_octets_short :
      (n : ℕ) (make : List ℕ → IpAddr) (rest : List ℕ)
      → length rest < n
      → read_octets w n make rest ≡ none
  unfolding read_octets slice_first
  read_octets_short n make rest h = rw (lt→ltb (length rest) n h, read_octets, slice_first) refl

  -- If fewer bytes are left than the length byte 4 or 16 says, the reader panics where it should
  -- give an error.
  pub read_inet_short :
      (n : ℕ) (rest : List ℕ)
      → (n ≡ 4) ⊎ (n ≡ 16)
      → length rest < n
      → read_inet w (w.put_byte n ++ rest) ≡ none
  unfolding read_inet
  read_inet_short n rest (inl e) h =
      rw (e, b.byte 4 (omega arith) rest, read_inet) (read_octets_short 4 IpAddr.v4 rest (rw⁻¹ e h))
  read_inet_short n rest (inr e) h =
      rw (e, b.byte 16 (omega arith) rest, read_inet)
        (read_octets_short 16 IpAddr.v6 rest (rw⁻¹ e h))
