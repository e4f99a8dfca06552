-- ===== src/Protocol/Address.antt =====
-- `Address` of protocol/src/lib.rs: its type, its reader, its writer and its lengths.
pub mod Validity
pub mod RoundTrip
pub mod Canonical
pub mod Total
pub mod Size
use tuic.Prelude.{
  ℕ, ◌+◌, ◌%◌, List, [], ◌∷◌, ◌++◌, ok, err, unwrap, ◌>>=◌, ◌==◌, if◌then◌else◌, length, take, drop,
}
use tuic.Prelude.Bytes.{be16, is_utf8}
use tuic.Protocol.Reader.{
  IoResult, unsupported_address_type, invalid_encoding, read_u8, read_u16, read_exact,
}

-- The four octets of `std::net::Ipv4Addr`.
pub record Ipv4Addr : Type 0 where
  pub a : ℕ
  pub b : ℕ
  pub c : ℕ
  pub d : ℕ

-- The eight segments of `std::net::Ipv6Addr`.
pub record Ipv6Addr : Type 0 where
  pub s0 : ℕ
  pub s1 : ℕ
  pub s2 : ℕ
  pub s3 : ℕ
  pub s4 : ℕ
  pub s5 : ℕ
  pub s6 : ℕ
  pub s7 : ℕ

-- `std::net::SocketAddr`; an IPv6 one has a flow label and a scope besides the port.
pub data SocketAddr : Type 0 where
  v4 : Ipv4Addr → ℕ → SocketAddr
  v6 : Ipv6Addr → ℕ → (flowinfo scope_id : ℕ) → SocketAddr

-- A `String` is its bytes.
pub data Address : Type 0 where
  domain_address : List ℕ → ℕ → Address
  socket_address : SocketAddr → Address

abbrev pub type_domain : ℕ
type_domain = 0x00

abbrev pub type_ipv4 : ℕ
type_ipv4 = 0x01

abbrev pub type_ipv6 : ℕ
type_ipv6 = 0x02

abbrev pub octets : Ipv4Addr → List ℕ
octets ip = ip.a ∷ ip.b ∷ ip.c ∷ ip.d ∷ []

abbrev pub segments : Ipv6Addr → List ℕ
segments ip = ip.s0 ∷ ip.s1 ∷ ip.s2 ∷ ip.s3 ∷ ip.s4 ∷ ip.s5 ∷ ip.s6 ∷ ip.s7 ∷ []

unfoldable pub read_domain : List ℕ → IoResult (Address × List ℕ)
unfolding read_u8 read_u16
read_domain stream = do
  (len, stream) ← read_u8 stream
  (buf, stream) ← read_exact (len + 2) stream
  (port, _) ← unwrap (read_u16 (drop len buf))
  let addr = take len buf
  if is_utf8 addr then ok (domain_address addr port, stream) else err invalid_encoding

unfoldable pub read_ipv4 : List ℕ → IoResult (Address × List ℕ)
unfolding read_u8 read_u16
read_ipv4 stream = do
  (buf, stream) ← read_exact 6 stream
  (a, rdr) ← unwrap (read_u8 buf)
  (b, rdr) ← unwrap (read_u8 rdr)
  (c, rdr) ← unwrap (read_u8 rdr)
  (d, rdr) ← unwrap (read_u8 rdr)
  (port, _) ← unwrap (read_u16 rdr)
  ok (socket_address (v4 (record { a = a; b = b; c = c; d = d }) port), stream)

unfoldable pub read_ipv6 : List ℕ → IoResult (Address × List ℕ)
unfolding read_u16
read_ipv6 stream = do
  (buf, stream) ← read_exact 18 stream
  (s0, rdr) ← unwrap (read_u16 buf)
  (s1, rdr) ← unwrap (read_u16 rdr)
  (s2, rdr) ← unwrap (read_u16 rdr)
  (s3, rdr) ← unwrap (read_u16 rdr)
  (s4, rdr) ← unwrap (read_u16 rdr)
  (s5, rdr) ← unwrap (read_u16 rdr)
  (s6, rdr) ← unwrap (read_u16 rdr)
  (s7, rdr) ← unwrap (read_u16 rdr)
  (port, _) ← unwrap (read_u16 rdr)
  ok (
    socket_address (
        v6 (record { s0 = s0; s1 = s1; s2 = s2; s3 = s3; s4 = s4; s5 = s5; s6 = s6; s7 = s7 }) port
          0 0),
    stream,
  )

-- `Address::read_from`.
unfoldable pub read_address : List ℕ → IoResult (Address × List ℕ)
unfolding read_u8
read_address stream = do
  (addr_type, stream) ← read_u8 stream
  if addr_type == type_domain
      then read_domain stream
      else if addr_type == type_ipv4
      then read_ipv4 stream
      else if addr_type == type_ipv6
      then read_ipv6 stream
      else err (unsupported_address_type addr_type)

-- The loop over the segments of an IPv6 address.
unfoldable pub put_segments : List ℕ → List ℕ → List ℕ
put_segments buf [] = buf
put_segments buf (seg ∷ segs) = put_segments (buf ++ be16 seg) segs

-- `Address::write_to_buf`, which appends to the buffer.
unfoldable pub write_address : Address → List ℕ → List ℕ
unfolding put_segments
write_address (domain_address addr port) buf =
    (((buf ++ (type_domain ∷ [])) ++ ((length addr % 256) ∷ [])) ++ addr) ++ be16 port
write_address (socket_address (v4 ip port)) buf =
    ((buf ++ (type_ipv4 ∷ [])) ++ octets ip) ++ be16 port
write_address (socket_address (v6 ip port flowinfo scope_id)) buf =
    put_segments (buf ++ (type_ipv6 ∷ [])) (segments ip) ++ be16 port

-- `Address::serialized_len`.
unfoldable pub address_len : Address → ℕ
address_len (domain_address addr port) = 1 + (1 + length addr + 2)
address_len (socket_address (v4 ip port)) = 1 + 6
address_len (socket_address (v6 ip port flowinfo scope_id)) = 1 + 18

-- `Address::max_serialized_len`, which counts the longest domain name.
abbrev pub max_address_len : ℕ
max_address_len = 1 + 1 + 255 + 2
