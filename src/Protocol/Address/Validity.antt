-- ===== src/Protocol/Address/Validity.antt =====
-- The addresses that the wire format can carry: bytes and words in range, a domain name of at most
-- 255 bytes of UTF-8, and an IPv6 socket address without a flow label and without a scope.
use tuic.Prelude.{◌≤◌, ◌≡◌, true, All, length}
use tuic.Prelude.Bytes.{IsByte, IsU16, is_utf8}
use tuic.Protocol.Address.{
  SocketAddr, v4, v6, Address, domain_address, socket_address, octets, segments,
}

abbrev pub IsSocketAddr : SocketAddr → Type 0
IsSocketAddr (v4 ip port) = All IsByte (octets ip) × IsU16 port
IsSocketAddr (v6 ip port flowinfo scope_id) =
    All IsU16 (segments ip) × IsU16 port × (flowinfo ≡ 0) × (scope_id ≡ 0)

abbrev pub IsAddress : Address → Type 0
IsAddress (domain_address addr port) =
    (length addr ≤ 255) × All IsByte addr × (is_utf8 addr ≡ true) × IsU16 port
IsAddress (socket_address addr) = IsSocketAddr addr
