-- ===== src/Protocol/Address/RoundTrip.antt =====
-- `Address::read_from` against `Address::write_to_buf`.
use tuic.Prelude.{
  ℕ, ◌+◌, ◌≡◌, refl, arith, All, List, [], ◌∷◌, ◌++◌, ok, append_assoc, append-nil, length,
  length-append, take-append, drop-append,
}
use native.Mathlib.Nat.{mod-eq_of_lt}
use tuic.Prelude.Bytes.{IsU16, be16}
use tuic.Protocol.Reader.Laws.{of_be16-be16, read_exact-append}
use tuic.Protocol.Address.{
  Ipv4Addr, Ipv6Addr, Address, v4, v6, domain_address, socket_address, octets, segments,
  read_domain, read_ipv4, read_ipv6, read_address, put_segments, write_address, type_ipv6,
}
use tuic.Protocol.Address.Validity.{IsAddress}

put_segments-append : (buf segs : List ℕ) → put_segments buf segs ≡ buf ++ put_segments [] segs
unfolding put_segments
put_segments-append buf [] = simp append-nil
put_segments-append buf (s ∷ segs) =
    rw (put_segments-append (buf ++ be16 s) segs, put_segments-append (be16 s) segs)
      (append_assoc buf (be16 s) (put_segments [] segs))

put_segments-append_behind :
    (buf front segs back : List ℕ)
    → put_segments (buf ++ front) segs ++ back ≡ buf ++ (put_segments front segs ++ back)
put_segments-append_behind buf front segs back =
    rw (put_segments-append (buf ++ front) segs, put_segments-append front segs) (simp append_assoc)

-- The writer appends to the buffer it is given.
pub write_address-append :
    (a : Address) (buf : List ℕ) → write_address a buf ≡ buf ++ write_address a []
unfolding write_address
write_address-append (domain_address addr port) buf = simp append_assoc
write_address-append (socket_address (v4 ip port)) buf = simp append_assoc
write_address-append (socket_address (v6 ip port f s)) buf =
    put_segments-append_behind buf (type_ipv6 ∷ []) (segments ip) (be16 port)

read_domain-append :
    (addr : List ℕ) (port : ℕ) (rest : List ℕ)
    → IsAddress (domain_address addr port)
    → read_domain ((length addr ∷ (addr ++ be16 port)) ++ rest)
      ≡ ok (domain_address addr port, rest)
unfolding read_domain
read_domain-append addr port rest (hl, hb, hu, hp) = rw (
  read_exact-append (length addr + 2) (addr ++ be16 port) rest
      (omega (arith, length-append addr (be16 port))),
  drop-append addr (be16 port),
  take-append addr (be16 port),
  hu,
  of_be16-be16 port hp,
)

read_ipv4-append :
    (ip : Ipv4Addr) (port : ℕ) (rest : List ℕ)
    → IsU16 port
    → read_ipv4 ((octets ip ++ be16 port) ++ rest) ≡ ok (socket_address (v4 ip port), rest)
unfolding read_ipv4
read_ipv4-append ip port rest hp =
    rw (read_exact-append 6 (octets ip ++ be16 port) rest refl, of_be16-be16 port hp)

read_ipv6-append :
    (ip : Ipv6Addr) (port : ℕ) (rest : List ℕ)
    → All IsU16 (segments ip)
    → IsU16 port
    → read_ipv6 ((put_segments [] (segments ip) ++ be16 port) ++ rest)
      ≡ ok (socket_address (v6 ip port 0 0), rest)
unfolding read_ipv6 put_segments
read_ipv6-append ip port rest (h0, (h1, (h2, (h3, (h4, (h5, (h6, (h7, _)))))))) hp = rw (
  read_exact-append 18 (put_segments [] (segments ip) ++ be16 port) rest refl,
  of_be16-be16 ip.s0 h0,
  of_be16-be16 ip.s1 h1,
  of_be16-be16 ip.s2 h2,
  of_be16-be16 ip.s3 h3,
  of_be16-be16 ip.s4 h4,
  of_be16-be16 ip.s5 h5,
  of_be16-be16 ip.s6 h6,
  of_be16-be16 ip.s7 h7,
  of_be16-be16 port hp,
)

-- Whatever address the format can carry is read back, with what follows it left in the stream.
pub read_address-write_address :
    (a : Address) (rest : List ℕ)
    → IsAddress a
    → read_address (write_address a [] ++ rest) ≡ ok (a, rest)
unfolding read_address write_address
read_address-write_address (domain_address addr port) rest h =
    rw (mod-eq_of_lt {n = length addr} {m = 256} (omega arith))
      (read_domain-append addr port rest h)
read_address-write_address (socket_address (v4 ip port)) rest h = read_ipv4-append ip port rest h.1
read_address-write_address (socket_address (v6 ip port f s)) rest (hs, hp, hf, hz) =
    rw (hf, hz) (read_ipv6-append ip port rest hs hp)
