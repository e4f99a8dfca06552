-- ===== src/Protocol/Address/Size.antt =====
-- `Address::serialized_len` and `Address::max_serialized_len` against what is written.
use tuic.Prelude.{◌≤◌, ◌≡◌, refl, arith, [], length, length-append, All, All-append}
use tuic.Prelude.Bytes.{IsByte, be16}
use tuic.Protocol.Address.{
  Address, v4, v6, domain_address, socket_address, put_segments, write_address, address_len,
  max_address_len,
}
use tuic.Protocol.Address.Validity.{IsAddress}

-- `serialized_len` is the number of bytes written, for every address.
pub length-write_address : (a : Address) → length (write_address a []) ≡ address_len a
unfolding write_address address_len
length-write_address (domain_address addr port) = omega (arith, length-append addr (be16 port))
length-write_address (socket_address (v4 ip port)) = refl
length-write_address (socket_address (v6 ip port f s)) = refl

pub address_len-le-max : (a : Address) → IsAddress a → address_len a ≤ max_address_len
unfolding address_len
address_len-le-max (domain_address addr port) h = omega arith
address_len-le-max (socket_address (v4 ip port)) h = omega arith
address_len-le-max (socket_address (v6 ip port f s)) h = omega arith

-- What is written is bytes.
pub write_address-IsByte : (a : Address) → IsAddress a → All IsByte (write_address a [])
unfolding write_address
write_address-IsByte (domain_address addr port) (size, bytes, valid, hp) =
    (omega arith, (omega arith, All-append IsByte addr (be16 port) bytes (omega arith)))
write_address-IsByte (socket_address (v4 ip port)) h = omega arith
write_address-IsByte (socket_address (v6 ip port f s)) h = unfold put_segments in omega arith
