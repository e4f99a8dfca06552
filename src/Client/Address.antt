-- ===== src/Client/Address.antt =====
-- client/src/relay/address.rs, and the conversions of client/src/socks5 that have the same shape.
use tuic.Prelude.{ℕ, ◌≡◌, refl, List}
use tuic.Protocol.Address.{SocketAddr}
use tuic.Protocol.Address as Tuic

pub data Address : Type 0 where
  domain_address : List ℕ → ℕ → Address
  socket_address : SocketAddr → Address

-- `From<TuicAddress> for Address`.
unfoldable pub of_tuic : Tuic.Address → Address
of_tuic (Tuic.domain_address hostname port) = domain_address hostname port
of_tuic (Tuic.socket_address addr) = socket_address addr

-- `From<Address> for TuicAddress`.
unfoldable pub to_tuic : Address → Tuic.Address
to_tuic (domain_address hostname port) = Tuic.domain_address hostname port
to_tuic (socket_address addr) = Tuic.socket_address addr

pub of_tuic-to_tuic : (a : Address) → of_tuic (to_tuic a) ≡ a
unfolding of_tuic to_tuic
of_tuic-to_tuic (domain_address hostname port) = refl
of_tuic-to_tuic (socket_address addr) = refl

pub to_tuic-of_tuic : (a : Tuic.Address) → to_tuic (of_tuic a) ≡ a
unfolding of_tuic to_tuic
to_tuic-of_tuic (Tuic.domain_address hostname port) = refl
to_tuic-of_tuic (Tuic.socket_address addr) = refl
