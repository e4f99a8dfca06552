-- ===== src/Client/Connection/Handshake.antt =====
-- `ConnectionConfig` and `Connection::connect_addr` of client/src/relay/connection.rs: one attempt to
-- connect, given what `quinn` answers.
use tuic.Prelude.{
  ℕ, ◌≡◌, ◌≢◌, arith, Bool, true, List, ok, panicked, Answer, success, answered, ◌>>=◌,
  if◌then◌else◌,
}
use tuic.Protocol.Reader.{IoError, IoResult}
use tuic.Protocol.Address.{SocketAddr, v4, v6}
use tuic.Client.Connection.{Connection, UdpRelayMode, ServerAddr, new_connection}

-- `ConnectionConfig`, less the settings of `quinn`.
pub record ConnectionConfig : Type 0 where
  pub server_addr : ServerAddr
  pub token_digest : List ℕ
  pub udp_relay_mode : UdpRelayMode
  pub heartbeat_interval : ℕ
  pub reduce_rtt : Bool
  pub max_udp_relay_packet_size : ℕ

-- `Endpoint::client`, `connect_with`, whether `into_0rtt` gives a connection, and the handshake.
pub record Quinn : Type 0 where
  pub client : (bind_addr : SocketAddr) → Answer IoError (Unit {0})
  pub connect_with : SocketAddr → (name : List ℕ) → Answer IoError (Unit {0})
  pub into_0rtt : SocketAddr → Bool
  pub handshake : SocketAddr → Answer IoError (Unit {0})

-- The unspecified address of the version of `addr`, with the port 0.
abbrev bind_addr : SocketAddr → SocketAddr
bind_addr (v4 ip port) = v4 (record { a = 0; b = 0; c = 0; d = 0 }) 0
bind_addr (v6 ip port flowinfo scope_id) =
    v6 (record { s0 = 0; s1 = 0; s2 = 0; s3 = 0; s4 = 0; s5 = 0; s6 = 0; s7 = 0 }) 0 0 0

-- `connect_addr`, which finds the program's static `MAX_UDP_RELAY_PACKET_SIZE` with the value `size`.
unfoldable pub connect_addr :
    Quinn → ConnectionConfig → (size : ℕ) → SocketAddr → List ℕ → IoResult Connection
unfolding new_connection
connect_addr quinn config size addr name = do
  _ ← answered (quinn.client (bind_addr addr))
  _ ← answered (quinn.connect_with addr name)
  _ ←
      if config.reduce_rtt
      then (if quinn.into_0rtt addr then ok tt else answered (quinn.handshake addr))
      else answered (quinn.handshake addr)
  ok (new_connection config.udp_relay_mode config.max_udp_relay_packet_size size)

-- With a 0-RTT connection the client does not wait for the handshake.
pub connect_addr-into_0rtt :
    (quinn : Quinn) (config : ConnectionConfig) (size : ℕ) (addr : SocketAddr) (name : List ℕ)
    → quinn.client (bind_addr addr) ≡ success tt
    → quinn.connect_with addr name ≡ success tt
    → config.reduce_rtt ≡ true
    → quinn.into_0rtt addr ≡ true
    → connect_addr quinn config size addr name
      ≡ ok (new_connection config.udp_relay_mode config.max_udp_relay_packet_size size)
unfolding connect_addr
connect_addr-into_0rtt quinn config size addr name c w r z = ground arith

pub connect_addr_total :
    (quinn : Quinn) (config : ConnectionConfig) (size : ℕ) (addr : SocketAddr) (name : List ℕ)
    → connect_addr quinn config size addr name ≢ panicked
unfolding connect_addr
connect_addr_total quinn config size addr name p = ground arith
