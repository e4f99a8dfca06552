-- ===== src/Client/Connection.antt =====
-- client/src/relay/connection.rs: the client's connection, its UDP sessions, and what decides on a
-- heartbeat.
pub mod Connect
pub mod Handshake
pub mod Heartbeat
use tuic.Prelude.{
  ℕ, Bool, true, false, not, ◌||◌, List, [], ◌∷◌, ◌++◌, Option, none, some, ok, err, panicked,
  Answer, success, failure, answered, ◌>>=◌, if◌then◌else◌,
}
use tuic.Prelude.Table.{lookup, insert, remove, is_empty}
use tuic.Protocol.Reader.{IoError, IoResult, unable_to_connect}
use tuic.Protocol.Address.{SocketAddr}
use tuic.Protocol.Command.{authenticate, heartbeat, write_command}
use tuic.Client.Address.{Address}
use tuic.Client.Stream.{Register, new_register, no_active_stream}

pub data UdpRelayMode : Type 0 where
  native quic : UdpRelayMode

pub data ServerAddr : Type 0 where
  socket_addr : SocketAddr → (name : List ℕ) → ServerAddr
  domain_addr : (domain : List ℕ) → ℕ → ServerAddr

-- The receiving end of a UDP session at the socks5 side: what it was sent, and whether it exists.
pub record PacketSender : Type 0 where
  pub sent : List (List ℕ × Address)
  pub open' : Bool

abbrev pub SessionMap : Type 0
SessionMap = List (ℕ × PacketSender)

-- What the connection put on the wire: a finished stream, or a datagram.
pub data Wire : Type 0 where
  uni_stream : List ℕ → Wire
  datagram : List ℕ → Wire

-- `IsClosed`: the flag and the wakers of `manage_connection` and `heartbeat`.
pub record IsClosed : Type 0 where
  pub is_closed : Bool
  pub wakers : List ℕ

pub record Connection : Type 0 where
  pub wire : List Wire
  pub udp_sessions : SessionMap
  pub stream_reg : Register
  pub udp_relay_mode : UdpRelayMode
  pub is_closed : IsClosed
  pub default_max_udp_relay_packet_size : ℕ
  pub max_udp_relay_packet_size : ℕ

-- `Connection::new`, less the two tasks that it spawns. The last field is the program's static
-- `MAX_UDP_RELAY_PACKET_SIZE`, which the new connection finds with the value `size`.
unfoldable pub new_connection : UdpRelayMode → (max_udp_relay_packet_size size : ℕ) → Connection
new_connection mode max_udp_relay_packet_size size = record {
  wire = [];
  udp_sessions = [];
  stream_reg = new_register;
  udp_relay_mode = mode;
  is_closed = record { is_closed = false; wakers = [] };
  default_max_udp_relay_packet_size = max_udp_relay_packet_size;
  max_udp_relay_packet_size = size;
}

-- What the transport answers to a task of the client. `write` is the answer to the writes of one
-- stream, which is an error as soon as one of them is.
pub record Env : Type 0 where
  pub open_stream : Answer IoError (Unit {0})
  pub write : Answer IoError (Unit {0})
  pub finish : Answer IoError (Unit {0})
  pub try_send_datagram : Answer IoError (Unit {0})
  pub max_datagram_size : Option ℕ

-- A unidirectional stream that is opened, written and finished.
unfoldable pub send_on_stream : Env → List ℕ → Connection → Connection × IoResult (Unit {0})
send_on_stream env bytes c =
    elim (answered env.open_stream >>= λ _. answered env.write >>= λ _. answered env.finish) [
      | ok _ ↦ (record c { wire = c.wire ++ (uni_stream bytes ∷ []) }, ok tt)
      | err e ↦ (c, err e)
      | panicked ↦ (c, panicked)
    ]

-- `send_authentication`; its error is logged.
unfoldable pub send_authentication : Env → List ℕ → Connection → Connection
unfolding send_on_stream
send_authentication env token_digest c =
    (send_on_stream env (write_command (authenticate token_digest) []) c).0

unfoldable pub no_active_udp_session : Connection → Bool
no_active_udp_session c = is_empty c.udp_sessions

-- One tick of `heartbeat`, while the connection is not closed; its error is logged.
unfoldable pub heartbeat_tick : Env → Connection → Connection
unfolding send_on_stream no_active_stream no_active_udp_session
heartbeat_tick env c =
    if not (no_active_stream c.stream_reg) || not (no_active_udp_session c)
    then (send_on_stream env (write_command heartbeat []) c).0
    else c

-- `update_max_udp_relay_packet_size`.
unfoldable pub update_max_udp_relay_packet_size : Env → Connection → Connection
update_max_udp_relay_packet_size env c =
    let size : ℕ = elim c.udp_relay_mode [
      | native ↦ elim env.max_datagram_size [
        | some size ↦ size
        | none ↦ c.default_max_udp_relay_packet_size
      ]
      | quic ↦ c.default_max_udp_relay_packet_size
    ] in
    record c { max_udp_relay_packet_size = size }

-- `UdpSessionMap::insert`, `get`, `remove`, each with its result.
unfoldable pub insert_session : ℕ → PacketSender → SessionMap → SessionMap × Option PacketSender
insert_session id tx m = (insert id tx m, lookup id m)

unfoldable pub get_session : ℕ → SessionMap → Option PacketSender
get_session id m = lookup id m

unfoldable pub remove_session : ℕ → SessionMap → SessionMap × Option PacketSender
remove_session id m = (remove id m, lookup id m)

-- `IsClosed::set`: the new state and the tasks that are woken; and `IsClosed::poll`.
unfoldable pub set_closed : IsClosed → IsClosed × List ℕ
set_closed c = (record { is_closed = true; wakers = [] }, c.wakers)

unfoldable pub poll_closed : ℕ → IsClosed → IsClosed × Bool
poll_closed task c =
    if c.is_closed then (c, true) else (record c { wakers = c.wakers ++ (task ∷ []) }, false)

-- The loop of `Connection::connect` over the addresses, with the last error.
unfoldable pub connect_loop :
    {C : Type 0} → (SocketAddr → Answer IoError C) → List SocketAddr → IoError → IoResult C
connect_loop connect_addr [] last = err last
connect_loop connect_addr (addr ∷ addrs) last =
    let retry = λ (e : IoError). connect_loop connect_addr addrs e in
    elim (connect_addr addr) [ success conn ↦ ok conn | failure e ↦ retry e ]

-- `Connection::connect`: the addresses of the server and the name to verify it by, then the loop.
unfoldable pub connect :
    {C : Type 0}
    → (List ℕ → ℕ → Answer IoError (List SocketAddr))
    → (SocketAddr → List ℕ → Answer IoError C)
    → ServerAddr
    → IoResult C
unfolding connect_loop
connect lookup_host connect_addr (socket_addr addr name) =
    connect_loop (λ a. connect_addr a name) (addr ∷ []) unable_to_connect
connect lookup_host connect_addr (domain_addr domain port) = elim (lookup_host domain port) [
  | success addrs ↦ connect_loop (λ a. connect_addr a domain) addrs unable_to_connect
  | failure e ↦ err e
]
