-- ===== src/Client/Socks5.antt =====
-- client/src/socks5/mod.rs, connect.rs and bind.rs: what a connection of the socks5 server is
-- answered. The transport and the crates `socks5_proto` and `socks5_server` are parameters.
pub mod Associate
pub mod Handling
pub mod Replies
pub mod Forwarding
use tuic.Prelude.{
  ℕ, Bool, true, false, List, [], ◌∷◌, ◌++◌, Option, none, some, ok, err, panicked, Answer, success,
  failure, answered, ◌>>=◌, if◌then◌else◌,
}
use tuic.Protocol.Reader.{IoError, IoResult}
use tuic.Protocol.Address.{SocketAddr}
use tuic.Client.Address as Relay
use tuic.Client.Request.Process.{Request}

-- The two forms of `socks5_proto::Address` that the conversions of the source tell apart.
pub data Address : Type 0 where
  domain_address : List ℕ → ℕ → Address
  socket_address : SocketAddr → Address

-- The conversions to and from `RelayAddress`.
unfoldable pub to_relay : Address → Relay.Address
to_relay (domain_address domain port) = Relay.domain_address domain port
to_relay (socket_address addr) = Relay.socket_address addr

unfoldable pub of_relay : Relay.Address → Address
of_relay (Relay.domain_address domain port) = domain_address domain port
of_relay (Relay.socket_address addr) = socket_address addr

-- The replies that the source sends.
pub data Reply : Type 0 where
  succeeded network_unreachable command_not_supported general_failure : Reply

-- What the control connection of a socks5 client went through: the requests made of the relay for
-- it, the replies it got, whether it was joined to a stream of the relay, the size that the buffer of
-- its UDP socket was made with, and whether it was shut down.
pub record Control : Type 0 where
  pub requests : List Request
  pub replies : List (Reply × Address)
  pub is_joined : Bool
  pub buf_size : Option ℕ
  pub is_shutdown : Bool

abbrev pub new_control : Control
new_control = record {
  requests = [];
  replies = [];
  is_joined = false;
  buf_size = none;
  is_shutdown = false;
}

-- What the system answers to a handler. `logs_info` says whether the log is fine enough for
-- `log::info!` to look at its arguments, in which `peer_addr` can fail; `last_peer_addr` is the
-- answer to its last call. `assoc_id` is the random number of a session, `bind` binds a UDP socket,
-- `header_max_len` is `UdpHeader::max_serialized_len()` of `socks5_proto`, and
-- `max_udp_relay_packet_size` the program's static of this name as the handler finds it;
-- `overflow_checks` says whether the build checks its arithmetic, as a debug build does.
pub record Env : Type 0 where
  pub logs_info : Bool
  pub peer_addr : Answer IoError SocketAddr
  pub reply : Answer IoError (Unit {0})
  pub copy_bidirectional : Answer IoError (Unit {0})
  pub unspecified : Address
  pub assoc_id : ℕ
  pub local_addr : Answer IoError SocketAddr
  pub bind : SocketAddr → Answer IoError (Unit {0})
  pub socket_addr : Answer IoError SocketAddr
  pub ctrl_addr : Answer IoError SocketAddr
  pub last_peer_addr : Answer IoError SocketAddr
  pub overflow_checks : Bool
  pub header_max_len : ℕ
  pub max_udp_relay_packet_size : ℕ

abbrev pub Ended : Type 0
Ended = Control × IoResult (Unit {0})

-- `?` behind a call.
abbrev pub and_then : Ended → (Control → Ended) → Ended
and_then (s, ok _) next = next s
and_then (s, err e) next = (s, err e)
and_then (s, panicked) next = (s, panicked)

-- `conn.peer_addr()?` in the arguments of `log::info!`.
abbrev pub logged : Env → Answer IoError SocketAddr → Control → Ended
logged env peer s = (s, if env.logs_info then (answered peer >>= λ _. ok tt) else ok tt)

-- `conn.reply(…).await?`.
unfoldable pub send_reply : Env → Reply → Address → Control → Ended
send_reply env reply addr s = elim env.reply [
  | success _ ↦ (record s { replies = s.replies ++ ((reply, addr) ∷ []) }, ok tt)
  | failure e ↦ (s, err e)
]

-- `conn.shutdown()`, whose error is ignored.
unfoldable pub shutdown : Control → Control
shutdown s = record s { is_shutdown = true }

abbrev pub ask : Request → Control → Control
ask req s = record s { requests = s.requests ++ (req ∷ []) }

-- `io::copy_bidirectional`.
unfoldable pub join : Env → Control → Ended
join env s = (record s { is_joined = true }, answered env.copy_bidirectional)

-- `handle` of connect.rs. `granted` says whether the relay gives a stream for the request.
unfoldable pub handle_connect : Env → (granted : Bool) → Address → Control → Ended
unfolding send_reply shutdown join to_relay
handle_connect env granted target_addr s = and_then (logged env env.peer_addr s) λ s1.
    let asked = ask (Request.connect (to_relay target_addr)) s1 in
    if granted
    then and_then (send_reply env succeeded env.unspecified asked) (join env)
    else and_then (send_reply env network_unreachable env.unspecified asked)
        (λ s2. (shutdown s2, ok tt))

-- `handle` of bind.rs.
unfoldable pub handle_bind : Env → (unsupported : IoError) → Control → Ended
unfolding send_reply shutdown
handle_bind env unsupported s = and_then (logged env env.peer_addr s) λ s1.
    and_then (send_reply env command_not_supported env.unspecified s1)
      λ s2. (shutdown s2, err unsupported)
