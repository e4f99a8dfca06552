-- ===== src/Client/Socks5/Associate.antt =====
-- client/src/socks5/associate.rs: a UDP session at the socks5 side.
use tuic.Prelude.{
  ℕ, ◌+◌, ◌-◌, ◌%◌, ◌^◌, ◌==◌, ◌||◌, ◌&&◌, ltb, Bool, List, [], ◌∷◌, ◌++◌, Option, none, some, ok,
  err, panicked, Answer, success, failure, answered, ◌>>=◌, if◌then◌else◌,
}
use tuic.Protocol.Reader.{IoError, IoResult}
use tuic.Protocol.Address.{SocketAddr, v4, v6}
use tuic.Protocol.Command.{max_command_len}
use tuic.Client.Address as Relay
use tuic.Client.Request.Process.{Request}
use tuic.Client.Socks5.{
  Address, socket_address, to_relay, of_relay, succeeded, general_failure, Control, Env, Ended,
  and_then, logged, send_reply, shutdown, ask,
}

-- A round of the loops of `socks5_to_relay`: the program's static `MAX_UDP_RELAY_PACKET_SIZE` as the
-- round finds it, what the socket answers, and what `connect` does if it is called.
pub record Round : Type 0 where
  pub max_udp_relay_packet_size : ℕ
  pub received : Answer IoError (List ℕ × ℕ × Address × SocketAddr)
  pub connected : Answer IoError (Unit {0})

-- The socket of a session: the sizes set for it, its peer, and what the relay was handed.
pub record Session : Type 0 where
  pub sizes : List ℕ
  pub peer : Option SocketAddr
  pub handed : List (List ℕ × Relay.Address)

-- The size of the socket's buffer, two differences of `usize`, in a build without overflow checks:
-- they wrap around. `header_max_len` is `UdpHeader::max_serialized_len()` of `socks5_proto`.
unfoldable pub buf_size : (header_max_len max_udp_relay_packet_size : ℕ) → ℕ
buf_size header_max_len size =
    let headers = (max_command_len + 2 ^ 64 - header_max_len) % 2 ^ 64 in
    (size + 2 ^ 64 - headers) % 2 ^ 64

-- Whether one of the two differences is negative, which panics in a build with overflow checks.
unfoldable pub overflows : (header_max_len max_udp_relay_packet_size : ℕ) → Bool
overflows header_max_len size =
    ltb max_command_len header_max_len || ltb size (max_command_len - header_max_len)

-- `AssociatedUdpSocket::from` in `handle`, with the static as `handle` finds it.
unfoldable pub new_session : (header_max_len max_udp_relay_packet_size : ℕ) → Session
unfolding buf_size
new_session header size = record { sizes = buf_size header size ∷ []; peer = none; handed = [] }

unfoldable pub set_max_packet_size : ℕ → Round → Session → Session
unfolding buf_size
set_max_packet_size header r s = record s {
  sizes = s.sizes ++ (buf_size header r.max_udp_relay_packet_size ∷ []);
}

-- A packet goes to the relay; the error of a relay that is gone is ignored.
unfoldable pub hand : List ℕ → Address → Session → Session
unfolding to_relay
hand pkt dst s = record s { handed = s.handed ++ ((pkt, to_relay dst) ∷ []) }

-- The two loops below are those of a build without overflow checks. The second loop of
-- `socks5_to_relay`, of which only an error makes an end.
unfoldable pub next_packets : ℕ → List Round → Session → Session × Option IoError
unfolding set_max_packet_size hand
next_packets header [] s = (s, none)
next_packets header (r ∷ rs) s =
    let sized = set_max_packet_size header r s in
    elim r.received [
      | failure e ↦ (sized, some e)
      | success (pkt, frag, dst, src) ↦
          let taken = if frag == 0 then hand pkt dst sized else sized in
          next_packets header rs taken
    ]

-- The first one: up to a packet that is no fragment, whose sender the socket is connected to.
unfoldable pub first_packet : ℕ → List Round → Session → Session × Option IoError
unfolding next_packets
first_packet header [] s = (s, none)
first_packet header (r ∷ rs) s =
    let sized = set_max_packet_size header r s in
    let rest = first_packet header rs sized in
    elim r.received [
      | failure e ↦ (sized, some e)
      | success (pkt, frag, dst, src) ↦
          let handed = hand pkt dst sized in
          if frag == 0
          then elim r.connected [
            | success _ ↦ next_packets header rs (record handed { peer = some src })
            | failure e ↦ (handed, some e)
          ]
          else rest
    ]

-- `socks5_to_relay`: the session after some rounds, and the error that ended it, if it is over.
unfoldable pub socks5_to_relay : ℕ → ℕ → List Round → Session × Option IoError
unfolding first_packet new_session
socks5_to_relay header size rounds = first_packet header rounds (new_session header size)

-- `relay_to_socks5`: the packets that the relay gives before it is gone, each with what `send`
-- answers; and what was sent.
unfoldable pub relay_to_socks5 :
    List ((List ℕ × Relay.Address) × Answer IoError (Unit {0}))
    → List (List ℕ × ℕ × Address) × Answer IoError (Unit {0})
unfolding of_relay
relay_to_socks5 [] = ([], success tt)
relay_to_socks5 (((pkt, src), success _) ∷ packets) =
    let (sent, r) = relay_to_socks5 packets in ((pkt, 0, of_relay src) ∷ sent, r)
relay_to_socks5 ((_, failure e) ∷ packets) = ([], failure e)

-- How the `select!` of `handle` ends, and its result. With overflow checks the loops can panic at
-- the size of the buffer.
pub data Finish : Type 0 where
  control_closed : Finish
  socks5_ended : IoError → Finish
  relay_ended : Answer IoError (Unit {0}) → Finish
  loop_panicked : Finish

abbrev pub result : Finish → IoResult (Unit {0})
result control_closed = ok tt
result (socks5_ended e) = err e
result (relay_ended r) = answered r
result loop_panicked = panicked

-- `SocketAddr::from((addr.ip(), 0))`.
abbrev pub any_port : SocketAddr → SocketAddr
any_port (v4 ip port) = v4 ip 0
any_port (v6 ip port flowinfo scope_id) = v6 ip 0 0 0

-- `bind_udp_socket`, and the address of the socket.
abbrev pub bind_udp_socket : Env → IoResult SocketAddr
bind_udp_socket env = answered env.local_addr >>= λ local_addr.
    answered (env.bind (any_port local_addr)) >>= λ _. answered env.socket_addr

-- `handle` behind its `select!`, which a panic of a loop does not leave.
unfoldable pub handle_end : Env → Finish → Control → Ended
unfolding shutdown
handle_end env loop_panicked s = (s, panicked)
handle_end env control_closed s =
    and_then (logged env env.last_peer_addr (shutdown s)) λ s1. (s1, result control_closed)
handle_end env (socks5_ended e) s =
    and_then (logged env env.last_peer_addr (shutdown s)) λ s1. (s1, result (socks5_ended e))
handle_end env (relay_ended r) s =
    and_then (logged env env.last_peer_addr (shutdown s)) λ s1. (s1, result (relay_ended r))

-- The size of the buffer, and the socket with it.
unfoldable pub make_socket : Env → Control → Ended
unfolding overflows buf_size
make_socket env s =
    if env.overflow_checks && overflows env.header_max_len env.max_udp_relay_packet_size
    then (s, panicked)
    else (
      record s { buf_size = some (buf_size env.header_max_len env.max_udp_relay_packet_size) },
      ok tt,
    )

-- `handle`, of which `finish` is how its `select!` ends.
unfoldable pub handle_associate : Env → Finish → Control → Ended
unfolding send_reply shutdown make_socket handle_end
handle_associate env finish s = and_then (logged env env.peer_addr s) λ s1.
    elim (bind_udp_socket env) [
      | ok socket_addr ↦
          let asked = ask (Request.associate env.assoc_id) s1 in
          and_then (send_reply env succeeded (socket_address socket_addr) asked) λ s2.
            and_then (make_socket env s2)
              λ s3. and_then (s3, (answered env.ctrl_addr >>= λ _. ok tt)) (handle_end env finish)
      | err e ↦
          and_then (send_reply env general_failure env.unspecified s1) λ s2. (shutdown s2, err e)
      | panicked ↦ (s1, panicked)
    ]
