-- ===== src/Client/Socks5/Replies.antt =====
-- What a socks5 client is answered by the handlers of client/src/socks5.
use tuic.Prelude.{
  ℕ, ◌+◌, ◌-◌, ◌%◌, ◌^◌, ◌<◌, ◌≤◌, ◌≡◌, ◌≢◌, ◌⊎◌, arith, refl, answered, ◌>>=◌, none, some, Bool,
  true, false, not, [], ◌∷◌, ok, err, panicked, Answer, success, failure, length, if◌then◌else◌,
}
use tuic.Protocol.Reader.{IoError, IoResult}
use tuic.Protocol.Address.{SocketAddr, v4, v6}
use tuic.Protocol.Command.{max_command_len}
use tuic.Client.Request.Process.{Request}
use tuic.Client.Socks5.{
  Address, socket_address, to_relay, succeeded, network_unreachable, general_failure, Control,
  new_control, Env, Ended, handle_connect,
}
use tuic.Client.Socks5.Associate.{
  Finish, control_closed, socks5_ended, relay_ended, loop_panicked, result, any_port,
  bind_udp_socket, buf_size, overflows, handle_associate,
}
use tuic.Client.Socks5.Handling.{Handshake, handle_connection}

-- The calls that stand around a handler's own work succeed.
abbrev pub IsUp : Env → SocketAddr → Type 0
IsUp env peer =
    (env.peer_addr ≡ success peer)
    × (env.reply ≡ success tt)
    × (env.ctrl_addr ≡ success peer)
    × (env.last_peer_addr ≡ success peer)

-- At most one reply and one request, and a control connection is joined to a stream of the relay
-- only after the reply that says so, and then it is not shut down.
abbrev pub IsAnswered : Env → Control → Type 0
IsAnswered env s =
    (length s.replies ≤ 1)
    × (length s.requests ≤ 1)
    × ((s.is_joined ≡ false)
        ⊎ ((s.replies ≡ (succeeded, env.unspecified) ∷ []) × (s.is_shutdown ≡ false)))

-- The two ways to a panic of a handler: the sizes of `handle` in associate.rs in a build with overflow
-- checks, and a panic of a loop that `handle` waits for.
abbrev pub CanPanic : Env → Finish → Type 0
CanPanic env finish =
    ((env.overflow_checks ≡ true)
      × (overflows env.header_max_len env.max_udp_relay_packet_size ≡ true))
    ⊎ (finish ≡ loop_panicked)

-- Whatever the system and the relay answer, a socks5 client is replied to at most once and makes at
-- most one request of the relay; it is joined to a stream of the relay only after the one reply
-- `Succeeded`, and is then not shut down; and its handler does not panic, unless the build checks for
-- overflows and one of the two differences that make the size of the buffer of a UDP socket is
-- negative, or a loop of the UDP session panicked.
pub handle_connection-IsAnswered :
    (env : Env) (granted : Bool) (finish : Finish) (unsupported : IoError)
    (handshake : Answer IoError Handshake)
    → let (s, r) = handle_connection env granted finish unsupported handshake in
      IsAnswered env s × ((r ≢ panicked) ⊎ CanPanic env finish)
unfolding handle_connection
handle_connection-IsAnswered env granted finish unsupported (failure e) = ground arith
handle_connection-IsAnswered env granted finish unsupported (success (Handshake.connect addr)) =
    ground arith
handle_connection-IsAnswered env granted finish unsupported (success (Handshake.bind addr)) =
    ground arith
handle_connection-IsAnswered env granted finish unsupported (success (Handshake.associate addr)) =
    ground arith

-- Where the control connection works, a `Connect` of the socks5 client becomes the `Connect` request
-- of its address, and the one reply says whether the relay gave a stream: with one the two are
-- joined, and without one the connection is shut down.
pub handle_connect-reply :
    (env : Env) (granted : Bool) (addr : Address) (peer : SocketAddr)
    → IsUp env peer
    → let (s, r) = handle_connect env granted addr new_control in
      (s.requests ≡ Request.connect (to_relay addr) ∷ [])
      × (s.replies ≡ (if granted then succeeded else network_unreachable, env.unspecified) ∷ [])
      × (s.is_joined ≡ granted)
      × (s.is_shutdown ≡ not granted)
unfolding handle_connect
handle_connect-reply env true addr peer h = ground arith
handle_connect-reply env false addr peer h = ground arith

-- What an `Associate` leads to where there is no socket for it.
abbrev Refused : Env → IoError → Ended → Type 0
Refused env e (s, r) =
    (s.requests ≡ [])
    × (s.replies ≡ (general_failure, env.unspecified) ∷ [])
    × (s.buf_size ≡ none)
    × (r ≡ err e)

-- What an `Associate` leads to once a socket is asked for: the answers of the binding and of the
-- socket about its address.
abbrev Bound : Env → Finish → Answer IoError (Unit {0}) → Answer IoError SocketAddr → Ended → Type 0
Bound env finish (success _) (success addr) (s, r) =
    (s.requests ≡ Request.associate env.assoc_id ∷ [])
    × (s.replies ≡ (succeeded, socket_address addr) ∷ [])
    × (s.buf_size ≡ some (env.max_udp_relay_packet_size - (max_command_len - env.header_max_len)))
    × (r ≡ result finish)
Bound env finish (success _) (failure e) ended = Refused env e ended
Bound env finish (failure e) socket_addr ended = Refused env e ended

-- What an `Associate` leads to, by the local address of its control connection: the socket is bound
-- to this IP address and any port.
abbrev pub Associated : Env → Finish → Answer IoError SocketAddr → Ended → Type 0
Associated env finish (success (v4 ip port)) ended =
    Bound env finish (env.bind (v4 ip 0)) env.socket_addr ended
Associated env finish (success (v6 ip port flowinfo scope_id)) ended =
    Bound env finish (env.bind (v6 ip 0 0 0)) env.socket_addr ended
Associated env finish (failure e) ended = Refused env e ended

-- A difference of `usize` that is not negative.
sub_wrapped : (a b : ℕ) → b ≤ a → a < 2 ^ 64 → (a + 2 ^ 64 - b) % 2 ^ 64 ≡ a - b
sub_wrapped a b h l = omega arith

buf_size-sub :
    (header size : ℕ)
    → overflows header size ≡ false
    → size < 2 ^ 64
    → buf_size header size ≡ size - (max_command_len - header)
unfolding buf_size overflows
buf_size-sub header size h l =
    let inner = sub_wrapped max_command_len header in
    let outer = sub_wrapped size (max_command_len - header) in ground (arith, inner, outer)

-- The same by what became of the socket.
abbrev Made : Env → Finish → IoResult SocketAddr → Ended → Type 0
Made env finish (ok addr) ended = Bound env finish (success tt) (success addr) ended
Made env finish (err e) ended = Refused env e ended
Made env finish panicked ended = ⊥

Made-Bound :
    (env : Env) (finish : Finish) (ended : Ended) (bind : Answer IoError (Unit {0}))
    (socket_addr : Answer IoError SocketAddr)
    → Made env finish (answered bind >>= λ _. answered socket_addr) ended
    → Bound env finish bind socket_addr ended
Made-Bound env finish ended (success _) (success addr) m = m
Made-Bound env finish ended (success _) (failure e) m = m
Made-Bound env finish ended (failure e) socket_addr m = m

Made-Associated :
    (env : Env) (finish : Finish) (ended : Ended) (local_addr : Answer IoError SocketAddr)
    → Made env finish
        (answered local_addr >>= λ l.
          answered (env.bind (any_port l)) >>= λ _. answered env.socket_addr)
        ended
    → Associated env finish local_addr ended
Made-Associated env finish ended (success (v4 ip port)) m =
    Made-Bound env finish ended (env.bind (v4 ip 0)) env.socket_addr m
Made-Associated env finish ended (success (v6 ip port flowinfo scope_id)) m =
    Made-Bound env finish ended (env.bind (v6 ip 0 0 0)) env.socket_addr m
Made-Associated env finish ended (failure e) m = m

handle_associate-Made :
    (env : Env) (finish : Finish) (peer : SocketAddr)
    → IsUp env peer
    → finish ≢ loop_panicked
    → overflows env.header_max_len env.max_udp_relay_packet_size ≡ false
    → buf_size env.header_max_len env.max_udp_relay_packet_size
      ≡ env.max_udp_relay_packet_size - (max_command_len - env.header_max_len)
    → let ended = handle_associate env finish new_control in
      (ended.0.is_shutdown ≡ true) × Made env finish (bind_udp_socket env) ended
unfolding handle_associate
handle_associate-Made env control_closed peer h n o b = ground arith
handle_associate-Made env (socks5_ended e) peer h n o b = ground arith
handle_associate-Made env (relay_ended r) peer h n o b = ground arith
handle_associate-Made env loop_panicked peer h n o b = absurd (n refl)

-- Where the control connection works, no loop panics, the static size is a `usize` and not too small,
-- an `Associate` of the socks5 client asks for a socket at the local address of its control
-- connection; with one it is answered by the address of the socket, becomes one request, gives the
-- buffer of the socket the static size less the difference of the two headers, and ends with the
-- result of its forwarding; without one it is answered by `GeneralFailure`, no request is made, and
-- it ends with the error. Either way the connection is shut down.
pub handle_associate-reply :
    (env : Env) (finish : Finish) (peer : SocketAddr)
    → IsUp env peer
    → finish ≢ loop_panicked
    → overflows env.header_max_len env.max_udp_relay_packet_size ≡ false
    → env.max_udp_relay_packet_size < 2 ^ 64
    → let ended = handle_associate env finish new_control in
      (ended.0.is_shutdown ≡ true) × Associated env finish env.local_addr ended
handle_associate-reply env finish peer h n o l =
    let size = buf_size-sub env.header_max_len env.max_udp_relay_packet_size o l in
    let (down, made) = handle_associate-Made env finish peer h n o size in
    (down, Made-Associated env finish _ env.local_addr made)
