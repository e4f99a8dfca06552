-- ===== src/EndToEnd.antt =====
-- The two ends together: client/src/relay/task.rs writes what server/src/connection/dispatch.rs
-- reads, and server/src/connection/task.rs what client/src/relay/incoming.rs reads.
pub mod Heartbeat
pub mod Packet
pub mod Delivery
pub mod Session
pub mod Return
pub mod Login
pub mod Socks5
use tuic.Prelude.{
  ℕ, ◌≡◌, ◌%◌, ◌≢◌, ◌∙◌, ◌∷◌, ◌||◌, refl, arith, Bool, true, false, List, [], Option, none, some,
  ok, length, append-nil, success,
}
use native.Mathlib.Nat.{mod-eq_of_lt}
use tuic.Prelude.Bytes.{IsU16, IsU32}
use tuic.Prelude.Slices.{slice-append, slice_from-append}
use tuic.Protocol.Reader.{IoError}
use tuic.Protocol.Reader.Laws.{read_exact_all}
use tuic.Protocol.Address as Wire
use tuic.Protocol.Address.Validity.{IsAddress}
use tuic.Protocol.Command.{Command, packet, response, read_command, write_command, command_len}
use tuic.Protocol.Command.Validity.{IsCommand}
use tuic.Protocol.Command.RoundTrip.{read_command-write_command}
use tuic.Protocol.Command.Size.{length-write_command}
use tuic.Client.Address.{Address, of_tuic, to_tuic}
use tuic.Client.Task as Client
use tuic.Client.Incoming as Client_incoming
use tuic.Server.Udp.{uni_stream, datagram}
use tuic.Server.Task as Server
use tuic.Server.Task.{Env}
use tuic.Server.Dispatch.Packets.{
  Relayed, datagram_head_ok, datagram_relay_packet, uni_stream_head_packet, uni_stream_relay_packet,
}
use tuic.Client.Connection.{Env as ClientEnv}
use tuic.Server.Dispatch.{
  Connection, waiting, uni_stream_head, uni_stream_relay, datagram_head, datagram_relay,
}

-- A packet that a `Packet` command can announce.
abbrev pub IsPacket : ℕ → List ℕ → Wire.Address → Type 0
IsPacket assoc_id pkt addr = IsU32 assoc_id × IsU16 (length pkt) × IsAddress addr

-- What the server writes for a packet that a `Packet` command can announce (a session number of 32
-- bits, a payload shorter than 2 ^ 16, and an address that the format can carry, so an IPv6 one
-- without flow label and scope), the client parses to the same session number, payload and address,
-- from a datagram and from a stream.
pub parse-frame :
    (assoc_id : ℕ) (pkt : List ℕ) (addr : Wire.Address)
    → IsPacket assoc_id pkt addr
    → (Client_incoming.parse_datagram (Server.frame assoc_id pkt addr)
        ≡ ok (assoc_id, pkt, of_tuic addr))
      × (Client_incoming.parse_uni_stream (Server.frame assoc_id pkt addr)
          ≡ ok (assoc_id, pkt, of_tuic addr))
unfolding Server.frame Client_incoming.parse_datagram Client_incoming.parse_uni_stream
parse-frame assoc_id pkt addr (hi, hl, ha) =
    let small : length pkt % 65536 ≡ length pkt = mod-eq_of_lt {n = length pkt} {m = 65536} hl in
    let cmd : Command = packet assoc_id (length pkt) addr in
    let fits : IsCommand cmd = (hi, hl, ha) in
    rw (small, read_command-write_command cmd pkt fits)
      (
        rw (
            slice-append {E = IoError} (command_len cmd) (length pkt) (write_command cmd []) pkt
              (length-write_command cmd fits) refl),
        rw (read_exact_all (length pkt) pkt refl),
      )

module _ (env : Env) (assoc_id : ℕ) (pkt : List ℕ) (addr : Address) (c : Connection)
    (fits : IsPacket assoc_id pkt (to_tuic addr)) where
  small : length pkt % 65536 ≡ length pkt
  small = mod-eq_of_lt {n = length pkt} {m = 65536} fits.1

  abbrev header : Command
  header = packet assoc_id (length pkt) (to_tuic addr)

  -- A packet that a `Packet` command can announce, sent by the client in a datagram to a connection
  -- whose relay mode is not the one of streams: the handler waits with the packet's header, and its
  -- part behind the authentication calls `send` with just this packet.
  pub datagram_relay-frame :
      c.udp_packet_from ≢ some uni_stream
      → let bytes = Client.frame assoc_id pkt addr in
        (datagram_head bytes c ≡ (c, waiting (header, bytes)))
        × Relayed env c datagram assoc_id pkt (to_tuic addr) (datagram_relay env (header, bytes) c)
  unfolding Client.frame
  datagram_relay-frame m = rw small (
    datagram_head_ok _ pkt header c (read_command-write_command header pkt fits),
    datagram_relay_packet env assoc_id (length pkt) (to_tuic addr) _ pkt c
        (slice_from-append (command_len header) (write_command header []) pkt
          (length-write_command header fits))
        m,
  )

  -- A packet that a `Packet` command can announce, sent by the client in a stream of its own to a
  -- connection whose relay mode is not the one of datagrams: the handler waits with the packet's
  -- header, and its part behind the authentication calls `send` with just this packet.
  pub uni_stream_relay-frame :
      c.udp_packet_from ≢ some datagram
      → (uni_stream_head (Client.frame assoc_id pkt addr) c ≡ (c, waiting (header, pkt)))
        × Relayed env c uni_stream assoc_id pkt
            (to_tuic addr)
            (uni_stream_relay env (header, pkt) c)
  unfolding Client.frame
  uni_stream_relay-frame m = (
    rw small (
        uni_stream_head_packet _ pkt assoc_id (length pkt) (to_tuic addr) c
          (read_command-write_command header pkt fits)),
    uni_stream_relay_packet env assoc_id (length pkt) (to_tuic addr) pkt pkt [] c
        (read_exact_all (length pkt) pkt refl) m,
  )

answer_read : (b : Bool) → read_command (write_command (response b) []) ≡ ok (response b, [])
answer_read b =
    rw (append-nil (write_command (response b) [])) at
      (read_command-write_command (response b) [] tt)

-- The client on an answer `response b`, whatever its own stream does on being finished.
handle_connect-response :
    (client : ClientEnv) (b : Bool)
    → client.open_stream ≡ success tt
    → client.write ≡ success tt
    → Client.handle_connect client (write_command (response b) []) ≡ b
unfolding Client.handle_connect Client.negotiate_connect Client.negotiated
handle_connect-response client true o w = let r = answer_read true in ground arith
handle_connect-response client false o w = let r = answer_read false in ground arith

abbrev is_some {ℓ} : {A : Type ℓ} → Option A → Bool
is_some none = false
is_some (some a) = true

-- Whether one of the elements passes the test.
abbrev pub any {ℓ} : {A : Type ℓ} → (A → Bool) → List A → Bool
any test [] = false
any test (x ∷ xs) = test x || any test xs

first_connected-any :
    (tcp_connect : Wire.SocketAddr → Bool) (addrs : List Wire.SocketAddr)
    → is_some (Server.first_connected tcp_connect addrs) ≡ any tcp_connect addrs
unfolding Server.first_connected
first_connected-any tcp_connect [] = refl
first_connected-any tcp_connect (addr ∷ addrs) =
    ground (arith, first_connected-any tcp_connect addrs)

-- What the server's own answer says, when it can be written.
respond-cases :
    (env : Env) (client : ClientEnv) (target : Option Wire.SocketAddr)
    → client.open_stream ≡ success tt
    → client.write ≡ success tt
    → env.write_header ≡ success tt
    → let r = Server.respond env target in
      (r.target ≡ target) × (Client.handle_connect client r.written ≡ is_some target)
unfolding Server.respond
respond-cases env client (some addr) o w wr =
    rw (wr, handle_connect-response client true o w) (refl, refl)
respond-cases env client none o w wr =
    rw (wr, handle_connect-response client false o w) (refl, refl)

-- A `Connect` where the streams work and the server resolves the address: the server joins the
-- stream to the first resolved address that accepts, and the client hands the stream to the socks5
-- side exactly when there is one.
pub handle_connect-connect :
    (env : Env) (client : ClientEnv) (addr : Wire.Address) (addrs : List Wire.SocketAddr)
    → client.open_stream ≡ success tt
    → client.write ≡ success tt
    → env.write_header ≡ success tt
    → Server.resolve env addr ≡ success addrs
    → let r = Server.connect env addr in
      (r.target ≡ Server.first_connected env.tcp_connect addrs)
      × (Client.handle_connect client r.written ≡ any env.tcp_connect addrs)
unfolding Server.connect
handle_connect-connect env client addr addrs o w wr h =
    let (t, c) = respond-cases env client (Server.first_connected env.tcp_connect addrs) o w wr in
    rw (Server.connect, h) (t, c ∙ first_connected-any env.tcp_connect addrs)
