-- ===== src/Tests/Relaying.antt =====
-- Examples for the client, client/src/relay/, and for the two ends together.
use tuic.Prelude.{
  ℕ, ◌≡◌, ◌≢◌, inl, ◌<◌, refl, arith, true, false, List, [], ◌∷◌, ◌++◌, none, ok, panicked, success,
  failure, Answer, ◌==◌, ◌+◌, length, if◌then◌else◌,
}
use tuic.Protocol.Command.{packet, write_command}
use tuic.Protocol.Command.Validity.{IsCommand}
use tuic.Client.Address.{Address, domain_address, of_tuic, to_tuic}
use tuic.Client.Connection.Heartbeat.{
  Round, run_heartbeat, beats, closes_tried, run_heartbeat-beats,
}
use tuic.Client.Connection.{Connection, PacketSender, native, new_connection, connect, domain_addr}
use tuic.Client.Incoming.{parse_datagram, parse_uni_stream}
use tuic.Client.Incoming.Short.{parse_datagram_short}
use tuic.Client.Request.{new_register, poll_wait}
use tuic.Server.Task as Server
use tuic.Server.Udp
use tuic.Server.Dispatch as Dispatch
use tuic.Server.Connection.{new_system}
use tuic.EndToEnd.{IsPacket, parse-frame}
use tuic.EndToEnd.Packet.{Arrives, frame-Arrives}
use tuic.Server.Udp.Sessions.{Alive}
use tuic.Prelude.Table.{lookup}
use tuic.Protocol.Address.{SocketAddr, v4}
use tuic.Protocol.Reader.{IoError, unable_to_connect}
use tuic.Client.Connection.Connect.{connect-first}
use tuic.Tests.{
  client_env, site, site-IsAddress, resolver, second_resolver, payload, tokens, server_env,
}

site-IsPacket : IsPacket 7 payload site
site-IsPacket = (omega arith, omega arith, site-IsAddress)

parse-frame_example :
    (parse_datagram (Server.frame 7 payload site) ≡ ok (7, payload, of_tuic site))
    × (parse_uni_stream (Server.frame 7 payload site) ≡ ok (7, payload, of_tuic site))
parse-frame_example = parse-frame 7 payload site site-IsPacket

abbrev client_site : Address
client_site = domain_address (0x61 ∷ 0x2e ∷ 0x62 ∷ []) 80

client_site-IsPacket : IsPacket 7 payload (to_tuic client_site)
unfolding to_tuic
client_site-IsPacket = site-IsPacket

abbrev served : Dispatch.Connection
served = (new_system tokens 1500).conn

served-mode : served.udp_packet_from ≡ none
unfolding new_system
served-mode = refl

eight-seven : ◌≢◌ {A = ℕ} 8 7
eight-seven e = omega arith

served-Alive : Alive (lookup 7 served.udp_sessions)
unfolding new_system
served-Alive = tt

-- The packet in a stream, to a server without sessions.
frame-Arrives_example : Arrives server_env Udp.uni_stream 7 8 payload client_site served
frame-Arrives_example =
    frame-Arrives server_env Udp.uni_stream 7 8 payload client_site served client_site-IsPacket
      (inl served-mode) refl served-Alive eight-seven

site-resolve : Server.resolve server_env site ≡ success (resolver ∷ second_resolver ∷ [])
unfolding Server.resolve
site-resolve = refl

abbrev connected : Connection
connected = new_connection native 1500 1500

abbrev receiver : PacketSender
receiver = record { sent = []; open' = true }

new_register-count : new_register.count ≡ 1
unfolding new_register
new_register-count = refl

new_register-positive : 0 < new_register.count
unfolding new_register
new_register-positive = omega arith

new_register-pending : (poll_wait 1 new_register).1 ≡ false
unfolding poll_wait new_register
new_register-pending = refl

long_packet-IsCommand : IsCommand (packet 7 4 site)
long_packet-IsCommand = (omega arith, omega arith, site-IsAddress)

parse_datagram_short_example :
    parse_datagram (write_command (packet 7 4 site) [] ++ payload) ≡ panicked
parse_datagram_short_example =
    parse_datagram_short 7 4 site payload long_packet-IsCommand (omega arith)

abbrev busy : Connection
busy = record connected { udp_sessions = (7, receiver) ∷ [] }

busy-sessions : busy.udp_sessions ≢ []
busy-sessions e = cc

-- The first address refuses and the second accepts.
abbrev second_accepts : SocketAddr → List ℕ → Answer IoError ℕ
second_accepts (v4 ip port) name = if ip.d == 2 then success 1 else failure unable_to_connect
second_accepts _ name = failure unable_to_connect

connect-first_example :
    connect
      (λ _. λ _. success (resolver ∷ second_resolver ∷ []))
      second_accepts
      (domain_addr (97 ∷ []) 443)
    ≡ ok 1
connect-first_example =
    connect-first (λ _. λ _. success (resolver ∷ second_resolver ∷ [])) second_accepts (97 ∷ []) 443
      (resolver ∷ []) [] second_resolver 1 refl ((unable_to_connect, refl), tt) refl

-- Three polls that find the close first, the second of them at a tick, and a tick that is first.
abbrev polls : List Round
polls =
    record { close_first = true; ticked = false }
    ∷ record { close_first = true; ticked = true }
    ∷ record { close_first = false; ticked = true }
    ∷ record { close_first = true; ticked = false }
    ∷ []

-- The connection with one UDP session open.
abbrev relaying : Connection
relaying = record connected { udp_sessions = (7, record { sent = []; open' = true }) ∷ [] }

relaying-session : relaying.udp_sessions ≢ []
relaying-session = grind arith

relaying-open : relaying.is_closed.is_closed ≡ false
unfolding new_connection
relaying-open = refl

run_heartbeat-beats_example :
    let (c, goes_on) = run_heartbeat client_env 1 polls relaying in
    (goes_on ≡ true)
    × (c.wire ≡ relaying.wire ++ beats polls)
    × (length c.is_closed.wakers ≡ length relaying.is_closed.wakers + closes_tried polls)
run_heartbeat-beats_example =
    run_heartbeat-beats client_env 1 polls relaying (refl, refl, refl, refl) relaying-session
      relaying-open

polls-beats : length (beats polls) ≡ 2
polls-beats = refl

polls-closes_tried : closes_tried polls ≡ 3
polls-closes_tried = refl
