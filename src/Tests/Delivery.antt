-- ===== src/Tests/Delivery.antt =====
-- Examples for the way of a UDP packet between the two ends.
use tuic.Prelude.{ℕ, ◌≡◌, refl, arith, true, false, List, [], ◌∷◌, ◌++◌, none, some, success, take}
use tuic.Prelude.Table.{lookup}
use tuic.Protocol.Address as Tuic
use tuic.Protocol.Address.Validity.{IsAddress}
use tuic.Client.Address as Client_address
use tuic.Client.Address.{to_tuic}
use tuic.Client.Connection as Client
use tuic.Client.Connection.{native, PacketSender}
use tuic.Client.Request.Process.{Request}
use tuic.Client.Socks5 as Socks5
use tuic.Client.Socks5.{to_relay}
use tuic.Client.Socks5.Associate.{relay_to_socks5}
use tuic.Server.Udp.{UdpSession, datagram}
use tuic.Server.Connection.{System, new_system, udp_packet_arrived, udp_packet_taken, run}
use tuic.EndToEnd.Return.{sent_on, take_in, process_incoming-returns}
use tuic.Tests.{tokens, payload, resolver, client_env, server_env}
use tuic.Tests.Socks5.{connected}

abbrev fresh : System
fresh = new_system tokens 2

-- An authenticated connection.
abbrev online : System
online = record fresh {
  conn = record fresh.conn {
    is_authenticated = record {
      is_connection_closed = record { is_closed = false; waker = none };
      is_authenticated = true;
      broadcast = [];
    };
  };
}

abbrev session : UdpSession
session = record { queue = []; sent = []; alive = true }

-- A connection with the session 7 and the relay mode of datagrams, whose buffer has two bytes.
abbrev answering : System
answering = record online {
  received = [];
  max_pkt_size = 2;
  conn = record online.conn { udp_packet_from = some datagram; udp_sessions = (7, session) ∷ [] };
}

answering-running : answering.running ≡ true
unfolding new_system
answering-running = refl

abbrev receiver : PacketSender
receiver = record { sent = []; open' = true }

abbrev associated : Client.Connection
associated = record connected { udp_sessions = (7, receiver) ∷ [] }

resolver-IsAddress : IsAddress (Tuic.socket_address resolver)
resolver-IsAddress = ground arith

process_incoming-returns_example :
    let cut = take 2 payload in
    let back = Client_address.socket_address resolver in
    (bytes : List ℕ) × ((run
        ((server_env, udp_packet_arrived 7 payload resolver) ∷ (server_env, udp_packet_taken) ∷ [])
        answering).conn.sent
      ≡ answering.conn.sent ++ (sent_on native bytes ∷ []))
    × (lookup 7 (take_in native client_env bytes associated).udp_sessions
        ≡ some (record receiver { sent = (cut, back) ∷ [] }))
    × (relay_to_socks5 (((cut, back), success tt) ∷ [])
        ≡ ((cut, 0, Socks5.socket_address resolver) ∷ [], success tt))
process_incoming-returns_example =
    process_incoming-returns server_env client_env native 7 payload resolver session answering
      associated receiver (refl, refl, refl, refl, refl) answering-running refl refl refl refl
      (omega arith, omega arith, resolver-IsAddress) refl refl
