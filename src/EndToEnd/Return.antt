-- ===== src/EndToEnd/Return.antt =====
-- A UDP packet on its way back: from a socket of server/src/connection/udp.rs through
-- server/src/connection/dispatch.rs and client/src/relay/incoming.rs to the socks5 side.
use tuic.Prelude.{ℕ, ◌≡◌, ◌∙◌, ap, refl, arith, true, List, [], ◌∷◌, ◌++◌, some, ok, success, take}
use tuic.Prelude.Table.{lookup, lookup-insert}
use tuic.Protocol.Address.{SocketAddr}
use tuic.Protocol.Address as Tuic
use tuic.Client.Address.{of_tuic}
use tuic.Client.Address as Client_address
use tuic.Client.Connection.{Connection, UdpRelayMode, native, quic, PacketSender, get_session}
use tuic.Client.Connection as Client
use tuic.Client.Incoming.{
  push_packet, handle_parsed, handle_packet_from, process_incoming_datagram,
  process_incoming_uni_stream,
}
use tuic.Client.Socks5 as Socks5
use tuic.Client.Socks5.Associate.{relay_to_socks5}
use tuic.Server.Udp.{UdpSession, receive_packet}
use tuic.Server.Task.{Env, Sent}
use tuic.Server.Task as Server
use tuic.Server.Dispatch.{process_received_udp_packet}
use tuic.Server.Dispatch as Dispatch
use tuic.Server.Connection.{
  System, finish, after_handler, socket_received, take_received, udp_packet_arrived,
  udp_packet_taken, step, run,
}
use tuic.EndToEnd.{IsPacket, parse-frame}
use tuic.EndToEnd.Delivery.{source_of, while_served}

-- The calls by which the server sends a packet succeed.
abbrev pub CanSend : Env → Type 0
CanSend env =
    (env.open_uni ≡ success tt)
    × (env.write_header ≡ success tt)
    × (env.write_all ≡ success tt)
    × (env.finish ≡ success tt)
    × (env.try_send_datagram ≡ success tt)

-- The form in which the server sends, by the relay mode of its client.
abbrev pub sent_on : UdpRelayMode → List ℕ → Sent
sent_on native bytes = Server.datagram bytes
sent_on quic bytes = Server.uni_stream bytes

-- What the client does with it.
abbrev pub take_in : UdpRelayMode → Client.Env → List ℕ → Connection → Connection
take_in native env bytes c = process_incoming_datagram env bytes c
take_in quic env bytes c = process_incoming_uni_stream env bytes c

goes_back :
    (env : Env) (mode : UdpRelayMode) (assoc_id : ℕ) (pkt : List ℕ) (addr : Tuic.Address)
    (c : Dispatch.Connection)
    → CanSend env
    → c.udp_packet_from ≡ some (source_of mode)
    → process_received_udp_packet env assoc_id pkt addr c
      ≡ (record c { sent = c.sent ++ (sent_on mode (Server.frame assoc_id pkt addr) ∷ []) }, ok tt)
unfolding process_received_udp_packet Server.packet_to_uni_stream Server.packet_to_datagram
goes_back env native assoc_id pkt addr c can m = ground arith
goes_back env quic assoc_id pkt addr c can m = ground arith

received_first :
    (assoc_id : ℕ) (pkt : List ℕ) (from : SocketAddr) (session : UdpSession) (s : System)
    → s.received ≡ []
    → lookup assoc_id s.conn.udp_sessions ≡ some session
    → session.alive ≡ true
    → socket_received assoc_id pkt from s
      ≡ record s { received = (assoc_id, take s.max_pkt_size pkt, Tuic.socket_address from) ∷ [] }
unfolding socket_received receive_packet
received_first assoc_id pkt from session s e l u = ground arith

abbrev arrived : ℕ → List ℕ → Tuic.Address → System → System
arrived assoc_id pkt addr s = record s { received = (assoc_id, pkt, addr) ∷ [] }

taken :
    (env : Env) (mode : UdpRelayMode) (assoc_id : ℕ) (pkt : List ℕ) (addr : Tuic.Address)
    (s : System)
    → CanSend env
    → s.running ≡ true
    → s.conn.udp_packet_from ≡ some (source_of mode)
    → (step env udp_packet_taken (arrived assoc_id pkt addr s)).conn.sent
      ≡ s.conn.sent ++ (sent_on mode (Server.frame assoc_id pkt addr) ∷ [])
unfolding step take_received finish
taken env mode assoc_id pkt addr s can r m =
    let back = goes_back env mode assoc_id pkt addr s.conn can m in
    let rest : System = record s { received = [] } in
    ap (λ (t : System). t.conn.sent)
      (while_served (arrived assoc_id pkt addr s) _ r ∙ ap (after_handler rest) back)

sends_back :
    (env : Env) (mode : UdpRelayMode) (assoc_id : ℕ) (pkt : List ℕ) (from : SocketAddr)
    (session : UdpSession) (s : System)
    → CanSend env
    → s.running ≡ true
    → s.received ≡ []
    → s.conn.udp_packet_from ≡ some (source_of mode)
    → lookup assoc_id s.conn.udp_sessions ≡ some session
    → session.alive ≡ true
    → (run ((env, udp_packet_arrived assoc_id pkt from) ∷ (env, udp_packet_taken) ∷ []) s).conn.sent
      ≡ s.conn.sent
        ++ (sent_on mode
              (Server.frame assoc_id (take s.max_pkt_size pkt) (Tuic.socket_address from))
            ∷ [])
unfolding run step
sends_back env mode assoc_id pkt from session s can r e m l u =
    ap (λ (t : System). (step env udp_packet_taken t).conn.sent)
      (received_first assoc_id pkt from session s e l u)
    ∙ taken env mode assoc_id (take s.max_pkt_size pkt) (Tuic.socket_address from) s can r m

handle_packet_from-push :
    (env : Client.Env) (assoc_id : ℕ) (pkt : List ℕ) (addr : Client_address.Address)
    (c : Connection) (tx : PacketSender)
    → lookup assoc_id c.udp_sessions ≡ some tx
    → tx.open' ≡ true
    → lookup assoc_id (handle_packet_from env assoc_id pkt addr c).udp_sessions
      ≡ some (record tx { sent = tx.sent ++ ((pkt, addr) ∷ []) })
unfolding handle_packet_from
handle_packet_from-push env assoc_id pkt addr c tx l o =
    ground (arith, lookup-insert assoc_id assoc_id (push_packet pkt addr tx) c.udp_sessions)

-- A packet that the client takes in goes behind those of its session.
taken_in :
    (env : Client.Env) (mode : UdpRelayMode) (assoc_id : ℕ) (pkt : List ℕ) (addr : Tuic.Address)
    (c : Connection) (tx : PacketSender)
    → IsPacket assoc_id pkt addr
    → lookup assoc_id c.udp_sessions ≡ some tx
    → tx.open' ≡ true
    → lookup assoc_id (take_in mode env (Server.frame assoc_id pkt addr) c).udp_sessions
      ≡ some (record tx { sent = tx.sent ++ ((pkt, of_tuic addr) ∷ []) })
unfolding process_incoming_datagram process_incoming_uni_stream
taken_in env native assoc_id pkt addr c tx fits l o =
    ap (λ parsed. lookup assoc_id (handle_parsed env parsed c).udp_sessions)
      (parse-frame assoc_id pkt addr fits).0
    ∙ handle_packet_from-push env assoc_id pkt (of_tuic addr) c tx l o
taken_in env quic assoc_id pkt addr c tx fits l o =
    ap (λ parsed. lookup assoc_id (handle_parsed env parsed c).udp_sessions)
      (parse-frame assoc_id pkt addr fits).1
    ∙ handle_packet_from-push env assoc_id pkt (of_tuic addr) c tx l o

-- A packet that arrives at a socket of the server, for a session that both ends have and whose task
-- runs at the server and whose receiver is there at the client, where the server serves the
-- connection and has no other packet to send back, the calls by which it sends succeed, the packet
-- cut to the size of its buffer fits into the format, and its relay mode is that of the client: the
-- server sends one message, which the client takes into this session, cut to that size and with the
-- address of its sender; and its socks5 side, where the socket sends it, sends it on as it is, as no
-- fragment and with this address.
pub process_incoming-returns :
    (server : Env) (client : Client.Env) (mode : UdpRelayMode) (assoc_id : ℕ) (pkt : List ℕ)
    (from : SocketAddr) (session : UdpSession) (s : System) (c : Connection) (tx : PacketSender)
    → CanSend server
    → s.running ≡ true
    → s.received ≡ []
    → s.conn.udp_packet_from ≡ some (source_of mode)
    → lookup assoc_id s.conn.udp_sessions ≡ some session
    → session.alive ≡ true
    → IsPacket assoc_id (take s.max_pkt_size pkt) (Tuic.socket_address from)
    → lookup assoc_id c.udp_sessions ≡ some tx
    → tx.open' ≡ true
    → let cut = take s.max_pkt_size pkt in
      let back = Client_address.socket_address from in
      (bytes : List ℕ) × ((run
          ((server, udp_packet_arrived assoc_id pkt from) ∷ (server, udp_packet_taken) ∷ [])
          s).conn.sent
        ≡ s.conn.sent ++ (sent_on mode bytes ∷ []))
      × (lookup assoc_id (take_in mode client bytes c).udp_sessions
          ≡ some (record tx { sent = tx.sent ++ ((cut, back) ∷ []) }))
      × (relay_to_socks5 (((cut, back), success tt) ∷ [])
          ≡ ((cut, 0, Socks5.socket_address from) ∷ [], success tt))
unfolding relay_to_socks5 of_tuic Socks5.of_relay
process_incoming-returns server client mode assoc_id pkt from session s c tx can r e m l u fits k
      o =
    (
      Server.frame assoc_id (take s.max_pkt_size pkt) (Tuic.socket_address from),
      sends_back server mode assoc_id pkt from session s can r e m l u,
      taken_in client mode assoc_id (take s.max_pkt_size pkt) (Tuic.socket_address from) c tx fits k
          o,
      refl,
    )
