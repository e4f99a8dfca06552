-- ===== src/Client/Request/Associate.antt =====
-- What an `Associate` request of client/src/relay/request.rs leaves behind.
use tuic.Prelude.{
  ℕ, ◌≡◌, ◌≢◌, ◌∙◌, sym, refl, arith, List, [], ◌∷◌, ◌++◌, none, success, append_assoc, append-nil,
}
use tuic.Prelude.Table.{lookup, insert, lookup-remove, lookup-insert}
use tuic.Protocol.Command.{dissociate, write_command}
use tuic.Client.Address.{Address}
use tuic.Client.Connection.{
  Connection, UdpRelayMode, native, quic, PacketSender, Env, Wire, uni_stream, datagram,
}
use tuic.Client.Task.{frame, handle_packet_to, handle_dissociate}
use tuic.Client.Request.{send_packets, associate}

-- The transport takes everything.
abbrev pub IsWorking : Env → Type 0
IsWorking env =
    (env.open_stream ≡ success tt)
    × (env.write ≡ success tt)
    × (env.finish ≡ success tt)
    × (env.try_send_datagram ≡ success tt)

-- The form in which a relay mode sends a packet.
abbrev pub packet_on : UdpRelayMode → ℕ → List ℕ × Address → Wire
packet_on native assoc_id (pkt, addr) = datagram (frame assoc_id pkt addr)
packet_on quic assoc_id (pkt, addr) = uni_stream (frame assoc_id pkt addr)

abbrev pub packets_on : UdpRelayMode → ℕ → List (List ℕ × Address) → List Wire
packets_on mode assoc_id [] = []
packets_on mode assoc_id (p ∷ ps) = packet_on mode assoc_id p ∷ packets_on mode assoc_id ps

-- A packet is put on the wire in the form of the mode, and the sessions and the mode stay.
handle_packet_to_sends :
    (env : Env) (assoc_id : ℕ) (pkt : List ℕ) (addr : Address) (mode : UdpRelayMode)
    (c : Connection)
    → IsWorking env
    → let c' = handle_packet_to env assoc_id pkt addr mode c in
      (c'.wire ≡ c.wire ++ (packet_on mode assoc_id (pkt, addr) ∷ []))
      × (c'.udp_sessions ≡ c.udp_sessions)
      × (c'.udp_relay_mode ≡ c.udp_relay_mode)
unfolding handle_packet_to
handle_packet_to_sends env assoc_id pkt addr native c h = ground arith
handle_packet_to_sends env assoc_id pkt addr quic c h = ground arith

send_packets_sends :
    (env : Env) (assoc_id : ℕ) (ps : List (List ℕ × Address)) (c : Connection)
    → IsWorking env
    → let c' = send_packets env assoc_id ps c in
      (c'.wire ≡ c.wire ++ packets_on c.udp_relay_mode assoc_id ps)
      × (c'.udp_sessions ≡ c.udp_sessions)
unfolding send_packets
send_packets_sends env assoc_id [] c h = (sym (append-nil c.wire), refl)
send_packets_sends env assoc_id ((pkt, addr) ∷ ps) c h =
    let (w, s, m) = handle_packet_to_sends env assoc_id pkt addr c.udp_relay_mode c h in
    let (w', s') =
      send_packets_sends env assoc_id ps (handle_packet_to env assoc_id pkt addr c.udp_relay_mode c)
        h in
    (
      w'
          ∙ rw (w, m)
              (append_assoc c.wire (packet_on c.udp_relay_mode assoc_id (pkt, addr) ∷ [])
                (packets_on c.udp_relay_mode assoc_id ps)),
      s' ∙ s,
    )

-- Over a transport that takes everything, an `Associate` request puts each packet on the wire in
-- the form of the connection's relay mode, in order, and then the `Dissociate` of its session; the
-- session is gone from the map afterwards, and another session is as it was.
pub associate_sends :
    (env : Env) (assoc_id other : ℕ) (ps : List (List ℕ × Address)) (tx : PacketSender)
    (c : Connection)
    → IsWorking env
    → other ≢ assoc_id
    → let c' = associate env assoc_id ps tx c in
      (c'.wire
        ≡ c.wire
          ++ (packets_on c.udp_relay_mode assoc_id ps
              ++ (uni_stream (write_command (dissociate assoc_id) []) ∷ [])))
      × (lookup assoc_id c'.udp_sessions ≡ none)
      × (lookup other c'.udp_sessions ≡ lookup other c.udp_sessions)
unfolding associate handle_dissociate
associate_sends env assoc_id other ps tx c h n =
    let opened = record c { udp_sessions = insert assoc_id tx c.udp_sessions } in
    let (w, s) = send_packets_sends env assoc_id ps opened h in
    let sessions = insert assoc_id tx c.udp_sessions in
    ground (
      arith,
      append_assoc c.wire (packets_on c.udp_relay_mode assoc_id ps)
          (uni_stream (write_command (dissociate assoc_id) []) ∷ []),
      lookup-remove assoc_id assoc_id sessions,
      lookup-remove assoc_id other sessions,
      lookup-insert assoc_id other tx c.udp_sessions,
    )
