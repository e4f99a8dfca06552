-- ===== src/EndToEnd/Packet.antt =====
-- One packet of client/src/relay/task.rs at the server of server/src/connection/dispatch.rs, down to
-- the session of server/src/connection/udp.rs that is handed it.
use tuic.Prelude.{
  ℕ, ◌≡◌, ◌≢◌, ◌⊎◌, inl, inr, none, ◌∙◌, ap, List, [], ◌∷◌, ◌++◌, some, ok, success, length,
}
use tuic.Prelude.Table.{lookup}
use tuic.Protocol.Address as Wire
use tuic.Protocol.Command.{packet}
use tuic.Client.Address.{Address, to_tuic}
use tuic.Client.Task as Client
use tuic.Server.Udp.{UdpPacketSource, uni_stream, datagram, send}
use tuic.Server.Udp.Sessions.{handed_to, Alive, send_delivers}
use tuic.Server.Task.{Env}
use tuic.Server.Dispatch.{
  Connection, Outcome, waiting, uni_stream_head, uni_stream_relay, datagram_head, datagram_relay,
}
use tuic.Server.Dispatch.Packets.{Relayed}
use tuic.EndToEnd.{IsPacket, datagram_relay-frame, uni_stream_relay-frame}

-- From one connection to the next a packet was handed to the session of its number, behind those that
-- this session was handed before; the session `other` is as it was, and the relay mode is fixed.
abbrev pub HandedOver :
    UdpPacketSource
    → (assoc_id other : ℕ) → List ℕ × Wire.Address
    → Connection
    → Connection × Outcome
    → Type 0
HandedOver source assoc_id other p c (c', o) =
    (o ≡ ok tt)
    × (c'.udp_packet_from ≡ some source)
    × (handed_to assoc_id c'.udp_sessions ≡ handed_to assoc_id c.udp_sessions ++ (p ∷ []))
    × (lookup other c'.udp_sessions ≡ lookup other c.udp_sessions)

Relayed-HandedOver :
    (env : Env) (source : UdpPacketSource) (assoc_id other : ℕ) (pkt : List ℕ) (addr : Wire.Address)
    (c : Connection) (after : Connection × Outcome)
    → env.bind ≡ success tt
    → Alive (lookup assoc_id c.udp_sessions)
    → other ≢ assoc_id
    → Relayed env c source assoc_id pkt addr after
    → HandedOver source assoc_id other (pkt, addr) c after
Relayed-HandedOver env source assoc_id other pkt addr c (c', o) b alive n (e, fine) =
    let (handed, _, kept) = send_delivers assoc_id other pkt addr c.udp_sessions alive n in
    let sessions : c'.udp_sessions ≡ (send assoc_id pkt addr (success tt) c.udp_sessions).0 =
      ap (λ (d : Connection). d.udp_sessions) e
      ∙ ap (λ bind. (send assoc_id pkt addr bind c.udp_sessions).0) b in
    (
      fine,
      ap (λ (d : Connection). d.udp_packet_from) e,
      ap (handed_to assoc_id) sessions ∙ handed,
      ap (lookup other) sessions ∙ kept,
    )

not_uni_stream :
    (c : Connection)
    → (c.udp_packet_from ≡ none) ⊎ (c.udp_packet_from ≡ some datagram)
    → c.udp_packet_from ≢ some uni_stream
not_uni_stream c (inl n) e = cc
not_uni_stream c (inr m) e = cc

not_datagram :
    (c : Connection)
    → (c.udp_packet_from ≡ none) ⊎ (c.udp_packet_from ≡ some uni_stream)
    → c.udp_packet_from ≢ some datagram
not_datagram c (inl n) e = cc
not_datagram c (inr m) e = cc

-- What becomes of a packet of the client in a datagram, and in a stream of its own: the handler waits
-- with its header for the authentication, and then hands it over.
abbrev pub Arrives :
    Env → UdpPacketSource → (assoc_id other : ℕ) → List ℕ → Address → Connection → Type 0
Arrives env datagram assoc_id other pkt addr c =
    let bytes = Client.frame assoc_id pkt addr in
    let header = packet assoc_id (length pkt) (to_tuic addr) in
    (datagram_head bytes c ≡ (c, waiting (header, bytes)))
    × HandedOver datagram assoc_id other (pkt, to_tuic addr) c
        (datagram_relay env (header, bytes) c)
Arrives env uni_stream assoc_id other pkt addr c =
    let header = packet assoc_id (length pkt) (to_tuic addr) in
    (uni_stream_head (Client.frame assoc_id pkt addr) c ≡ (c, waiting (header, pkt)))
    × HandedOver uni_stream assoc_id other (pkt, to_tuic addr) c
        (uni_stream_relay env (header, pkt) c)

-- A packet that a `Packet` command can announce, sent by the client in a datagram or in a stream of
-- its own to a connection with no relay mode yet or with this one: the handler waits with the packet's
-- header, and its part behind the authentication, where a socket can be bound and the session of this
-- number, if there is one, has its task, hands the session just this payload and address, behind the
-- packets that it was handed before; another session is as it was, and the relay mode is fixed.
pub frame-Arrives :
    (env : Env) (source : UdpPacketSource) (assoc_id other : ℕ) (pkt : List ℕ) (addr : Address)
    (c : Connection)
    → IsPacket assoc_id pkt (to_tuic addr)
    → (c.udp_packet_from ≡ none) ⊎ (c.udp_packet_from ≡ some source)
    → env.bind ≡ success tt
    → Alive (lookup assoc_id c.udp_sessions)
    → other ≢ assoc_id
    → Arrives env source assoc_id other pkt addr c
frame-Arrives env datagram assoc_id other pkt addr c fits m b alive n =
    let (head, relayed) = datagram_relay-frame env assoc_id pkt addr c fits (not_uni_stream c m) in
    (head, Relayed-HandedOver env datagram assoc_id other pkt (to_tuic addr) c _ b alive n relayed)
frame-Arrives env uni_stream assoc_id other pkt addr c fits m b alive n =
    let (head, relayed) = uni_stream_relay-frame env assoc_id pkt addr c fits (not_datagram c m) in
    (
      head,
      Relayed-HandedOver env uni_stream assoc_id other pkt (to_tuic addr) c _ b alive n relayed,
    )
