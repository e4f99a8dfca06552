-- ===== src/EndToEnd/Socks5.antt =====
-- From the socks5 side of client/src/socks5 through the requests of client/src/relay to the wire and
-- the server of server/src/connection.
use tuic.Prelude.{
  ℕ, ◌≡◌, ◌≢◌, ◌∙◌, ap, refl, false, List, [], ◌∷◌, ◌++◌, map, none, some, ok, success, append-nil,
  if◌then◌else◌,
}
use tuic.Prelude.Table.{lookup}
use tuic.Protocol.Address as Wire
use tuic.Protocol.Address.Validity.{IsAddress}
use tuic.Protocol.Command.{connect, dissociate, read_command, write_command}
use tuic.Protocol.Command.RoundTrip.{read_command-write_command}
use tuic.Server.Task.{Env}
use tuic.Server.Task as Server
use tuic.Client.Address.{to_tuic}
use tuic.Client.Task.{connect_request}
use tuic.Client.Connection as Relay
use tuic.Client.Request.Associate.{IsWorking, packets_on, associate_sends}
use tuic.Client.Request.Process.{Request, Channels, locked, served, process_request}
use tuic.Client.Socks5 as Socks5
use tuic.Client.Socks5.{Address, to_relay, succeeded, network_unreachable, new_control}
use tuic.Client.Socks5.Associate.{Round, socks5_to_relay}
use tuic.Client.Socks5.Replies.{IsUp, handle_connect-reply}
use tuic.Client.Socks5.Forwarding.{
  unfragmented, for_relay, AllConnect, socks5_to_relay-unfragmented,
}
use tuic.EndToEnd.{any, handle_connect-connect}

-- A socks5 `Connect` whose address the wire format can carry, where the streams and the control
-- connection work and the server resolves the address: the request that the client writes is read by
-- the server as it was meant; on the answer of the server the relay gives a stream exactly when one
-- of the resolved addresses accepts; and with this the socks5 client is answered `Succeeded` and
-- joined to the stream in that case, and `NetworkUnreachable` in the other.
pub process_request-connect :
    (server : Env) (client : Relay.Env) (socks5 : Socks5.Env) (addr : Address)
    (peer : Wire.SocketAddr) (c : Relay.Connection) (channels : Channels)
    (addrs : List Wire.SocketAddr)
    → IsAddress (to_tuic (to_relay addr))
    → client.open_stream ≡ success tt
    → client.write ≡ success tt
    → server.write_header ≡ success tt
    → Server.resolve server (to_tuic (to_relay addr)) ≡ success addrs
    → channels.answer ≡ (Server.connect server (to_tuic (to_relay addr))).written
    → IsUp socks5 peer
    → let reachable = any server.tcp_connect addrs in
      let control = (Socks5.handle_connect socks5 reachable addr new_control).0 in
      (read_command (connect_request (to_relay addr)) ≡ ok (connect (to_tuic (to_relay addr)), []))
      × (process_request client channels (locked (some c)) (Request.connect (to_relay addr))
          ≡ ok (served c reachable))
      × (control.replies
          ≡ (if reachable then succeeded else network_unreachable, socks5.unspecified) ∷ [])
      × (control.is_joined ≡ reachable)
unfolding connect_request process_request
process_request-connect server client socks5 addr peer c channels addrs fits o w wr h answer up =
    let target = to_tuic (to_relay addr) in
    let (_, granted) = handle_connect-connect server client target addrs o w wr h in
    let (_, replies, joined, _) =
      handle_connect-reply socks5 (any server.tcp_connect addrs) addr peer up in
    (
      rw (append-nil (write_command (connect target) [])) at
          (read_command-write_command (connect target) [] fits),
      rw (answer, granted) refl,
      replies,
      joined,
    )

-- A UDP session of the socks5 side whose socket can be connected, over a transport that takes
-- everything: the packets that arrive at the socket before it fails, less the fragments, go on the
-- wire in their order and in the form of the relay mode, and then the `Dissociate` of the session,
-- which is gone from the map of the connection; another session is as it was.
pub process_request-associate :
    (env : Relay.Env) (assoc_id other header size : ℕ) (rounds : List Round) (channels : Channels)
    (c : Relay.Connection)
    → AllConnect rounds
    → channels.packets ≡ (socks5_to_relay header size rounds).0.handed
    → IsWorking env
    → other ≢ assoc_id
    → (after : Relay.Connection) × (process_request env channels
          (locked (some c))
          (Request.associate assoc_id)
        ≡ ok (served after false))
      × (after.wire
          ≡ c.wire
            ++ (packets_on c.udp_relay_mode assoc_id (map for_relay (unfragmented rounds))
                ++ (Relay.uni_stream (write_command (dissociate assoc_id) []) ∷ [])))
      × (lookup assoc_id after.udp_sessions ≡ none)
      × (lookup other after.udp_sessions ≡ lookup other c.udp_sessions)
unfolding process_request
process_request-associate env assoc_id other header size rounds channels c h p working n =
    let handed = (socks5_to_relay-unfragmented header size rounds h).0 in
    let (w, gone, kept) =
      associate_sends env assoc_id other channels.packets channels.pkt_recv_tx c working n in
    let sent = ap (packets_on c.udp_relay_mode assoc_id) (p ∙ handed) in
    (
      _,
      refl,
      w
          ∙ ap
              (λ ws.
                c.wire ++ (ws ++ (Relay.uni_stream (write_command (dissociate assoc_id) []) ∷ [])))
              sent,
      gone,
      kept,
    )
