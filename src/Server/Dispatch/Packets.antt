-- ===== src/Server/Dispatch/Packets.antt =====
-- How the handlers of server/src/connection/dispatch.rs pass a `Packet` command on.
use tuic.Prelude.{ℕ, ◌≡◌, ◌≢◌, arith, List, some, ok}
use tuic.Prelude.Bytes.{slice_from}
use tuic.Protocol.Reader.{read_exact}
use tuic.Protocol.Address.{Address}
use tuic.Protocol.Command.{Command, packet, read_command, command_len}
use tuic.Server.Udp.{uni_stream, datagram, send}
use tuic.Server.Task.{Env, packet_from_uni_stream, packet_from_datagram}
use tuic.Server.Dispatch.{
  Connection, DispatchError, Outcome, waiting, uni_stream_head, uni_stream_command,
  uni_stream_relay, datagram_head, datagram_relay,
}

-- The connection once a packet went to its session and fixed the relay mode.
abbrev pub Relayed :
    Env
    → Connection
    → tuic.Server.Udp.UdpPacketSource
    → ℕ
    → List ℕ
    → Address
    → Connection × Outcome
    → Type 0
Relayed env c source assoc_id pkt addr (c', o) =
    (c' ≡ record c {
      udp_packet_from = some source;
      udp_sessions = (send assoc_id pkt addr env.bind c.udp_sessions).0;
    })
    × (o ≡ ok tt)

pub datagram_head_ok :
    (pkt r : List ℕ) (cmd : Command) (c : Connection)
    → read_command pkt ≡ ok (cmd, r)
    → datagram_head pkt c ≡ (c, waiting (cmd, pkt))
unfolding datagram_head
datagram_head_ok pkt r cmd c h = rw (h, datagram_head)

pub datagram_relay_packet :
    (env : Env) (assoc_id len : ℕ) (addr : Address) (bytes pkt : List ℕ) (c : Connection)
    → slice_from {E = DispatchError} (command_len (packet assoc_id len addr)) bytes ≡ ok pkt
    → c.udp_packet_from ≢ some uni_stream
    → Relayed env c datagram assoc_id pkt addr
        (datagram_relay env (packet assoc_id len addr, bytes) c)
unfolding datagram_relay packet_from_datagram
datagram_relay_packet env assoc_id len addr bytes pkt c h m = ground arith

pub uni_stream_head_packet :
    (bytes r : List ℕ) (assoc_id len : ℕ) (addr : Address) (c : Connection)
    → read_command bytes ≡ ok (packet assoc_id len addr, r)
    → uni_stream_head bytes c ≡ (c, waiting (packet assoc_id len addr, r))
unfolding uni_stream_head uni_stream_command
uni_stream_head_packet bytes r assoc_id len addr c h = rw (h, uni_stream_head)

pub uni_stream_relay_packet :
    (env : Env) (assoc_id len : ℕ) (addr : Address) (stream pkt r : List ℕ) (c : Connection)
    → read_exact len stream ≡ ok (pkt, r)
    → c.udp_packet_from ≢ some datagram
    → Relayed env c uni_stream assoc_id pkt addr
        (uni_stream_relay env (packet assoc_id len addr, stream) c)
unfolding uni_stream_relay packet_from_uni_stream
uni_stream_relay_packet env assoc_id len addr stream pkt r c h m = ground arith
