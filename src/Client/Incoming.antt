-- ===== src/Client/Incoming.antt =====
-- client/src/relay/incoming.rs, and `handle_packet_from` of client/src/relay/task.rs: the packets
-- that the server sends back.
pub mod Short
use tuic.Prelude.{
  ℕ, ◌+◌, Bool, true, false, List, [], ◌∷◌, ◌++◌, Option, none, some, ok, err, panicked, ◌>>=◌,
  if◌then◌else◌,
}
use tuic.Prelude.Bytes.{slice}
use tuic.Prelude.Table.{lookup, insert}
use tuic.Protocol.Reader.{IoError, IoResult, unexpected_incoming, read_exact}
use tuic.Protocol.Command.{
  Command, response, authenticate, connect, packet, dissociate, heartbeat, read_command,
  command_len,
}
use tuic.Client.Address.{Address, of_tuic}
use tuic.Client.Connection.{
  Connection, PacketSender, Env, get_session, update_max_udp_relay_packet_size,
}

-- `parse_header` of `process_incoming_datagram`; the slice panics on a datagram that is too short.
unfoldable pub datagram_payload : List ℕ → Command → IoResult (ℕ × List ℕ × Address)
datagram_payload pkt (packet assoc_id len addr) = do
  let cmd_len = command_len (packet assoc_id len addr)
  payload ← slice cmd_len (cmd_len + len) pkt
  ok (assoc_id, payload, of_tuic addr)
datagram_payload pkt cmd = err unexpected_incoming

unfoldable pub parse_datagram : List ℕ → IoResult (ℕ × List ℕ × Address)
unfolding datagram_payload
parse_datagram pkt = do (cmd, _) ← read_command pkt; datagram_payload pkt cmd

-- `parse_header` of `process_incoming_uni_stream`.
unfoldable pub uni_stream_payload : Command × List ℕ → IoResult (ℕ × List ℕ × Address)
uni_stream_payload (packet assoc_id len addr, recv) = do
  (buf, _) ← read_exact len recv
  ok (assoc_id, buf, of_tuic addr)
uni_stream_payload (cmd, recv) = err unexpected_incoming

unfoldable pub parse_uni_stream : List ℕ → IoResult (ℕ × List ℕ × Address)
unfolding uni_stream_payload
parse_uni_stream recv = do read ← read_command recv; uni_stream_payload read

-- The `send` to a session, whose error (no receiver) is ignored.
unfoldable pub push_packet : List ℕ → Address → PacketSender → PacketSender
push_packet pkt addr tx =
    if tx.open' then record tx { sent = tx.sent ++ ((pkt, addr) ∷ []) } else tx

-- `handle_packet_from`: a packet of no session is dropped.
unfoldable pub handle_packet_from : Env → ℕ → List ℕ → Address → Connection → Connection
unfolding get_session push_packet update_max_udp_relay_packet_size
handle_packet_from env assoc_id pkt addr before =
    let c = update_max_udp_relay_packet_size env before in
    elim (get_session assoc_id c.udp_sessions) [
      | some tx ↦ record c {
        udp_sessions = insert assoc_id (push_packet pkt addr tx) c.udp_sessions;
      }
      | none ↦ c
    ]

abbrev pub handle_parsed : Env → IoResult (ℕ × List ℕ × Address) → Connection → Connection
handle_parsed env (ok (assoc_id, pkt, addr)) c = handle_packet_from env assoc_id pkt addr c
handle_parsed env (err e) c = c
handle_parsed env panicked c = c

-- `process_incoming_datagram` and `process_incoming_uni_stream`.
unfoldable pub process_incoming_datagram : Env → List ℕ → Connection → Connection
unfolding parse_datagram handle_packet_from
process_incoming_datagram env pkt c = handle_parsed env (parse_datagram pkt) c

unfoldable pub process_incoming_uni_stream : Env → List ℕ → Connection → Connection
unfolding parse_uni_stream handle_packet_from
process_incoming_uni_stream env recv c = handle_parsed env (parse_uni_stream recv) c
