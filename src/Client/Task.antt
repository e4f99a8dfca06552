-- ===== src/Client/Task.antt =====
-- client/src/relay/task.rs: the relay tasks that the client starts.
use tuic.Prelude.{
  ℕ, ◌%◌, ◌++◌, Bool, true, false, List, [], ◌∷◌, ok, err, panicked, success, failure, answered,
  ◌>>=◌, length,
}
use tuic.Protocol.Reader.{IoResult}
use tuic.Protocol.Command.{
  Command, response, connect, packet, dissociate, read_command, write_command,
}
use tuic.Client.Address.{Address, to_tuic}
use tuic.Client.Connection.{
  Connection, UdpRelayMode, native, quic, Env, send_on_stream, update_max_udp_relay_packet_size,
  datagram,
}

-- A packet behind its header. `pkt.len() as u16` keeps the low 16 bits.
unfoldable pub frame : ℕ → List ℕ → Address → List ℕ
frame assoc_id pkt addr =
    write_command (packet assoc_id (length pkt % 65536) (to_tuic addr)) [] ++ pkt

-- `send_packet` of `handle_packet_to`; its error is logged.
unfoldable pub send_packet :
    Env → ℕ → List ℕ → Address → UdpRelayMode → Connection → Connection × IoResult (Unit {0})
unfolding frame send_on_stream
send_packet env assoc_id pkt addr native c = elim env.try_send_datagram [
  | success _ ↦ (record c { wire = c.wire ++ (datagram (frame assoc_id pkt addr) ∷ []) }, ok tt)
  | failure e ↦ (c, err e)
]
send_packet env assoc_id pkt addr quic c = send_on_stream env (frame assoc_id pkt addr) c

unfoldable pub handle_packet_to :
    Env → ℕ → List ℕ → Address → UdpRelayMode → Connection → Connection
unfolding send_packet update_max_udp_relay_packet_size
handle_packet_to env assoc_id pkt addr mode c =
    (send_packet env assoc_id pkt addr mode (update_max_udp_relay_packet_size env c)).0

-- `handle_dissociate`; its error is logged.
unfoldable pub handle_dissociate : Env → ℕ → Connection → Connection
unfolding send_on_stream
handle_dissociate env assoc_id c = (send_on_stream env (write_command (dissociate assoc_id) []) c).0

-- What `negotiate_connect` writes to the stream it opens.
unfoldable pub connect_request : Address → List ℕ
connect_request addr = write_command (connect (to_tuic addr)) []

-- What it makes of the server's answer: whether the stream is handed to the socks5 side. Every
-- other stream is finished.
unfoldable pub negotiated : Env → Command → IoResult Bool
negotiated env (response true) = ok true
negotiated env cmd = answered env.finish >>= λ _. ok false

unfoldable pub negotiate_connect : Env → List ℕ → IoResult Bool
unfolding negotiated
negotiate_connect env answer = answered env.open_stream >>= λ _. answered env.write >>= λ _.
    elim (read_command answer) [
      | ok (cmd, _) ↦ negotiated env cmd
      | err e ↦ answered env.finish >>= λ _. err e
      | panicked ↦ panicked
    ]

-- `handle_connect`: the stream is sent to the socks5 side, or the sending end is dropped.
unfoldable pub handle_connect : Env → List ℕ → Bool
unfolding negotiate_connect
handle_connect env answer = elim (negotiate_connect env answer) [ ok granted ↦ granted | _ ↦ false ]
