-- ===== src/Client/Incoming/Short.antt =====
-- Datagrams that client/src/relay/incoming.rs cannot take apart.
use tuic.Prelude.{ℕ, ◌≡◌, ◌<◌, arith, List, [], ◌++◌, panicked, length, length-append}
use tuic.Protocol.Address.{Address}
use tuic.Protocol.Command.{packet, write_command}
use tuic.Protocol.Command.Validity.{IsCommand}
use tuic.Protocol.Command.RoundTrip.{read_command-write_command}
use tuic.Protocol.Command.Size.{length-write_command}
use tuic.Client.Incoming.{parse_datagram}

-- A datagram from the server whose payload is shorter than its header says makes the task that
-- parses it panic.
pub parse_datagram_short :
    (assoc_id len : ℕ) (addr : Address) (payload : List ℕ)
    → IsCommand (packet assoc_id len addr)
    → length payload < len
    → parse_datagram (write_command (packet assoc_id len addr) [] ++ payload) ≡ panicked
unfolding parse_datagram
parse_datagram_short assoc_id len addr payload valid short =
    rw (read_command-write_command (packet assoc_id len addr) payload valid) (
      ground (
        arith,
        length-append (write_command (packet assoc_id len addr) []) payload,
        length-write_command (packet assoc_id len addr) valid,
      ))
