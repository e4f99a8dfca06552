-- ===== src/Protocol/Command/RoundTrip.antt =====
-- `Command::read_from` against `Command::write_to_buf`.
use tuic.Prelude.{ℕ, ◌≡◌, refl, true, false, List, [], ◌∷◌, ◌++◌, ok, append_assoc}
use tuic.Prelude.Bytes.{be16, be32}
use tuic.Protocol.Reader.Laws.{of_be16-be16, of_be32-be32, read_exact-append}
use tuic.Protocol.Address.{write_address}
use tuic.Protocol.Address.RoundTrip.{write_address-append, read_address-write_address}
use tuic.Protocol.Command.{
  Command, response, authenticate, connect, packet, dissociate, heartbeat, read_body, read_response,
  read_authenticate, read_connect, read_packet, read_dissociate, read_command, write_command,
  version_byte, type_connect, type_packet,
}
use tuic.Protocol.Command.Validity.{IsCommand}

-- What stands before the address in a `Packet` command.
abbrev pub packet_head : List ℕ → ℕ → ℕ → List ℕ
packet_head buf assoc_id len =
    ((version_byte buf ++ (type_packet ∷ [])) ++ be32 assoc_id) ++ be16 len

-- The writer appends to the buffer it is given.
pub write_command-append :
    (c : Command) (buf : List ℕ) → write_command c buf ≡ buf ++ write_command c []
unfolding write_command
write_command-append (response true) buf = simp append_assoc
write_command-append (response false) buf = simp append_assoc
write_command-append (authenticate digest) buf = simp append_assoc
write_command-append (connect addr) buf =
    rw
      (
        write_address-append addr (version_byte buf ++ (type_connect ∷ [])),
        write_address-append addr (version_byte [] ++ (type_connect ∷ [])),
      )
      (simp append_assoc)
write_command-append (packet assoc_id len addr) buf =
    rw
      (
        write_address-append addr (packet_head buf assoc_id len),
        write_address-append addr (packet_head [] assoc_id len),
      )
      (simp append_assoc)
write_command-append (dissociate assoc_id) buf = simp append_assoc
write_command-append heartbeat buf = simp append_assoc

-- Whatever command the format can carry is read back, with what follows it left in the stream.
pub read_command-write_command :
    (c : Command) (rest : List ℕ)
    → IsCommand c
    → read_command (write_command c [] ++ rest) ≡ ok (c, rest)
unfolding read_command read_body write_command read_response read_authenticate read_dissociate
    read_connect read_packet
read_command-write_command (response true) rest h = refl
read_command-write_command (response false) rest h = refl
read_command-write_command (authenticate digest) rest (size, bytes) =
    rw (read_exact-append 32 digest rest size)
read_command-write_command (connect addr) rest h =
    rw (write_address-append addr (0x04 ∷ 0x01 ∷ []), read_address-write_address addr rest h)
read_command-write_command (packet assoc_id len addr) rest (ha, hl, h) = rw (
  write_address-append addr (0x04 ∷ 0x02 ∷ (be32 assoc_id ++ be16 len)),
  read_exact-append 6 (be32 assoc_id ++ be16 len) (write_address addr [] ++ rest) refl,
  read_address-write_address addr rest h,
  of_be16-be16 len hl,
  of_be32-be32 assoc_id ha,
)
read_command-write_command (dissociate assoc_id) rest h = rw (of_be32-be32 assoc_id h)
read_command-write_command heartbeat rest h = refl
