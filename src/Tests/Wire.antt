-- ===== src/Tests/Wire.antt =====
-- Examples for the wire format of protocol/src/lib.rs.
use tuic.Prelude.{ℕ, ◌≡◌, ◌≢◌, refl, arith, List, [], ◌∷◌, ◌++◌, ok, err, panicked, length}
use tuic.Protocol.Reader.{unexpected_eof, unsupported_version}
use tuic.Protocol.Command.{
  Command, packet, dissociate, heartbeat, read_command, read_body, write_command, command_len,
}
use tuic.Protocol.Command.Validity.{IsCommand}
use tuic.Protocol.Command.RoundTrip.{read_command-write_command}
use tuic.Protocol.Command.Canonical.{read_command_inv}
use tuic.Protocol.Command.Total.{read_command-ne-panicked, read_command_truncated}
use tuic.Protocol.Command.Size.{length-write_command}
use tuic.Tests.{site, site-IsAddress, payload}

abbrev site_packet : Command
site_packet = packet 7 3 site

site_packet-IsCommand : IsCommand site_packet
site_packet-IsCommand = (omega arith, omega arith, site-IsAddress)

read_command-write_command_example :
    read_command (write_command site_packet [] ++ payload) ≡ ok (site_packet, payload)
read_command-write_command_example =
    read_command-write_command site_packet payload site_packet-IsCommand

abbrev heartbeat_bytes : List ℕ
heartbeat_bytes = 4 ∷ 4 ∷ 9 ∷ []

heartbeat_bytes-read : read_command heartbeat_bytes ≡ ok (heartbeat, 9 ∷ [])
unfolding read_command read_body
heartbeat_bytes-read = refl

read_command_inv_example :
    IsCommand heartbeat × (heartbeat_bytes ≡ write_command heartbeat [] ++ (9 ∷ []))
read_command_inv_example =
    read_command_inv heartbeat_bytes heartbeat (9 ∷ []) (omega arith) heartbeat_bytes-read

read_command-ne-panicked_example : read_command (4 ∷ 2 ∷ 0 ∷ 0 ∷ []) ≢ panicked
read_command-ne-panicked_example = read_command-ne-panicked (4 ∷ 2 ∷ 0 ∷ 0 ∷ [])

old_version-read : read_command (3 ∷ []) ≡ err (unsupported_version 3)
unfolding read_command
old_version-read = refl

dissociate-split : write_command (dissociate 7) [] ≡ (4 ∷ 3 ∷ 0 ∷ 0 ∷ 0 ∷ []) ++ (7 ∷ [])
unfolding write_command
dissociate-split = refl

read_command_truncated_example : read_command (4 ∷ 3 ∷ 0 ∷ 0 ∷ 0 ∷ []) ≡ err unexpected_eof
read_command_truncated_example =
    read_command_truncated (dissociate 7) (4 ∷ 3 ∷ 0 ∷ 0 ∷ 0 ∷ []) 7 [] (omega arith)
      dissociate-split

length-write_command_example : length (write_command site_packet []) ≡ command_len site_packet
length-write_command_example = length-write_command site_packet site_packet-IsCommand
