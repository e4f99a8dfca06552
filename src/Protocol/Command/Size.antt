-- ===== src/Protocol/Command/Size.antt =====
-- `Command::serialized_len` and `Command::max_serialized_len` against what is written.
use tuic.Prelude.{
  ℕ, ◌+◌, ◌≤◌, ◌≡◌, refl, true, false, arith, List, [], ◌∷◌, ◌++◌, length, length-append, All,
  All-append,
}
use tuic.Prelude.Bytes.{IsByte}
use tuic.Protocol.Address.{Address, write_address, address_len}
use tuic.Protocol.Address.RoundTrip.{write_address-append}
use tuic.Protocol.Address.Size.{length-write_address, address_len-le-max, write_address-IsByte}
use tuic.Protocol.Command.{
  Command, response, authenticate, connect, packet, dissociate, heartbeat, write_command,
  command_len, max_command_len, type_connect, version_byte,
}
use tuic.Protocol.Command.RoundTrip.{packet_head}
use tuic.Protocol.Command.Validity.{IsCommand}

length-address_behind :
    (addr : Address) (buf : List ℕ)
    → length (write_address addr buf) ≡ length buf + address_len addr
length-address_behind addr buf =
    rw (write_address-append addr buf)
      (omega (arith, length-append buf (write_address addr []), length-write_address addr))

-- `serialized_len` of a command that the format can carry is the number of bytes written.
pub length-write_command : (c : Command) → IsCommand c → length (write_command c []) ≡ command_len c
unfolding write_command command_len
length-write_command (response true) h = refl
length-write_command (response false) h = refl
length-write_command (authenticate digest) h = omega (arith, h.0)
length-write_command (connect addr) h =
    omega (arith, length-address_behind addr (version_byte [] ++ (type_connect ∷ [])))
length-write_command (packet assoc_id len addr) h =
    omega (arith, length-address_behind addr (packet_head [] assoc_id len))
length-write_command (dissociate assoc_id) h = refl
length-write_command heartbeat h = refl

-- No command that the format can carry is longer than the maximum.
pub command_len-le-max : (c : Command) → IsCommand c → command_len c ≤ max_command_len
unfolding command_len
command_len-le-max (response b) h = omega arith
command_len-le-max (authenticate digest) h = omega arith
command_len-le-max (connect addr) h = omega (arith, address_len-le-max addr h)
command_len-le-max (packet assoc_id len addr) (_, _, h) = omega (arith, address_len-le-max addr h)
command_len-le-max (dissociate assoc_id) h = omega arith
command_len-le-max heartbeat h = omega arith

-- What is written is bytes.
pub write_command-IsByte : (c : Command) → IsCommand c → All IsByte (write_command c [])
unfolding write_command
write_command-IsByte (response true) h = omega arith
write_command-IsByte (response false) h = omega arith
write_command-IsByte (authenticate digest) (size, bytes) = (omega arith, (omega arith, bytes))
write_command-IsByte (connect addr) h =
    rw (write_address-append addr (version_byte [] ++ (type_connect ∷ [])))
      (omega arith, (omega arith, write_address-IsByte addr h))
write_command-IsByte (packet assoc_id len addr) (ha, hl, h) =
    rw (write_address-append addr (packet_head [] assoc_id len)) (
      All-append IsByte (packet_head [] assoc_id len) (write_address addr []) (omega arith)
        (write_address-IsByte addr h))
write_command-IsByte (dissociate assoc_id) h = omega arith
write_command-IsByte heartbeat h = omega arith
