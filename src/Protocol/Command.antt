-- ===== src/Protocol/Command.antt =====
-- `Command` of protocol/src/lib.rs: its type, its reader, its writer and its lengths.
pub mod Validity
pub mod RoundTrip
pub mod Canonical
pub mod Total
pub mod Size
use tuic.Prelude.{
  ℕ, ◌+◌, Bool, true, false, List, [], ◌∷◌, ◌++◌, ok, err, unwrap, ◌>>=◌, ◌==◌, if◌then◌else◌,
}
use tuic.Prelude.Bytes.{be16, be32}
use tuic.Protocol.Reader.{
  IoResult, unsupported_version, invalid_response, invalid_command, read_u8, read_u16, read_u32,
  read_exact,
}
use tuic.Protocol.Address.{Address, read_address, write_address, address_len, max_address_len}

abbrev pub tuic_protocol_version : ℕ
tuic_protocol_version = 0x04

-- A digest is a list of 32 bytes.
pub data Command : Type 0 where
  response : Bool → Command
  authenticate : (digest : List ℕ) → Command
  connect : (addr : Address) → Command
  packet : (assoc_id len : ℕ) → (addr : Address) → Command
  dissociate : (assoc_id : ℕ) → Command
  heartbeat : Command

abbrev pub type_response : ℕ
type_response = 0xff

abbrev pub type_authenticate : ℕ
type_authenticate = 0x00

abbrev pub type_connect : ℕ
type_connect = 0x01

abbrev pub type_packet : ℕ
type_packet = 0x02

abbrev pub type_dissociate : ℕ
type_dissociate = 0x03

abbrev pub type_heartbeat : ℕ
type_heartbeat = 0x04

abbrev pub response_succeeded : ℕ
response_succeeded = 0x00

abbrev pub response_failed : ℕ
response_failed = 0xff

unfoldable pub read_response : List ℕ → IoResult (Command × List ℕ)
unfolding read_u8
read_response r = do
  (resp, r) ← read_u8 r
  if resp == response_succeeded
      then ok (response true, r)
      else if resp == response_failed
      then ok (response false, r)
      else err (invalid_response resp)

unfoldable pub read_authenticate : List ℕ → IoResult (Command × List ℕ)
read_authenticate r = do (digest, r) ← read_exact 32 r; ok (authenticate digest, r)

unfoldable pub read_connect : List ℕ → IoResult (Command × List ℕ)
read_connect r = do (addr, r) ← read_address r; ok (connect addr, r)

unfoldable pub read_packet : List ℕ → IoResult (Command × List ℕ)
unfolding read_u16 read_u32
read_packet r = do
  (buf, r) ← read_exact 6 r
  (assoc_id, rdr) ← unwrap (read_u32 buf)
  (len, _) ← unwrap (read_u16 rdr)
  (addr, r) ← read_address r
  ok (packet assoc_id len addr, r)

unfoldable pub read_dissociate : List ℕ → IoResult (Command × List ℕ)
unfolding read_u32
read_dissociate r = do (assoc_id, r) ← read_u32 r; ok (dissociate assoc_id, r)

-- The match on the command's type.
unfoldable pub read_body : ℕ → List ℕ → IoResult (Command × List ℕ)
read_body cmd r =
    if cmd == type_response
    then read_response r
    else if cmd == type_authenticate
    then read_authenticate r
    else if cmd == type_connect
    then read_connect r
    else if cmd == type_packet
    then read_packet r
    else if cmd == type_dissociate
    then read_dissociate r
    else if cmd == type_heartbeat
    then ok (heartbeat, r)
    else err (invalid_command cmd)

-- What follows the version byte.
unfoldable pub read_type : List ℕ → IoResult (Command × List ℕ)
unfolding read_u8
read_type r = do (cmd, r) ← read_u8 r; read_body cmd r

-- `Command::read_from`.
unfoldable pub read_command : List ℕ → IoResult (Command × List ℕ)
unfolding read_u8 read_type
read_command r = do
  (ver, r) ← read_u8 r
  if ver == tuic_protocol_version then read_type r else err (unsupported_version ver)

abbrev pub response_code : Bool → ℕ
response_code true = response_succeeded
response_code false = response_failed

abbrev pub version_byte : List ℕ → List ℕ
version_byte buf = buf ++ (tuic_protocol_version ∷ [])

-- `Command::write_to_buf`, which appends to the buffer.
unfoldable pub write_command : Command → List ℕ → List ℕ
write_command (response is_succeeded) buf =
    (version_byte buf ++ (type_response ∷ [])) ++ (response_code is_succeeded ∷ [])
write_command (authenticate digest) buf = (version_byte buf ++ (type_authenticate ∷ [])) ++ digest
write_command (connect addr) buf = write_address addr (version_byte buf ++ (type_connect ∷ []))
write_command (packet assoc_id len addr) buf =
    write_address addr (((version_byte buf ++ (type_packet ∷ [])) ++ be32 assoc_id) ++ be16 len)
write_command (dissociate assoc_id) buf =
    (version_byte buf ++ (type_dissociate ∷ [])) ++ be32 assoc_id
write_command heartbeat buf = version_byte buf ++ (type_heartbeat ∷ [])

-- `Command::serialized_len`.
unfoldable pub command_len : Command → ℕ
unfolding address_len
command_len (response is_succeeded) = 2 + 1
command_len (authenticate digest) = 2 + 32
command_len (connect addr) = 2 + address_len addr
command_len (packet assoc_id len addr) = 2 + (6 + address_len addr)
command_len (dissociate assoc_id) = 2 + 4
command_len heartbeat = 2 + 0

-- `Command::max_serialized_len`.
abbrev pub max_command_len : ℕ
max_command_len = 2 + 6 + max_address_len
