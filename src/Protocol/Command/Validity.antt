-- ===== src/Protocol/Command/Validity.antt =====
-- The commands that the wire format can carry: a digest of 32 bytes, an `assoc_id` of 32 bits, a
-- `len` of 16 bits, and an address that the format can carry.
use tuic.Prelude.{◌≡◌, All, length}
use tuic.Prelude.Bytes.{IsByte, IsU16, IsU32}
use tuic.Protocol.Address.Validity.{IsAddress}
use tuic.Protocol.Command.{Command, response, authenticate, connect, packet, dissociate, heartbeat}

abbrev pub IsCommand : Command → Type 0
IsCommand (response is_succeeded) = Unit {0}
IsCommand (authenticate digest) = (length digest ≡ 32) × All IsByte digest
IsCommand (connect addr) = IsAddress addr
IsCommand (packet assoc_id len addr) = IsU32 assoc_id × IsU16 len × IsAddress addr
IsCommand (dissociate assoc_id) = IsU32 assoc_id
IsCommand heartbeat = Unit {0}
