-- ===== src/Protocol/Command/Canonical.antt =====
-- What `Command::read_from` accepts: the bytes that `Command::write_to_buf` writes, and no others.
use tuic.Prelude.{ℕ, ◌≡◌, refl, arith, All, List, [], ◌∷◌, ◌++◌, ok, >>=-succeeds, All-append_left}
use tuic.Prelude.Bytes.{IsByte}
use tuic.Protocol.Reader.{read_exact}
use tuic.Protocol.Reader.Laws.{be16-of_be16, be32-of_be32, read_exact-append, read_exact_inv}
use tuic.Protocol.Address.{read_address}
use tuic.Protocol.Address.RoundTrip.{write_address-append}
use tuic.Protocol.Address.Canonical.{read_address_inv}
use tuic.Protocol.Command.{
  Command, heartbeat, read_body, read_response, read_authenticate, read_connect, read_packet,
  read_dissociate, read_command, write_command, type_response, type_authenticate, type_connect,
  type_packet, type_dissociate, type_heartbeat, tuic_protocol_version,
}
use tuic.Protocol.Command.Validity.{IsCommand}

-- `r` is the encoding of a valid command less its first two bytes, followed by `rest`.
abbrev Decodes : ℕ → List ℕ → Command → List ℕ → Type 0
Decodes type r c rest =
    IsCommand c × ((tuic_protocol_version ∷ type ∷ r) ≡ write_command c [] ++ rest)

read_response_inv :
    (r : List ℕ) (c : Command) (rest : List ℕ)
    → read_response r ≡ ok (c, rest)
    → Decodes type_response r c rest
unfolding read_response write_command
read_response_inv [] c rest p = cc
read_response_inv (b ∷ r) c rest p = ground arith

read_authenticate_inv :
    (r : List ℕ) (c : Command) (rest : List ℕ)
    → All IsByte r
    → read_authenticate r ≡ ok (c, rest)
    → Decodes type_authenticate r c rest
unfolding read_authenticate write_command
read_authenticate_inv r c rest h p =
    let ((digest, stream), taken, p') = >>=-succeeds _ _ (read_exact 32 r) p in
    let (size, split) = read_exact_inv 32 r digest stream taken in
    let bytes : All IsByte digest = All-append_left IsByte digest stream (rw split at h) in
    rw split (ground arith)

read_connect_inv :
    (r : List ℕ) (c : Command) (rest : List ℕ)
    → All IsByte r
    → read_connect r ≡ ok (c, rest)
    → Decodes type_connect r c rest
unfolding read_connect write_command
read_connect_inv r c rest h p =
    let ((addr, stream), taken, p') = >>=-succeeds _ _ (read_address r) p in
    let (valid, split) = read_address_inv r addr stream h taken in
    rw split (ground (arith, write_address-append addr (tuic_protocol_version ∷ type_connect ∷ [])))

read_packet_inv :
    (r : List ℕ) (c : Command) (rest : List ℕ)
    → All IsByte r
    → read_packet r ≡ ok (c, rest)
    → Decodes type_packet r c rest
unfolding read_packet write_command
read_packet_inv (x ∷ y ∷ z ∷ w ∷ u ∷ v ∷ r) c rest h p =
    let head : List ℕ = x ∷ y ∷ z ∷ w ∷ u ∷ v ∷ [] in
    let p1 = rw (read_exact-append 6 head r refl) at p in
    let ((addr, stream), taken, p') = >>=-succeeds _ _ (read_address r) p1 in
    let (valid, split) = read_address_inv r addr stream h.1.1.1.1.1.1 taken in
    rw split (
      ground (
        arith,
        be32-of_be32 x y z w,
        be16-of_be16 u v,
        write_address-append addr
            (tuic_protocol_version ∷ type_packet ∷ x ∷ y ∷ z ∷ w ∷ u ∷ v ∷ []),
      ))
read_packet_inv _ c rest h p = unfold read_exact in cc

read_dissociate_inv :
    (r : List ℕ) (c : Command) (rest : List ℕ)
    → All IsByte r
    → read_dissociate r ≡ ok (c, rest)
    → Decodes type_dissociate r c rest
unfolding read_dissociate write_command
read_dissociate_inv (x ∷ y ∷ z ∷ w ∷ r) c rest h p = ground (arith, be32-of_be32 x y z w)
read_dissociate_inv _ c rest h p = cc

heartbeat_written : write_command heartbeat [] ≡ tuic_protocol_version ∷ type_heartbeat ∷ []
unfolding write_command
heartbeat_written = refl

-- A read of bytes that succeeds returns a command that the format can carry, and has taken from the stream
-- exactly the bytes that this command is written as.
pub read_command_inv :
    (r : List ℕ) (c : Command) (rest : List ℕ)
    → All IsByte r
    → read_command r ≡ ok (c, rest)
    → IsCommand c × (r ≡ write_command c [] ++ rest)
unfolding read_command read_body
read_command_inv [] c rest h p = cc
read_command_inv (ver ∷ []) c rest h p = ground arith
read_command_inv (ver ∷ type ∷ r) c rest h p = ground (
  arith,
  read_response_inv r c rest,
  read_authenticate_inv r c rest h.1.1,
  read_connect_inv r c rest h.1.1,
  read_packet_inv r c rest h.1.1,
  read_dissociate_inv r c rest h.1.1,
  heartbeat_written,
)
