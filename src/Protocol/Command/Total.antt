-- ===== src/Protocol/Command/Total.antt =====
-- `Command::read_from` on any input: it never panics, and on a stream that ends too early it
-- reports just that.
use tuic.Prelude.{
  ℕ, ◌≡◌, refl, ◌≢◌, ◌⊎◌, inl, inr, arith, All, List, [], ◌∷◌, ◌++◌, ok, err, panicked,
  append_assoc, append-nil, Result-cases, All-append_left,
}
use tuic.Prelude.Bytes.{IsByte}
use tuic.Protocol.Reader.{IoError, unexpected_eof, read_exact}
use tuic.Protocol.Reader.Laws.{read_exact-append}
use tuic.Protocol.Address.Total.{read_address-ne-panicked, read_address-append_err}
use tuic.Protocol.Command.{
  Command, read_response, read_authenticate, read_connect, read_packet, read_dissociate, read_body,
  read_command, write_command,
}
use tuic.Protocol.Command.Validity.{IsCommand}
use tuic.Protocol.Command.RoundTrip.{read_command-write_command}
use tuic.Protocol.Command.Size.{write_command-IsByte}
use tuic.Protocol.Command.Canonical.{read_command_inv}

read_authenticate-ne-panicked : (r : List ℕ) → read_authenticate r ≢ panicked
unfolding read_authenticate read_exact
read_authenticate-ne-panicked r p = ground arith

read_connect-ne-panicked : (r : List ℕ) → read_connect r ≢ panicked
unfolding read_connect
read_connect-ne-panicked r p = ground (arith, read_address-ne-panicked r)

read_packet-ne-panicked : (r : List ℕ) → read_packet r ≢ panicked
unfolding read_packet
read_packet-ne-panicked (x ∷ y ∷ z ∷ w ∷ u ∷ v ∷ r) p =
    let p1 = rw (read_exact-append 6 (x ∷ y ∷ z ∷ w ∷ u ∷ v ∷ []) r refl) at p in
    ground (arith, read_address-ne-panicked r)
read_packet-ne-panicked _ p = unfold read_exact in cc

read_dissociate-ne-panicked : (r : List ℕ) → read_dissociate r ≢ panicked
unfolding read_dissociate
read_dissociate-ne-panicked (x ∷ y ∷ z ∷ w ∷ r) p = cc
read_dissociate-ne-panicked _ p = cc

-- No input makes the reader panic.
pub read_command-ne-panicked : (r : List ℕ) → read_command r ≢ panicked
unfolding read_command read_body read_response
read_command-ne-panicked [] p = cc
read_command-ne-panicked (ver ∷ []) p = ground arith
read_command-ne-panicked (ver ∷ type ∷ []) p = ground (
  arith,
  read_authenticate-ne-panicked [],
  read_connect-ne-panicked [],
  read_packet-ne-panicked [],
  read_dissociate-ne-panicked [],
)
read_command-ne-panicked (ver ∷ type ∷ b ∷ r) p = ground (
  arith,
  read_authenticate-ne-panicked (b ∷ r),
  read_connect-ne-panicked (b ∷ r),
  read_packet-ne-panicked (b ∷ r),
  read_dissociate-ne-panicked (b ∷ r),
)

read_authenticate_final :
    (r : List ℕ) (e : IoError) → read_authenticate r ≡ err e → e ≡ unexpected_eof
unfolding read_authenticate read_exact
read_authenticate_final r e p = ground arith

read_dissociate_final : (r : List ℕ) (e : IoError) → read_dissociate r ≡ err e → e ≡ unexpected_eof
unfolding read_dissociate
read_dissociate_final (x ∷ y ∷ z ∷ w ∷ r) e p = ground arith
read_dissociate_final _ e p = ground arith

read_connect-append_err :
    (r more : List ℕ) (e : IoError)
    → read_connect r ≡ err e
    → (e ≡ unexpected_eof) ⊎ (read_connect (r ++ more) ≡ err e)
unfolding read_connect
read_connect-append_err r more e p = ground (arith, read_address-append_err r more e)

-- `read_packet` once its six bytes are there.
read_packet-append_err :
    (r more : List ℕ) (e : IoError)
    → read_packet r ≡ err e
    → (e ≡ unexpected_eof) ⊎ (read_packet (r ++ more) ≡ err e)
unfolding read_packet
read_packet-append_err (x ∷ y ∷ z ∷ w ∷ u ∷ v ∷ r) more e p =
    let head : List ℕ = x ∷ y ∷ z ∷ w ∷ u ∷ v ∷ [] in
    let p1 = rw (read_exact-append 6 head r refl) at p in
    rw (read_exact-append 6 head (r ++ more) refl)
      (ground (arith, read_address-append_err r more e))
read_packet-append_err _ more e p = inl (unfold read_exact in ground arith)

-- An error of the reader is the end of the input, or it stays when the input goes on.
pub read_command-append_err :
    (r more : List ℕ) (e : IoError)
    → read_command r ≡ err e
    → (e ≡ unexpected_eof) ⊎ (read_command (r ++ more) ≡ err e)
unfolding read_command read_body read_response
read_command-append_err [] more e p = ground arith
read_command-append_err (ver ∷ []) more e p = ground arith
read_command-append_err (ver ∷ type ∷ []) more e p = ground (
  arith,
  read_authenticate_final [] e,
  read_connect-append_err [] more e,
  read_packet-append_err [] more e,
  read_dissociate_final [] e,
)
read_command-append_err (ver ∷ type ∷ b ∷ r) more e p = ground (
  arith,
  read_authenticate_final (b ∷ r) e,
  read_connect-append_err (b ∷ r) more e,
  read_packet-append_err (b ∷ r) more e,
  read_dissociate_final (b ∷ r) e,
)

-- What was read from bytes stays read when the input goes on, and what goes on is left in the stream.
pub read_command-append_ok :
    (r more : List ℕ) (c : Command) (rest : List ℕ)
    → All IsByte r
    → read_command r ≡ ok (c, rest)
    → read_command (r ++ more) ≡ ok (c, rest ++ more)
read_command-append_ok r more c rest h p =
    let (valid, split) = read_command_inv r c rest h p in
    rw (split, append_assoc (write_command c []) rest more)
      (read_command-write_command c (rest ++ more) valid)

append-nonempty : (xs ys : List ℕ) (y : ℕ) → xs ++ (y ∷ ys) ≢ []
append-nonempty [] ys y e = cc
append-nonempty (x ∷ xs) ys y e = cc

-- Every proper front of the encoding of a command that the format can carry is reported as an input
-- that ended too early.
pub read_command_truncated :
    (c : Command) (front : List ℕ) (x : ℕ) (back : List ℕ)
    → IsCommand c
    → write_command c [] ≡ front ++ (x ∷ back)
    → read_command front ≡ err unexpected_eof
read_command_truncated c front x back valid split =
    let whole : read_command (front ++ (x ∷ back)) ≡ ok (c, []) =
      rw (append-nil, split) at (read_command-write_command c [] valid) in
    let bytes : All IsByte front =
      All-append_left IsByte front (x ∷ back) (rw split at (write_command-IsByte c valid)) in
    elim (Result-cases (read_command front)) [
      | inl ((d, rest), e) ↦ ground (
        arith,
        read_command-append_ok front (x ∷ back) d rest bytes e,
        append-nonempty rest back x,
        whole,
      )
      | inr (inl (e, q)) ↦ ground (arith, read_command-append_err front (x ∷ back) e q, whole)
      | inr (inr q) ↦ absurd (read_command-ne-panicked front q)
    ]
