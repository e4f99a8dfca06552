-- ===== src/Protocol/Address/Canonical.antt =====
-- What `Address::read_from` accepts: the bytes that `Address::write_to_buf` writes, and no others.
use tuic.Prelude.{
  ℕ, ◌+◌, ◌<◌, ◌≡◌, arith, All, List, [], ◌∷◌, ◌++◌, ok, err, unwrap, ◌>>=◌, >>=-succeeds,
  if◌then◌else◌, Bool-cases, inl, inr, length, take, drop, take-append-drop, length-take_le,
  length-drop, All-append_left, All-append_right,
}
use native.Mathlib.Nat.{mod-eq_of_lt}
use tuic.Prelude.Bytes.{IsByte, is_utf8}
use tuic.Protocol.Reader.{IoResult, invalid_encoding, read_exact, read_u16}
use tuic.Protocol.Reader.Laws.{be16-of_be16, read_exact_inv}
use tuic.Protocol.Address.{
  Address, domain_address, read_domain, read_ipv4, read_ipv6, read_address, write_address,
  type_domain, type_ipv4, type_ipv6,
}
use tuic.Protocol.Address.Validity.{IsAddress}

-- `r` is the encoding of a valid address less its first byte, followed by `rest`.
abbrev Decodes : ℕ → List ℕ → Address → List ℕ → Type 0
Decodes type r a rest = IsAddress a × ((type ∷ r) ≡ write_address a [] ++ rest)

read_ipv4_inv :
    (r : List ℕ) (a : Address) (rest : List ℕ)
    → All IsByte r
    → read_ipv4 r ≡ ok (a, rest)
    → Decodes type_ipv4 r a rest
unfolding read_ipv4 read_exact write_address
read_ipv4_inv (a ∷ b ∷ c ∷ d ∷ e ∷ f ∷ r) x rest h p = ground (arith, be16-of_be16 e f)
read_ipv4_inv _ x rest h p = cc

read_ipv6_inv :
    (r : List ℕ) (a : Address) (rest : List ℕ)
    → All IsByte r
    → read_ipv6 r ≡ ok (a, rest)
    → Decodes type_ipv6 r a rest
unfolding read_ipv6 read_exact write_address
read_ipv6_inv
      (a0 ∷ b0 ∷ a1 ∷ b1 ∷ a2 ∷ b2 ∷ a3 ∷ b3 ∷ a4 ∷ b4 ∷ a5 ∷ b5 ∷ a6 ∷ b6 ∷ a7 ∷ b7 ∷ a8 ∷ b8 ∷ r)
      x rest h p =
    ground (
      arith,
      be16-of_be16 a0 b0,
      be16-of_be16 a1 b1,
      be16-of_be16 a2 b2,
      be16-of_be16 a3 b3,
      be16-of_be16 a4 b4,
      be16-of_be16 a5 b5,
      be16-of_be16 a6 b6,
      be16-of_be16 a7 b7,
      be16-of_be16 a8 b8,
    )
read_ipv6_inv _ x rest h p = cc

-- The name and its port, once they are in the buffer.
domain_of : List ℕ → List ℕ → List ℕ → IoResult (Address × List ℕ)
domain_of addr tail stream = do
  (port, _) ← unwrap (read_u16 tail)
  if is_utf8 addr then ok (domain_address addr port, stream) else err invalid_encoding

domain_of_inv :
    (addr tail stream : List ℕ) (a : Address) (rest : List ℕ)
    → length addr < 256
    → All IsByte addr
    → All IsByte tail
    → length tail ≡ 2
    → domain_of addr tail stream ≡ ok (a, rest)
    → Decodes type_domain (length addr ∷ ((addr ++ tail) ++ stream)) a rest
unfolding domain_of read_u16 write_address
domain_of_inv addr (x ∷ y ∷ []) stream a rest hl hb ht e p = elim (Bool-cases (is_utf8 addr)) [
  | inl valid ↦ ground (arith, be16-of_be16 x y, mod-eq_of_lt {n = length addr} {m = 256})
  | inr invalid ↦ ground arith
]
domain_of_inv addr _ stream a rest hl hb ht e p = absurd (ground arith)

read_domain_inv :
    (r : List ℕ) (a : Address) (rest : List ℕ)
    → All IsByte r
    → read_domain r ≡ ok (a, rest)
    → Decodes type_domain r a rest
unfolding read_domain domain_of
read_domain_inv [] x rest h p = cc
read_domain_inv (len ∷ r) x rest h p =
    let ((buf, stream), taken, p') = >>=-succeeds _ _ (read_exact (len + 2) r) p in
    let (size, split) = read_exact_inv (len + 2) r buf stream taken in
    let bytes : All IsByte buf = All-append_left IsByte buf stream (rw split at h.1) in
    let parts : take len buf ++ drop len buf ≡ buf = take-append-drop len buf in
    let short : length (take len buf) ≡ len = length-take_le len buf (omega arith) in
    let halves : All IsByte (take len buf ++ drop len buf) = rw parts bytes in
    let found : Decodes type_domain
        (length (take len buf) ∷ ((take len buf ++ drop len buf) ++ stream)) x rest =
      domain_of_inv (take len buf) (drop len buf) stream x rest (omega arith)
        (All-append_left IsByte (take len buf) (drop len buf) halves)
        (All-append_right IsByte (take len buf) (drop len buf) halves)
        (omega (arith, length-drop len buf)) p' in
    rw split (rw (short, parts) at found)

-- A read that succeeds returns an address that the format can carry, and has taken from the stream
-- exactly the bytes that this address is written as.
pub read_address_inv :
    (r : List ℕ) (a : Address) (rest : List ℕ)
    → All IsByte r
    → read_address r ≡ ok (a, rest)
    → IsAddress a × (r ≡ write_address a [] ++ rest)
unfolding read_address
read_address_inv [] x rest h p = cc
read_address_inv (t ∷ r) x rest h p =
    ground
      (arith, read_domain_inv r x rest h.1, read_ipv4_inv r x rest h.1, read_ipv6_inv r x rest h.1)
