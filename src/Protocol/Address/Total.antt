-- ===== src/Protocol/Address/Total.antt =====
-- `Address::read_from` on any input: its `unwrap`s never fail, and more input changes no error but
-- the one that says the input ended.
use tuic.Prelude.{
  ℕ, zero, suc, ◌<◌, ◌+◌, ◌≡◌, refl, ◌≢◌, ◌⊎◌, inl, inr, arith, Bool-cases, List, [], ◌∷◌, ◌++◌, ok,
  err, panicked, if◌then◌else◌, leb, length, take, drop, length-append, length-drop, length-take_le,
  leb→le, ap, ◌≤◌,
}
use tuic.Prelude.Bytes.{is_utf8}
use tuic.Protocol.Reader.{IoResult, IoError, unexpected_eof, invalid_encoding, read_exact, read_u16}
use tuic.Protocol.Address.{Address, domain_address, read_domain, read_ipv4, read_ipv6, read_address}

read_ipv4-ne-panicked : (r : List ℕ) → read_ipv4 r ≢ panicked
unfolding read_ipv4 read_exact
read_ipv4-ne-panicked (a ∷ b ∷ c ∷ d ∷ e ∷ f ∷ r) p = ground arith
read_ipv4-ne-panicked _ p = cc

read_ipv6-ne-panicked : (r : List ℕ) → read_ipv6 r ≢ panicked
unfolding read_ipv6 read_exact
read_ipv6-ne-panicked (a ∷ b ∷ c ∷ d ∷ e ∷ f ∷ g ∷ h ∷ i ∷ j ∷ k ∷ l ∷ m ∷ n ∷ o ∷ q ∷ s ∷ t ∷ r)
      p =
    ground arith
read_ipv6-ne-panicked _ p = cc

read_u16-of_length : (xs : List ℕ) → length xs ≡ 2 → (v : ℕ) × (read_u16 xs ≡ ok (v, []))
unfolding read_u16
read_u16-of_length (x ∷ y ∷ []) h = (_, refl)
read_u16-of_length _ h = absurd (ground arith)

-- What a domain name's reader answers once the length and the bytes it asks for are there.
abbrev domain_answer : List ℕ → ℕ → List ℕ → IoResult (Address × List ℕ)
domain_answer addr port stream =
    if is_utf8 addr then ok (domain_address addr port, stream) else err invalid_encoding

read_domain_cases :
    (len : ℕ) (r : List ℕ)
    → ((length r < len + 2) × (read_domain (len ∷ r) ≡ err unexpected_eof))
      ⊎ ((port : ℕ) × (len + 2 ≤ length r)
          × (read_domain (len ∷ r)
              ≡ domain_answer (take len (take (len + 2) r)) port (drop (len + 2) r)))
unfolding read_domain read_exact
read_domain_cases len r = elim (Bool-cases (leb (len + 2) (length r))) [
  | inl enough ↦
      let held : len + 2 ≤ length r = leb→le (len + 2) (length r) enough in
      let (port, e) =
        read_u16-of_length (drop len (take (len + 2) r))
          (omega (arith, length-drop len (take (len + 2) r), length-take_le (len + 2) r held)) in
      inr (port, held, rw (enough, e))
  | inr short ↦ inl (ground arith, rw short)
]

read_domain-ne-panicked : (r : List ℕ) → read_domain r ≢ panicked
read_domain-ne-panicked [] p = unfold read_domain in cc
read_domain-ne-panicked (len ∷ r) p = elim (read_domain_cases len r) [
  | inl (held, e) ↦ cc
  | inr (port, held, e) ↦ ground arith
]

-- No input makes the reader panic.
pub read_address-ne-panicked : (r : List ℕ) → read_address r ≢ panicked
unfolding read_address
read_address-ne-panicked [] p = cc
read_address-ne-panicked (t ∷ r) p =
    ground (arith, read_domain-ne-panicked r, read_ipv4-ne-panicked r, read_ipv6-ne-panicked r)

read_ipv4_final : (r : List ℕ) (e : IoError) → read_ipv4 r ≡ err e → e ≡ unexpected_eof
unfolding read_ipv4 read_exact
read_ipv4_final (a ∷ b ∷ c ∷ d ∷ u ∷ v ∷ r) e p = ground arith
read_ipv4_final _ e p = ground arith

read_ipv6_final : (r : List ℕ) (e : IoError) → read_ipv6 r ≡ err e → e ≡ unexpected_eof
unfolding read_ipv6 read_exact
read_ipv6_final (a ∷ b ∷ c ∷ d ∷ e ∷ f ∷ g ∷ h ∷ i ∷ j ∷ k ∷ l ∷ m ∷ n ∷ o ∷ q ∷ s ∷ t ∷ r) x p =
    ground arith
read_ipv6_final _ x p = ground arith

take-append_le : (n : ℕ) (xs ys : List ℕ) → n ≤ length xs → take n (xs ++ ys) ≡ take n xs
take-append_le zero xs ys h = refl
take-append_le (suc n) [] ys h = absurd (omega arith)
take-append_le (suc n) (x ∷ xs) ys h = ap (◌∷◌ x) (take-append_le n xs ys (omega arith))

read_domain-append_err :
    (r more : List ℕ) (e : IoError)
    → read_domain r ≡ err e
    → (e ≡ unexpected_eof) ⊎ (read_domain (r ++ more) ≡ err e)
read_domain-append_err [] more e p = unfold read_domain in inl (ground arith)
read_domain-append_err (len ∷ r) more e p = ground (
  arith,
  read_domain_cases len r,
  read_domain_cases len (r ++ more),
  length-append r more,
  take-append_le (len + 2) r more,
)

-- An error of the reader is the end of the input, or it stays when the input goes on.
pub read_address-append_err :
    (r more : List ℕ) (e : IoError)
    → read_address r ≡ err e
    → (e ≡ unexpected_eof) ⊎ (read_address (r ++ more) ≡ err e)
unfolding read_address
read_address-append_err [] more e p = inl (ground arith)
read_address-append_err (t ∷ r) more e p =
    ground (arith, read_domain-append_err r more e, read_ipv4_final r e, read_ipv6_final r e)
