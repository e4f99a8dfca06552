-- ===== src/Protocol/Reader/Laws.antt =====
-- How the readers and the big-endian writers undo one another.
use tuic.Prelude.{
  ℕ, append-nil, ◌/◌, ◌%◌, ◌≡◌, arith, List, [], ◌∷◌, ◌++◌, ok, length, length-append, take-append,
  drop-append, take-append-drop, length-take_le,
}
use tuic.Prelude.Bytes.{IsByte, IsU16, IsU32, be16, be32, of_be16, of_be32}
use tuic.Protocol.Reader.{read_exact}

pub of_be16-be16 : (n : ℕ) → IsU16 n → of_be16 (n / 256 % 256) (n % 256) ≡ n
of_be16-be16 n h = omega arith

pub of_be32-be32 :
    (n : ℕ) → IsU32 n → of_be32 (n / 16777216 % 256) (n / 65536 % 256) (n / 256 % 256) (n % 256) ≡ n
of_be32-be32 n h = omega arith

pub be16-of_be16 : (a b : ℕ) → IsByte a → IsByte b → be16 (of_be16 a b) ≡ a ∷ b ∷ []
be16-of_be16 a b ha hb = ground arith

pub be32-of_be32 :
    (a b c d : ℕ)
    → IsByte a
    → IsByte b
    → IsByte c
    → IsByte d
    → be32 (of_be32 a b c d) ≡ a ∷ b ∷ c ∷ d ∷ []
be32-of_be32 a b c d ha hb hc hd = ground arith

-- `read_exact` takes the bytes asked for and leaves what follows them.
pub read_exact-append :
    (n : ℕ) (xs rest : List ℕ) → length xs ≡ n → read_exact n (xs ++ rest) ≡ ok (xs, rest)
unfolding read_exact
read_exact-append n xs rest h =
    rw (← h) (ground (arith, length-append xs rest, take-append xs rest, drop-append xs rest))

-- What `read_exact` returns is the front of the stream, of the length asked for.
pub read_exact_inv :
    (n : ℕ) (r buf rest : List ℕ)
    → read_exact n r ≡ ok (buf, rest)
    → (length buf ≡ n) × (r ≡ buf ++ rest)
unfolding read_exact
read_exact_inv n r buf rest h = ground (arith, length-take_le n r, take-append-drop n r)

pub read_exact_all : (n : ℕ) (xs : List ℕ) → length xs ≡ n → read_exact n xs ≡ ok (xs, [])
read_exact_all n xs h = rw append-nil at (read_exact-append n xs [] h)
