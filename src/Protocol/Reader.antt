-- ===== src/Protocol/Reader.antt =====
-- The readers that protocol/src/lib.rs takes from tokio and `byteorder`, on a stream that is the
-- list of the bytes it still delivers before its end.
pub mod Laws
use tuic.Prelude.{ℕ, List, [], ◌∷◌, Result, ok, err, leb, if◌then◌else◌, length, take, drop}
use tuic.Prelude.Bytes.{of_be16, of_be32}

-- `std::io::Error`, by what it reports. `os` is an error of a socket or of the transport.
pub data IoError : Type 0 where
  unexpected_eof : IoError
  unsupported_version : ℕ → IoError
  invalid_response : ℕ → IoError
  invalid_command : ℕ → IoError
  unsupported_address_type : ℕ → IoError
  invalid_encoding : IoError
  unexpected_incoming : IoError
  unable_to_connect : IoError
  os : ℕ → IoError

abbrev pub IoResult : Type 0 → Type 0
IoResult A = Result IoError A

unfoldable pub read_u8 : List ℕ → IoResult (ℕ × List ℕ)
read_u8 [] = err unexpected_eof
read_u8 (b ∷ r) = ok (b, r)

unfoldable pub read_exact : ℕ → List ℕ → IoResult (List ℕ × List ℕ)
read_exact n r = if leb n (length r) then ok (take n r, drop n r) else err unexpected_eof

unfoldable pub read_u16 : List ℕ → IoResult (ℕ × List ℕ)
read_u16 (a ∷ b ∷ r) = ok (of_be16 a b, r)
read_u16 _ = err unexpected_eof

unfoldable pub read_u32 : List ℕ → IoResult (ℕ × List ℕ)
read_u32 (a ∷ b ∷ c ∷ d ∷ r) = ok (of_be32 a b c d, r)
read_u32 _ = err unexpected_eof
