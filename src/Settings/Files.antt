-- ===== src/Settings/Files.antt =====
-- What server/src/certificate.rs and client/src/certificate.rs read: the files of certificates and
-- keys.
use tuic.Prelude.{ℕ, List, [], ◌∷◌, Answer, success, failure}
use tuic.Protocol.Reader.{IoError}

-- The items of a PEM file that the patterns of the two files `certificate.rs` tell apart.
pub data Item : Type 0 where
  x509_certificate rsa_key pkcs8_key ec_key : List ℕ → Item
  other : Item

-- The files, as the system and `rustls_pemfile` answer: `open'` opens one and gives what each call
-- of `read_one` finds in it up to its end, which can be an error; `read` gives the bytes of one.
pub record Files : Type 0 where
  pub open' : List ℕ → Answer IoError (List (Answer IoError Item))
  pub read : List ℕ → Answer IoError (List ℕ)

-- The certificates that the loop over `read_one` sees before it ends.
unfoldable pub x509_certificates : List (Answer IoError Item) → List (List ℕ)
x509_certificates [] = []
x509_certificates (failure e ∷ items) = []
x509_certificates (success (x509_certificate cert) ∷ items) = cert ∷ x509_certificates items
x509_certificates (success (rsa_key key) ∷ items) = x509_certificates items
x509_certificates (success (pkcs8_key key) ∷ items) = x509_certificates items
x509_certificates (success (ec_key key) ∷ items) = x509_certificates items
x509_certificates (success other ∷ items) = x509_certificates items
