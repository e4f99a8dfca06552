-- ===== src/Server/Certificate.antt =====
-- server/src/certificate.rs: the certificates and the private key of the server.
pub mod Keys
use tuic.Prelude.{
  ℕ, ◌≡◌, ◌≢◌, refl, arith, List, [], ◌∷◌, Option, none, some, ok, err, panicked, Answer, success,
  failure, answered, ◌>>=◌,
}
use tuic.Protocol.Reader.{IoError, IoResult}
use tuic.Settings.Files.{
  Item, x509_certificate, rsa_key, pkcs8_key, ec_key, other, Files, x509_certificates,
}

-- The certificates that were found, and else the file itself as one.
unfoldable pub or_whole_file : Files → List ℕ → List (List ℕ) → IoResult (List (List ℕ))
or_whole_file files path [] = answered (files.read path) >>= λ bytes. ok (bytes ∷ [])
or_whole_file files path (cert ∷ certs) = ok (cert ∷ certs)

unfoldable pub load_certificates : Files → List ℕ → IoResult (List (List ℕ))
unfolding x509_certificates or_whole_file
load_certificates files path =
    answered (files.open' path) >>= λ items. or_whole_file files path (x509_certificates items)

-- The loop over `read_one`, with the key that it holds: a later one takes its place.
unfoldable pub last_key : Option (List ℕ) → List (Answer IoError Item) → Option (List ℕ)
last_key priv_key [] = priv_key
last_key priv_key (failure e ∷ items) = priv_key
last_key priv_key (success (x509_certificate cert) ∷ items) = last_key priv_key items
last_key priv_key (success (rsa_key key) ∷ items) = last_key (some key) items
last_key priv_key (success (pkcs8_key key) ∷ items) = last_key (some key) items
last_key priv_key (success (ec_key key) ∷ items) = last_key (some key) items
last_key priv_key (success other ∷ items) = last_key priv_key items

unfoldable pub load_private_key : Files → List ℕ → IoResult (List ℕ)
unfolding last_key
load_private_key files path = answered (files.open' path) >>= λ items. elim (last_key none items) [
  | some key ↦ ok key
  | none ↦ answered (files.read path)
]

-- A server that starts has a certificate.
pub load_certificates-ne-nil :
    (files : Files) (path : List ℕ) (certs : List (List ℕ))
    → load_certificates files path ≡ ok certs
    → certs ≢ []
unfolding load_certificates
load_certificates-ne-nil files path certs h p = ground arith

pub load_certificates_total :
    (files : Files) (path : List ℕ) → load_certificates files path ≢ panicked
unfolding load_certificates
load_certificates_total files path p = ground arith

pub load_private_key_total :
    (files : Files) (path : List ℕ) → load_private_key files path ≢ panicked
unfolding load_private_key
load_private_key_total files path p = ground arith
