-- ===== src/Client/Certificate.antt =====
-- client/src/certificate.rs: the root certificates of the client. The store of rustls is the list of
-- the certificates that were added to it.
pub mod Laws
use tuic.Prelude.{
  ℕ, ◌≡◌, ◌≢◌, refl, arith, List, [], ◌∷◌, ◌++◌, Option, none, some, Result, ok, err, panicked,
  Answer, success, failure, answered, map_err, ◌>>=◌, append_assoc, append-nil,
}
use tuic.Protocol.Reader.{IoError}
use tuic.Settings.Files.{
  Item, x509_certificate, rsa_key, pkcs8_key, ec_key, other, Files, x509_certificates,
}

-- The errors of `ConfigError` that the loading has.
pub data CertificateError : Type 0 where
  io : (path : List ℕ) → IoError → CertificateError
  certificate : ℕ → CertificateError
  native_certificate : IoError → CertificateError

-- The files, the store's check of a certificate that is added to it, and the platform's own
-- certificates.
pub record Roots : Type 0 where
  pub files : Files
  pub check : List ℕ → Answer ℕ (Unit {0})
  pub load_native_certs : Answer IoError (List (List ℕ))

abbrev pub Store : Type 0
Store = List (List ℕ)

abbrev Loaded : Type 0
Loaded = Result CertificateError Store

-- `RootCertStore::add`, which puts the certificate behind the others.
unfoldable pub add : Roots → List ℕ → Store → Loaded
add roots cert certs =
    map_err certificate (answered (roots.check cert)) >>= λ _. ok (certs ++ (cert ∷ []))

-- The loop over the certificates of one file, and the one over those of the platform.
unfoldable pub add_all : Roots → List (List ℕ) → Store → Loaded
unfolding add
add_all roots [] certs = ok certs
add_all roots (cert ∷ rest) certs = add roots cert certs >>= λ more. add_all roots rest more

-- The first loop over the files: the certificates in them.
unfoldable pub add_items : Roots → List (List ℕ) → Store → Loaded
unfolding add_all x509_certificates
add_items roots [] certs = ok certs
add_items roots (file ∷ rest) certs = do
  items ← map_err (io file) (answered (roots.files.open' file))
  more ← add_all roots (x509_certificates items) certs
  add_items roots rest more

-- The second one: each file as one certificate.
unfoldable pub add_files : Roots → List (List ℕ) → Store → Loaded
unfolding add
add_files roots [] certs = ok certs
add_files roots (file ∷ rest) certs = do
  bytes ← map_err (io file) (answered (roots.files.read file))
  more ← add roots bytes certs
  add_files roots rest more

unfoldable pub or_whole_files : Roots → List (List ℕ) → Store → Loaded
unfolding add_files
or_whole_files roots files [] = add_files roots files []
or_whole_files roots files (cert ∷ certs) = ok (cert ∷ certs)

unfoldable pub load_certificates : Roots → List (List ℕ) → Loaded
unfolding add_items or_whole_files add_all
load_certificates roots files = do
  found ← add_items roots files []
  custom ← or_whole_files roots files found
  platform ← map_err native_certificate (answered roots.load_native_certs)
  add_all roots platform custom

-- The items of a file before the first that cannot be read.
abbrev pub readable : List (Answer IoError Item) → List Item
readable [] = []
readable (failure e ∷ items) = []
readable (success item ∷ items) = item ∷ readable items

-- The certificate that an item is, if it is one.
abbrev pub certificate_of : Item → List (List ℕ)
certificate_of (x509_certificate cert) = cert ∷ []
certificate_of (rsa_key key) = []
certificate_of (pkcs8_key key) = []
certificate_of (ec_key key) = []
certificate_of other = []

abbrev pub held : List Item → List (List ℕ)
held [] = []
held (item ∷ items) = certificate_of item ++ held items

-- The certificates that the files hold, in the order of the files, of those that can be opened.
unfoldable pub certificates_in : Files → List (List ℕ) → List (List ℕ)
certificates_in files [] = []
certificates_in files (file ∷ rest) =
    let others = certificates_in files rest in
    elim (files.open' file) [ success items ↦ held (readable items) ++ others | failure e ↦ others ]

-- The bytes of the files that can be read.
unfoldable pub contents : Files → List (List ℕ) → List (List ℕ)
contents files [] = []
contents files (file ∷ rest) =
    let others = contents files rest in
    elim (files.read file) [ success bytes ↦ bytes ∷ others | failure e ↦ others ]

-- What stands in the store of a client: the certificates in the files, or the files themselves where
-- none of them holds one.
abbrev pub custom : Files → List (List ℕ) → List (List ℕ)
custom files paths = elim (certificates_in files paths) [
  | [] ↦ contents files paths
  | cert ∷ certs ↦ cert ∷ certs
]
