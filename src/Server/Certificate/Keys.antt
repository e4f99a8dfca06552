-- ===== src/Server/Certificate/Keys.antt =====
-- Which of the keys in its file the server of server/src/certificate.rs takes.
use tuic.Prelude.{
  ℕ, ◌≡◌, ◌≢◌, answered, ◌∙◌, ap, refl, List, [], ◌∷◌, Option, none, some, ok, arith, Answer,
  success, failure,
}
use tuic.Protocol.Reader.{IoError, IoResult}
use tuic.Settings.Files.{Item, x509_certificate, rsa_key, pkcs8_key, ec_key, other, Files}
use tuic.Server.Certificate.{last_key, load_private_key}

-- The keys in a file, of each of the three kinds, before the reading ends.
abbrev pub keys : List (Answer IoError Item) → List (List ℕ)
keys [] = []
keys (failure e ∷ items) = []
keys (success (x509_certificate cert) ∷ items) = keys items
keys (success (rsa_key key) ∷ items) = key ∷ keys items
keys (success (pkcs8_key key) ∷ items) = key ∷ keys items
keys (success (ec_key key) ∷ items) = key ∷ keys items
keys (success other ∷ items) = keys items

-- The last element.
abbrev pub last {ℓ} : {A : Type ℓ} → List A → Option A
last [] = none
last (x ∷ []) = some x
last (x ∷ y ∷ ys) = last (y ∷ ys)

-- The last key of a list, and `before` where there is none.
abbrev last_or : Option (List ℕ) → List (List ℕ) → Option (List ℕ)
last_or before ks = elim (last ks) [ none ↦ before | some key ↦ some key ]

last-ne-none : (k : List ℕ) (ks : List (List ℕ)) → last (k ∷ ks) ≢ none
last-ne-none k [] h = cc
last-ne-none k (l ∷ ks) h = last-ne-none l ks h

last_or-cons :
    (before : Option (List ℕ)) (key : List ℕ) (ks : List (List ℕ))
    → last_or (some key) ks ≡ last_or before (key ∷ ks)
last_or-cons before key [] = refl
last_or-cons before key (k ∷ ks) = let n = last-ne-none k ks in ground arith

last_key-last :
    (before : Option (List ℕ)) (items : List (Answer IoError Item))
    → last_key before items ≡ last_or before (keys items)
unfolding last_key
last_key-last before [] = refl
last_key-last before (failure e ∷ items) = refl
last_key-last before (success (x509_certificate cert) ∷ items) = last_key-last before items
last_key-last before (success (rsa_key key) ∷ items) =
    last_key-last (some key) items ∙ last_or-cons before key (keys items)
last_key-last before (success (pkcs8_key key) ∷ items) =
    last_key-last (some key) items ∙ last_or-cons before key (keys items)
last_key-last before (success (ec_key key) ∷ items) =
    last_key-last (some key) items ∙ last_or-cons before key (keys items)
last_key-last before (success other ∷ items) = last_key-last before items

-- The key, or else the file itself.
abbrev pub key_or_file : Files → List ℕ → Option (List ℕ) → IoResult (List ℕ)
key_or_file files path none = answered (files.read path)
key_or_file files path (some key) = ok key

last_or-none : (ks : List (List ℕ)) → last_or none ks ≡ last ks
last_or-none ks = ground arith

load_private_key_found :
    (files : Files) (path : List ℕ) (items : List (Answer IoError Item))
    → files.open' path ≡ success items
    → load_private_key files path ≡ key_or_file files path (last_key none items)
unfolding load_private_key
load_private_key_found files path items o = ground arith

-- Of the keys in a file that opens, before its first item that cannot be read, the server takes the
-- last one, whatever their kinds and what stands between them; and where there is none, what it reads
-- of the file as a whole is the key, or the error of this.
pub load_private_key-last :
    (files : Files) (path : List ℕ) (items : List (Answer IoError Item))
    → files.open' path ≡ success items
    → load_private_key files path ≡ key_or_file files path (last (keys items))
load_private_key-last files path items o =
    load_private_key_found files path items o
    ∙ ap (key_or_file files path) (last_key-last none items ∙ last_or-none (keys items))
