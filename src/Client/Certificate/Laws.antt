-- ===== src/Client/Certificate/Laws.antt =====
-- What client/src/certificate.rs puts into the store.
use tuic.Prelude.{
  ℕ, ◌≡◌, ◌≢◌, sym, ap, refl, arith, List, [], ◌∷◌, ◌++◌, ok, panicked, Answer, success, failure,
  answered, map_err, append_assoc, append-nil,
}
use tuic.Protocol.Reader.{IoError}
use tuic.Settings.Files.{
  Item, x509_certificate, rsa_key, pkcs8_key, ec_key, other, x509_certificates,
}
use tuic.Settings.Laws.{step, chain_total, ok_injective}
use tuic.Client.Certificate.{
  Roots, Store, io, native_certificate, add, add_all, add_items, add_files, or_whole_files,
  load_certificates, readable, held, certificates_in, contents, custom,
}

add-append :
    (roots : Roots) (cert : List ℕ) (certs all : Store)
    → add roots cert certs ≡ ok all
    → all ≡ certs ++ (cert ∷ [])
unfolding add
add-append roots cert certs all h = ground arith

add_all-append :
    (roots : Roots) (more certs all : Store)
    → add_all roots more certs ≡ ok all
    → all ≡ certs ++ more
unfolding add_all
add_all-append roots [] certs all h = rw (append-nil certs, ok_injective certs all h) refl
add_all-append roots (cert ∷ rest) certs all h = step _ _ (add roots cert certs) h λ more e r.
    rw
      (
        add_all-append roots rest more all r,
        add-append roots cert certs more e,
        append_assoc certs (cert ∷ []) rest,
      )
      refl

x509_certificates-held :
    (items : List (Answer IoError Item)) → x509_certificates items ≡ held (readable items)
unfolding x509_certificates
x509_certificates-held [] = refl
x509_certificates-held (failure e ∷ items) = refl
x509_certificates-held (success (x509_certificate cert) ∷ items) =
    ap (◌∷◌ cert) (x509_certificates-held items)
x509_certificates-held (success (rsa_key key) ∷ items) = x509_certificates-held items
x509_certificates-held (success (pkcs8_key key) ∷ items) = x509_certificates-held items
x509_certificates-held (success (ec_key key) ∷ items) = x509_certificates-held items
x509_certificates-held (success other ∷ items) = x509_certificates-held items

add_items-append :
    (roots : Roots) (files : List (List ℕ)) (certs all : Store)
    → add_items roots files certs ≡ ok all
    → all ≡ certs ++ certificates_in roots.files files
unfolding add_items certificates_in
add_items-append roots [] certs all h = rw (append-nil certs, ok_injective certs all h) refl
add_items-append roots (file ∷ rest) certs all h =
    step _ _ (map_err (io file) (answered (roots.files.open' file))) h λ items e h1.
      step _ _ (add_all roots (x509_certificates items) certs) h1 λ more e1 h2.
        let opened : roots.files.open' file ≡ success items = ground arith in
        rw
          (
            certificates_in,
            opened,
            add_items-append roots rest more all h2,
            add_all-append roots (x509_certificates items) certs more e1,
            x509_certificates-held items,
            append_assoc certs (held (readable items)) (certificates_in roots.files rest),
          )
          refl

add_files-append :
    (roots : Roots) (files : List (List ℕ)) (certs all : Store)
    → add_files roots files certs ≡ ok all
    → all ≡ certs ++ contents roots.files files
unfolding add_files contents
add_files-append roots [] certs all h = rw (append-nil certs, ok_injective certs all h) refl
add_files-append roots (file ∷ rest) certs all h =
    step _ _ (map_err (io file) (answered (roots.files.read file))) h λ bytes e h1.
      step _ _ (add roots bytes certs) h1 λ more e1 h2.
        let opened : roots.files.read file ≡ success bytes = ground arith in
        rw
          (
            contents,
            opened,
            add_files-append roots rest more all h2,
            add-append roots bytes certs more e1,
            append_assoc certs (bytes ∷ []) (contents roots.files rest),
          )
          refl

or_whole_files-custom :
    (roots : Roots) (files : List (List ℕ)) (found all : Store)
    → found ≡ certificates_in roots.files files
    → or_whole_files roots files found ≡ ok all
    → all ≡ custom roots.files files
unfolding or_whole_files
or_whole_files-custom roots files [] all e h =
    rw (custom, sym e) (add_files-append roots files [] all h)
or_whole_files-custom roots files (cert ∷ certs) all e h =
    rw (custom, sym e) (sym (ok_injective _ all h))

-- A store that loads holds the certificates that stand in the files, in their order and in each file
-- before its first item that cannot be read, or the files themselves where there is no such
-- certificate, and behind them those of the platform, which could be had.
pub load_certificates-custom :
    (roots : Roots) (files : List (List ℕ)) (all : Store)
    → load_certificates roots files ≡ ok all
    → (platform : Store) × (roots.load_native_certs ≡ success platform)
      × (all ≡ custom roots.files files ++ platform)
unfolding load_certificates
load_certificates-custom roots files all h = step _ _ (add_items roots files []) h λ found e h1.
    step _ _ (or_whole_files roots files found) h1 λ mine e1 h2.
      step _ _ (map_err native_certificate (answered roots.load_native_certs)) h2 λ platform e2 h3.
        let there : roots.load_native_certs ≡ success platform = ground arith in
        (
          platform,
          there,
          rw
              (
                add_all-append roots platform mine all h3,
                or_whole_files-custom roots files found mine
                    (add_items-append roots files [] found e) e1,
              )
              refl,
        )

add_total : (roots : Roots) (cert : List ℕ) (certs : Store) → add roots cert certs ≢ panicked
unfolding add
add_total roots cert certs p = ground arith

add_all_total : (roots : Roots) (more certs : Store) → add_all roots more certs ≢ panicked
unfolding add_all
add_all_total roots [] certs = λ p. cc
add_all_total roots (cert ∷ rest) certs =
    chain_total _ _ (add_total roots cert certs) (add_all_total roots rest)

answered_total : {A B E : Type 0} (f : B → E) (a : Answer B A) → map_err f (answered a) ≢ panicked
answered_total f (success a) p = cc
answered_total f (failure e) p = cc

add_items_total :
    (roots : Roots) (files : List (List ℕ)) (certs : Store) → add_items roots files certs ≢ panicked
unfolding add_items
add_items_total roots [] certs = λ p. cc
add_items_total roots (file ∷ rest) certs =
    chain_total _ _ (answered_total _ (roots.files.open' file)) λ items.
      chain_total _ _ (add_all_total roots (x509_certificates items) certs)
        (add_items_total roots rest)

add_files_total :
    (roots : Roots) (files : List (List ℕ)) (certs : Store) → add_files roots files certs ≢ panicked
unfolding add_files
add_files_total roots [] certs = λ p. cc
add_files_total roots (file ∷ rest) certs =
    chain_total _ _ (answered_total _ (roots.files.read file))
      λ bytes. chain_total _ _ (add_total roots bytes certs) (add_files_total roots rest)

or_whole_files_total :
    (roots : Roots) (files : List (List ℕ)) (certs : Store)
    → or_whole_files roots files certs ≢ panicked
unfolding or_whole_files
or_whole_files_total roots files [] = add_files_total roots files []
or_whole_files_total roots files (cert ∷ certs) = λ p. cc

pub load_certificates_total :
    (roots : Roots) (files : List (List ℕ)) → load_certificates roots files ≢ panicked
unfolding load_certificates
load_certificates_total roots files = chain_total _ _ (add_items_total roots files []) λ found.
    chain_total _ _ (or_whole_files_total roots files found) λ mine.
      chain_total _ _ (answered_total _ roots.load_native_certs)
        λ platform. add_all_total roots platform mine
