-- ===== src/Client/Connection/Connect.antt =====
-- How `Connection::connect` of client/src/relay/connection.rs goes through the addresses.
use tuic.Prelude.{ℕ, ◌≡◌, refl, List, [], ◌∷◌, ◌++◌, Answer, success, failure, ok}
use tuic.Protocol.Reader.{IoError}
use tuic.Protocol.Address.{SocketAddr}
use tuic.Client.Connection.{domain_addr, connect, connect_loop}

-- Every attempt on these addresses fails.
abbrev pub AllFail : {C : Type 0} → (SocketAddr → Answer IoError C) → List SocketAddr → Type 0
AllFail attempt [] = Unit {0}
AllFail attempt (a ∷ as') = ((e : IoError) × (attempt a ≡ failure e)) × AllFail attempt as'

connect_loop-first :
    {C : Type 0} (attempt : SocketAddr → Answer IoError C) (front back : List SocketAddr)
    (a : SocketAddr) (c : C) (last : IoError)
    → AllFail attempt front
    → attempt a ≡ success c
    → connect_loop attempt (front ++ (a ∷ back)) last ≡ ok c
unfolding connect_loop
connect_loop-first attempt [] back a c last h s = rw s refl
connect_loop-first attempt (x ∷ front) back a c last ((e, f), h) s =
    rw f (connect_loop-first attempt front back a c e h s)

-- The client of a server that is given by its name connects to the first resolved address that
-- accepts, whatever the errors of those before it were.
pub connect-first :
    {C : Type 0} (lookup_host : List ℕ → ℕ → Answer IoError (List SocketAddr))
    (connect_addr : SocketAddr → List ℕ → Answer IoError C) (domain : List ℕ) (port : ℕ)
    (front back : List SocketAddr) (a : SocketAddr) (c : C)
    → lookup_host domain port ≡ success (front ++ (a ∷ back))
    → AllFail (λ x. connect_addr x domain) front
    → connect_addr a domain ≡ success c
    → connect lookup_host connect_addr (domain_addr domain port) ≡ ok c
unfolding connect
connect-first lookup_host connect_addr domain port front back a c l h s =
    rw (connect, l) (connect_loop-first (λ x. connect_addr x domain) front back a c _ h s)
