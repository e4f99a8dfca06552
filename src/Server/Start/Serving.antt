-- ===== src/Server/Start/Serving.antt =====
-- What a server of server/src/main.rs gives to a client without a token.
use tuic.Prelude.{
  ℕ, zero, suc, ◌≡◌, ◌≢◌, ◌∙◌, ap, sym, subst, arith, false, List, [], ◌∷◌, Option, none, some,
  Result, ok, panicked, Answer, success, failure, Result-cases, inl, inr,
}
use tuic.Protocol.Reader.{IoError}
use tuic.Server.Config.{Env, Matches}
use tuic.Server.Config.Build.{Config, parse}
use tuic.Server.Config.Total.{parse-ne-panicked}
use tuic.Server.Connection.{System, new_system}
use tuic.Server.Task as Relay
use tuic.Server.Connection as Connection
use tuic.Server.Connection.Guarded.{authed}
use tuic.Server.Connection.Invariant.{AreEvents}
use tuic.Server.Connection.Authentication.{NoneAuthenticates, run-unauthenticated}
use tuic.Server.Start.{Network, Server, init, handle, run, start, served, failed, Exit, main}

-- The connection of a number.
abbrev pub nth {ℓ} : {A : Type ℓ} → ℕ → List A → Option A
nth n [] = none
nth zero (x ∷ xs) = some x
nth (suc n) (x ∷ xs) = nth n xs

served_injective :
    (xs ys : List (Option System))
    → ◌≡◌ {A = Result ⊥ Exit} (ok (served xs)) (ok (served ys))
    → xs ≡ ys
served_injective xs ys h = cc

failed-ne-served :
    (e : IoError) (xs : List (Option System))
    → ◌≢◌ {A = Result ⊥ Exit} (ok (failed e)) (ok (served xs))
failed-ne-served e xs h = cc

panicked-ne-ok : (xs : List (Option System)) → ◌≢◌ {A = Result ⊥ Exit} panicked (ok (served xs))
panicked-ne-ok xs h = cc

run-new_system :
    (conns : List (Answer ℕ (Unit {0}))) (server : Server) (n : ℕ) (s : System)
    → nth n (run conns server) ≡ some (some s)
    → s ≡ new_system server.token server.max_pkt_size
unfolding run handle
run-new_system [] server n s h = absurd (cc h)
run-new_system (success _ ∷ conns) server zero s h = cc
run-new_system (failure e ∷ conns) server zero s h = absurd (cc h)
run-new_system (conn ∷ conns) server (suc n) s h = run-new_system conns server n s h

abbrev init_from : Network → Config → Result IoError Server
init_from net config =
    init net config.listen_addr config.token config.authentication_timeout
      config.max_udp_relay_packet_size

init-fields :
    (net : Network) (config : Config) (server : Server)
    → init_from net config ≡ ok server
    → (server.token ≡ config.token) × (server.max_pkt_size ≡ config.max_udp_relay_packet_size)
unfolding init
init-fields net config server h = ground arith

start-run :
    (net : Network) (conns : List (Answer ℕ (Unit {0}))) (config : Config)
    (systems : List (Option System))
    → start net conns config ≡ ok (served systems)
    → (server : Server) × (init_from net config ≡ ok server) × (run conns server ≡ systems)
unfolding start
start-run net conns config systems h = elim (Result-cases (init_from net config)) [
  | inl (server, e) ↦ (server, e, served_injective _ systems (rw (start, e) at h))
  | inr (inl (x, e)) ↦ absurd (failed-ne-served x systems (rw (start, e) at h))
  | inr (inr e) ↦ absurd (panicked-ne-ok systems (rw (start, e) at h))
]

start-served :
    (net : Network) (conns : List (Answer ℕ (Unit {0}))) (config : Config)
    (systems : List (Option System)) (n : ℕ) (s : System)
    → start net conns config ≡ ok (served systems)
    → nth n systems ≡ some (some s)
    → s ≡ new_system config.token config.max_udp_relay_packet_size
start-served net conns config systems n s h i =
    let (server, e, r) = start-run net conns config systems h in
    let (t, m) = init-fields net config server e in
    let found : nth n (run conns server) ≡ some (some s) = ap (nth n) r ∙ i in
    run-new_system conns server n s found
    ∙ (ap (λ ts. new_system ts server.max_pkt_size) t ∙ ap (new_system config.token) m)

-- A client of a server that runs with these settings, whatever the other connections are: if it
-- sends no `Authenticate` command with the hash of one of the server's tokens, then after any events
-- in any order its connection is not authenticated, has no relay mode and no UDP session, has
-- answered no `Connect` and sent nothing.
pub main-unauthenticated :
    (env : Env) (net : Network) (args : Answer ℕ Matches) (conns : List (Answer ℕ (Unit {0})))
    (config : Config) (systems : List (Option System)) (n : ℕ) (s : System)
    (es : List (Relay.Env × Connection.Event))
    → parse env args ≡ ok config
    → main env net args conns ≡ ok (served systems)
    → nth n systems ≡ some (some s)
    → AreEvents es
    → NoneAuthenticates config.token es
    → let c = (Connection.run es s).conn in
      (authed c ≡ false)
      × (c.udp_packet_from ≡ none)
      × (c.udp_sessions ≡ [])
      × (c.relays ≡ [])
      × (c.sent ≡ [])
unfolding main
main-unauthenticated env net args conns config systems n s es p h i ev quiet =
    let same = start-served net conns config systems n s (rw (main, p) at h) i in
    subst
      (λ (t : System).
        let c = (Connection.run es t).conn in
        (authed c ≡ false)
        × (c.udp_packet_from ≡ none)
        × (c.udp_sessions ≡ [])
        × (c.relays ≡ [])
        × (c.sent ≡ []))
      (sym same) (run-unauthenticated config.token config.max_udp_relay_packet_size es ev quiet)

-- `main` ends or serves, whatever the command line, the files and the network answer: nothing panics
-- before the first connection.
pub server_main_total :
    (env : Env) (net : Network) (args : Answer ℕ Matches) (conns : List (Answer ℕ (Unit {0})))
    → main env net args conns ≢ panicked
unfolding main start init
server_main_total env net args conns h = let accepted = parse-ne-panicked env args in ground arith
