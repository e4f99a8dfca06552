-- ===== src/Server/Start.antt =====
-- server/src/server.rs and server/src/main.rs: how the server starts and what it serves. The sockets
-- and the endpoint of `quinn` are parameters.
pub mod Serving
use tuic.Prelude.{
  ℕ, Bool, false, List, [], ◌∷◌, Option, none, some, Result, ok, err, panicked, Answer, success,
  failure, answered, ◌>>=◌,
}
use tuic.Protocol.Reader.{IoError, IoResult}
use tuic.Protocol.Address.{SocketAddr, v4, v6}
use tuic.Server.Config.{Env, Matches, ConfigError}
use tuic.Server.Config.Build.{Config, parse}
use tuic.Server.Connection.{System, new_system}

-- What the system answers: `bind` of `UdpSocket`; `new`, `set_only_v6` and `bind` of `Socket`; and
-- the making of the endpoint.
pub record Network : Type 0 where
  pub bind_udp : SocketAddr → Answer IoError (Unit {0})
  pub new_socket : Answer IoError (Unit {0})
  pub set_only_v6 : Bool → Answer IoError (Unit {0})
  pub bind_socket : SocketAddr → Answer IoError (Unit {0})
  pub new_endpoint : Answer IoError (Unit {0})

-- `Server`, less the endpoint's stream of connections.
pub record Server : Type 0 where
  pub listen_addr : SocketAddr
  pub token : List (List ℕ)
  pub authentication_timeout : ℕ
  pub max_pkt_size : ℕ

-- An IPv6 socket is opened by hand, to take IPv4 as well.
abbrev open_socket : Network → SocketAddr → IoResult (Unit {0})
open_socket net (v4 ip port) = answered (net.bind_udp (v4 ip port))
open_socket net (v6 ip port flowinfo scope_id) = do
  _ ← answered net.new_socket
  _ ← answered (net.set_only_v6 false)
  answered (net.bind_socket (v6 ip port flowinfo scope_id))

-- `Server::init`.
unfoldable pub init :
    Network
    → SocketAddr
    → (token : List (List ℕ)) → (auth_timeout max_pkt_size : ℕ) → IoResult Server
init net listen_addr token auth_timeout max_pkt_size = do
  _ ← open_socket net listen_addr
  _ ← answered net.new_endpoint
  ok (record {
    listen_addr = listen_addr;
    token = token;
    authentication_timeout = auth_timeout;
    max_pkt_size = max_pkt_size;
  })

-- `Connection::handle` up to its `select!`: a connection whose handshake succeeds is served.
unfoldable pub handle :
    Answer ℕ (Unit {0}) → (token : List (List ℕ)) → (max_pkt_size : ℕ) → Option System
unfolding new_system
handle (success _) token max_pkt_size = some (new_system token max_pkt_size)
handle (failure e) token max_pkt_size = none

-- `Server::run` over the connections that come, each with how its handshake ends.
unfoldable pub run : List (Answer ℕ (Unit {0})) → Server → List (Option System)
unfolding handle
run [] server = []
run (conn ∷ conns) server = handle conn server.token server.max_pkt_size ∷ run conns server

-- How `main` ends: with what it prints, or with status 1 once no connection can come any more.
pub data Exit : Type 0 where
  refused : ConfigError → Exit
  failed : IoError → Exit
  served : List (Option System) → Exit

unfoldable pub start : Network → List (Answer ℕ (Unit {0})) → Config → Result ⊥ Exit
unfolding init run
start net conns config =
    elim (init net config.listen_addr config.token config.authentication_timeout
      config.max_udp_relay_packet_size) [
        | ok server ↦ ok (served (run conns server))
        | err e ↦ ok (failed e)
        | panicked ↦ panicked
      ]

-- `main`.
unfoldable pub main : Env → Network → Answer ℕ Matches → List (Answer ℕ (Unit {0})) → Result ⊥ Exit
unfolding parse start
main env net args conns = elim (parse env args) [
  | ok config ↦ start net conns config
  | err e ↦ ok (refused e)
  | panicked ↦ panicked
]
