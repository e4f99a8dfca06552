-- ===== src/Client/Start.antt =====
-- client/src/main.rs, `init` of client/src/relay/mod.rs and `Socks5::init` of
-- client/src/socks5/mod.rs: how the client starts. The sockets are parameters.
use tuic.Prelude.{ℕ, ◌≢◌, arith, Bool, false, Result, ok, err, panicked, Answer, answered, ◌>>=◌}
use tuic.Protocol.Reader.{IoError, IoResult}
use tuic.Protocol.Address.{SocketAddr, v4, v6}
use tuic.Client.Connection.Handshake.{ConnectionConfig}
use tuic.Client.Manage.{Relay, new_relay}
use tuic.Client.Config.{Env, Matches, ConfigError}
use tuic.Client.Config.Build.{Config, Auth, parse}
use tuic.Client.Config.Total.{parse_total}

-- What the system answers: `bind` of `TcpListener`; `new`, `set_only_v6`, `bind` and `listen` of
-- `Socket`; and the making of a listener from it.
pub record Network : Type 0 where
  pub bind_tcp : SocketAddr → Answer IoError (Unit {0})
  pub new_socket : Answer IoError (Unit {0})
  pub set_only_v6 : Bool → Answer IoError (Unit {0})
  pub bind_socket : SocketAddr → Answer IoError (Unit {0})
  pub listen : ℕ → Answer IoError (Unit {0})
  pub from_std : Answer IoError (Unit {0})

-- The relay and the time for which its requests wait for a connection.
pub record Started : Type 0 where
  pub config : ConnectionConfig
  pub relay : Relay
  pub request_timeout : ℕ

-- `relay::init`.
unfoldable pub init_relay : Config → Started
unfolding new_relay
init_relay config = record {
  config = record {
    server_addr = config.server_addr;
    token_digest = config.token_digest;
    udp_relay_mode = config.udp_relay_mode;
    heartbeat_interval = config.heartbeat_interval;
    reduce_rtt = config.reduce_rtt;
    max_udp_relay_packet_size = config.max_udp_relay_packet_size;
  };
  relay = new_relay;
  request_timeout = config.request_timeout;
}

-- The socks5 server: where it listens, and how its clients authenticate.
pub record Socks5 : Type 0 where
  pub local_addr : SocketAddr
  pub auth : Auth

abbrev open_listener : Network → SocketAddr → IoResult (Unit {0})
open_listener net (v4 ip port) = answered (net.bind_tcp (v4 ip port))
open_listener net (v6 ip port flowinfo scope_id) = do
  _ ← answered net.new_socket
  _ ← answered (net.set_only_v6 false)
  _ ← answered (net.bind_socket (v6 ip port flowinfo scope_id))
  _ ← answered (net.listen 128)
  answered net.from_std

-- `Socks5::init`.
unfoldable pub init_socks5 : Network → SocketAddr → Auth → IoResult Socks5
init_socks5 net local_addr auth = do
  _ ← open_listener net local_addr
  ok (record { local_addr = local_addr; auth = auth })

-- How `main` ends: with what it prints, or with status 1 once one of its two parts is over.
pub data Exit : Type 0 where
  refused : ConfigError → Exit
  failed : IoError → Exit
  ran : Started → Socks5 → Exit

abbrev with_socks5 : Started → IoResult Socks5 → Result ⊥ Exit
with_socks5 relay (ok socks5) = ok (ran relay socks5)
with_socks5 relay (err e) = ok (failed e)
with_socks5 relay panicked = panicked

unfoldable pub start : Network → Config → Result ⊥ Exit
unfolding init_relay init_socks5
start net config =
    with_socks5 (init_relay config) (init_socks5 net config.local_addr config.socks5_auth)

-- `main`.
unfoldable pub main : Env → Network → Answer ℕ Matches → Result ⊥ Exit
unfolding parse start
main env net args = elim (parse env args) [
  | ok config ↦ start net config
  | err e ↦ ok (refused e)
  | panicked ↦ panicked
]

start_total : (net : Network) (config : Config) → start net config ≢ panicked
unfolding start
start_total net config p = ground arith

-- The client ends or runs, whatever the command line, the files, the platform's certificates and the
-- network answer: nothing panics before its two parts run.
pub client_main_total :
    (env : Env) (net : Network) (args : Answer ℕ Matches) → main env net args ≢ panicked
unfolding main
client_main_total env net args h =
    let accepted = parse_total env args in let runs = start_total net in ground arith
