-- ===== src/Tests/Login.antt =====
-- Examples for the start of the two programs and the login between the two ends.
use tuic.Prelude.{
  ℕ, ◌≡◌, ◌≢◌, refl, arith, true, false, List, Option, [], ◌∷◌, none, some, ok, panicked, Answer,
  success, failure,
}
use tuic.Protocol.Reader.{unexpected_eof}
use tuic.Protocol.Command.{authenticate}
use tuic.Protocol.Command.Validity.{IsCommand}
use tuic.Settings.{info}
use tuic.Settings.{parse_below}
use tuic.Client.Connection.{quic}
use tuic.Client.Connection as Relay
use tuic.Client.Config.{cubic}
use tuic.Client.Config.Build.{Config, no_auth, build}
use tuic.Server.Config as Server
use tuic.Server.Config.Default.{default_config}
use tuic.Server.Config.Parse as ServerParse
use tuic.Server.Config.Build as ServerBuild
use tuic.Protocol.Address.{v4}
use tuic.Server.Dispatch.{contains}
use tuic.Server.Connection.{new_system, uni_stream_opened}
use tuic.Server.Connection as ServerConnection
use tuic.Server.Connection.Guarded.{authed}
use tuic.Server.Connection.{System}
use tuic.Server.Start as ServerStart
use tuic.Server.Start.Serving.{main-unauthenticated, server_main_total}
use tuic.Client.Start as ClientStart
use tuic.Client.Start.{client_main_total}
use tuic.Tests.Serving.{intruder, wrong_digest-presents}
use tuic.EndToEnd.Login.{authed-send_authentication}
use tuic.Tests.{tokens, digest, wrong_digest, client_env, server_env}
use tuic.Tests.Starting.{files, env, flags, settled}

-- What the client's settings make of it.
abbrev config : Config
config = record {
  certificates = (9 ∷ []) ∷ [];
  alpn = [];
  enable_sni = false;
  congestion_controller = cubic;
  server_addr = Relay.domain_addr (97 ∷ []) 80;
  token_digest = digest;
  udp_relay_mode = quic;
  heartbeat_interval = 10000;
  reduce_rtt = true;
  request_timeout = 8000;
  max_udp_relay_packet_size = 1500;
  local_addr = v4 (record { a = 127; b = 0; c = 0; d = 1 }) 1080;
  socks5_auth = no_auth;
  log_level = info;
}

settled-build : build env settled ≡ ok config
unfolding build
settled-build = refl

-- A server with two tokens, of which the client has the second.
abbrev server_raw : Server.RawConfig
server_raw = record default_config {
  port = some 443;
  token = wrong_digest ∷ digest ∷ [];
  certificate = some (120 ∷ []);
  private_key = some (121 ∷ []);
}

abbrev server_settings : Server.Env
server_settings = record {
  open_json = λ _. failure unexpected_eof;
  parse_ip = λ _. none;
  parse_level = λ _. some info;
  files = files;
  with_single_cert = λ _. λ _. success tt;
  hash = λ t. t;
}

abbrev server_config : ServerBuild.Config
server_config = record {
  certificates = (5 ∷ []) ∷ [];
  private_key = 2 ∷ [];
  alpn = [];
  congestion_controller = Server.cubic;
  max_idle_time = 15000;
  listen_addr = v4 (record { a = 0; b = 0; c = 0; d = 0 }) 443;
  token = wrong_digest ∷ digest ∷ [];
  authentication_timeout = 1000000;
  max_udp_relay_packet_size = 1500;
  log_level = info;
}

server_raw-build : ServerBuild.build server_settings server_raw ≡ ok server_config
unfolding ServerBuild.build
server_raw-build = refl

digest-IsCommand : IsCommand (authenticate digest)
digest-IsCommand = ground arith

authed-send_authentication_example :
    (bytes : List ℕ) × ((Relay.send_authentication client_env config.token_digest
        (Relay.new_connection quic 1500 1200)).wire
      ≡ Relay.uni_stream bytes ∷ [])
    × (authed
          (ServerConnection.step server_env
            (uni_stream_opened bytes)
            (new_system server_config.token 1500)).conn
        ≡ contains digest server_raw.token)
authed-send_authentication_example =
    authed-send_authentication env settled config server_settings server_raw server_config
      client_env server_env digest 1200 refl settled-build server_raw-build refl digest-IsCommand
      (λ h. h, (λ h. h, tt)) refl refl refl

-- --port 443 --token … --certificate x --private-key y
abbrev server_flags : Server.Matches
server_flags = record {
  help = false;
  version = false;
  free = [];
  config = none;
  port = some (52 ∷ 52 ∷ 51 ∷ []);
  token = digest ∷ [];
  certificate = some (120 ∷ []);
  private_key = some (121 ∷ []);
  ip = none;
  congestion_controller = none;
  max_idle_time = none;
  authentication_timeout = none;
  alpn = [];
  max_udp_relay_packet_size = none;
  log_level = none;
}

abbrev one_token : ServerBuild.Config
one_token = record server_config { token = tokens }

server_flags-parse : ServerBuild.parse server_settings (success server_flags) ≡ ok one_token
unfolding ServerBuild.parse ServerParse.parse_raw ServerBuild.build parse_below
server_flags-parse = refl

abbrev server_network : ServerStart.Network
server_network = record {
  bind_udp = λ _. success tt;
  new_socket = success tt;
  set_only_v6 = λ _. success tt;
  bind_socket = λ _. success tt;
  new_endpoint = success tt;
}

-- Two connections come, of which the first fails its handshake.
abbrev comers : List (Answer ℕ (Unit {0}))
comers = failure 1 ∷ success tt ∷ []

abbrev systems : List (Option System)
systems = none ∷ some (new_system tokens 1500) ∷ []

server_flags-main :
    ServerStart.main server_settings server_network (success server_flags) comers
    ≡ ok (ServerStart.served systems)
unfolding ServerStart.main ServerBuild.parse ServerParse.parse_raw ServerBuild.build parse_below
    ServerStart.start
server_flags-main = refl

main-unauthenticated_example :
    let c = (ServerConnection.run intruder (new_system tokens 1500)).conn in
    (authed c ≡ false)
    × (c.udp_packet_from ≡ none)
    × (c.udp_sessions ≡ [])
    × (c.relays ≡ [])
    × (c.sent ≡ [])
main-unauthenticated_example =
    main-unauthenticated server_settings server_network (success server_flags) comers one_token
      systems 1 (new_system tokens 1500) intruder server_flags-parse server_flags-main refl
      (tt, (tt, (tt, (tt, (tt, tt))))) (wrong_digest-presents, tt)

server_main_total_example :
    ServerStart.main server_settings server_network (failure 3) comers ≢ panicked
server_main_total_example = server_main_total server_settings server_network (failure 3) comers

abbrev client_network : ClientStart.Network
client_network = record {
  bind_tcp = λ _. failure unexpected_eof;
  new_socket = success tt;
  set_only_v6 = λ _. success tt;
  bind_socket = λ _. success tt;
  listen = λ _. success tt;
  from_std = success tt;
}

client_main_total_example : ClientStart.main env client_network (success flags) ≢ panicked
client_main_total_example = client_main_total env client_network (success flags)
