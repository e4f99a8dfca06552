-- ===== src/Server/Config/Build.antt =====
-- `Config` and `Config::parse` of server/src/config.rs.
use tuic.Prelude.{ℕ, ◌*◌, List, map, ok, err, Answer, success, failure, answered, map_err, ◌>>=◌}
use tuic.Protocol.Address.{SocketAddr}
use tuic.Server.Certificate.{load_certificates, load_private_key}
use tuic.Settings.{LevelFilter, unwrap_option, socket_addr}
use tuic.Server.Config.{
  CongestionController, io, parse_argument, rustls, RawConfig, Matches, Env, Parsed,
}
use tuic.Server.Config.Parse.{parse_raw}

-- `Config`, with what goes into its `server_config`. Times are in milliseconds.
pub record Config : Type 0 where
  pub certificates : List (List ℕ)
  pub private_key : List ℕ
  pub alpn : List (List ℕ)
  pub congestion_controller : CongestionController
  pub max_idle_time : ℕ
  pub listen_addr : SocketAddr
  pub token : List (List ℕ)
  pub authentication_timeout : ℕ
  pub max_udp_relay_packet_size : ℕ
  pub log_level : LevelFilter

-- `Config::parse` behind `RawConfig::parse`. `Duration::from_secs` makes seconds of the timeout.
unfoldable pub build : Env → RawConfig → Parsed Config
unfolding load_certificates load_private_key
build env raw = do
  cert_path ← unwrap_option raw.certificate
  certs ← map_err (io cert_path) (load_certificates env.files cert_path)
  priv_key_path ← unwrap_option raw.private_key
  priv_key ← map_err (io priv_key_path) (load_private_key env.files priv_key_path)
  _ ← map_err rustls (answered (env.with_single_cert certs priv_key))
  port' ← unwrap_option raw.port
  ok (record {
    certificates = certs;
    private_key = priv_key;
    alpn = raw.alpn;
    congestion_controller = raw.congestion_controller;
    max_idle_time = raw.max_idle_time;
    listen_addr = socket_addr raw.ip port';
    token = map env.hash raw.token;
    authentication_timeout = raw.authentication_timeout * 1000;
    max_udp_relay_packet_size = raw.max_udp_relay_packet_size;
    log_level = raw.log_level;
  })

-- `Config::parse`, given what `getopts` makes of the command line.
unfoldable pub parse : Env → Answer ℕ Matches → Parsed Config
unfolding parse_raw build
parse env (failure e) = err (parse_argument e)
parse env (success m) = parse_raw env m >>= λ raw. build env raw
