-- ===== src/Client/Config/Build.antt =====
-- `Config::parse` of client/src/config.rs: what the settings make of the program.
use tuic.Prelude.{
  ℕ, Bool, not, List, Option, none, some, Result, ok, err, Answer, success, failure, map_err, ◌>>=◌,
}
use tuic.Protocol.Address.{SocketAddr}
use tuic.Settings.{IpAddr, LevelFilter, unwrap_option, socket_addr}
use tuic.Client.Connection.{UdpRelayMode, ServerAddr, domain_addr}
use tuic.Client.Connection as Relay
use tuic.Client.Certificate.{CertificateError, load_certificates}
use tuic.Client.Certificate as Cert
use tuic.Client.Config.{
  CongestionController, ConfigError, io, certificate, native_certificate, local_authentication,
  parse_argument, RawConfig, Env, Matches,
}
use tuic.Client.Config.Parse.{parse_raw}

-- The authentication of the socks5 server.
pub data Auth : Type 0 where
  no_auth : Auth
  password_auth : (username password : List ℕ) → Auth

-- `Config`, with what goes into its `client_config`. Times are in milliseconds.
pub record Config : Type 0 where
  pub certificates : List (List ℕ)
  pub alpn : List (List ℕ)
  pub enable_sni : Bool
  pub congestion_controller : CongestionController
  pub server_addr : ServerAddr
  pub token_digest : List ℕ
  pub udp_relay_mode : UdpRelayMode
  pub heartbeat_interval : ℕ
  pub reduce_rtt : Bool
  pub request_timeout : ℕ
  pub max_udp_relay_packet_size : ℕ
  pub local_addr : SocketAddr
  pub socks5_auth : Auth
  pub log_level : LevelFilter

-- The errors of the loading among those of the settings.
abbrev of_certificate : CertificateError → ConfigError
of_certificate (Cert.io path e) = io path e
of_certificate (Cert.certificate e) = certificate e
of_certificate (Cert.native_certificate e) = native_certificate e

-- The address of the server: the IP of the settings stands for what the name would be resolved to.
abbrev pub server_addr_of : Option IpAddr → List ℕ → ℕ → ServerAddr
server_addr_of none name port = domain_addr name port
server_addr_of (some ip) name port = Relay.socket_addr (socket_addr ip port) name

abbrev pub socks5_auth_of : Option (List ℕ) → Option (List ℕ) → Result ConfigError Auth
socks5_auth_of none none = ok no_auth
socks5_auth_of (some username) (some password) = ok (password_auth username password)
socks5_auth_of none (some password) = err local_authentication
socks5_auth_of (some username) none = err local_authentication

-- `Config::parse` behind `RawConfig::parse`.
unfoldable pub build : Env → RawConfig → Result ConfigError Config
unfolding load_certificates
build env raw = do
  certs ← map_err of_certificate (load_certificates env.roots raw.relay.certificates)
  name ← unwrap_option raw.relay.server
  port ← unwrap_option raw.relay.port
  token ← unwrap_option raw.relay.token
  local_port ← unwrap_option raw.local'.port
  socks5_auth' ← socks5_auth_of raw.local'.username raw.local'.password
  ok (record {
    certificates = certs;
    alpn = raw.relay.alpn;
    enable_sni = not raw.relay.disable_sni;
    congestion_controller = raw.relay.congestion_controller;
    server_addr = server_addr_of raw.relay.ip name port;
    token_digest = env.hash token;
    udp_relay_mode = raw.relay.udp_relay_mode;
    heartbeat_interval = raw.relay.heartbeat_interval;
    reduce_rtt = raw.relay.reduce_rtt;
    request_timeout = raw.relay.request_timeout;
    max_udp_relay_packet_size = raw.relay.max_udp_relay_packet_size;
    local_addr = socket_addr raw.local'.ip local_port;
    socks5_auth = socks5_auth';
    log_level = raw.log_level;
  })

-- `Config::parse`, given what `getopts` makes of the command line.
unfoldable pub parse : Env → Answer ℕ Matches → Result ConfigError Config
unfolding parse_raw build
parse env (failure e) = err (parse_argument e)
parse env (success m) = parse_raw env m >>= λ raw. build env raw
