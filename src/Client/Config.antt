-- ===== src/Client/Config.antt =====
-- client/src/config.rs: the settings from the command line, a file and the defaults. A string is its
-- bytes.
pub mod Default
pub mod Parse
pub mod Build
pub mod Precedence
pub mod Total
use tuic.Prelude.{
  ℕ, ◌^◌, Bool, ◌||◌, List, [], ◌∷◌, Option, Result, ok, err, Answer, ok_or, if◌then◌else◌,
}
use tuic.Protocol.Reader.{IoError}
use tuic.Settings.{
  IpAddr, LevelFilter, parse_below, eq_ignore_ascii_case, cubic_name, new_reno_name, newreno_name,
  bbr_name,
}
use tuic.Client.Connection.{UdpRelayMode, native, quic}
use tuic.Client.Certificate.{Roots}

pub data CongestionController : Type 0 where
  cubic new_reno bbr : CongestionController

pub data RequiredOption : Type 0 where
  server_address server_port token local_port : RequiredOption

pub data ConfigError : Type 0 where
  help version : ConfigError
  io : (path : List ℕ) → IoError → ConfigError
  parse_config_json parse_argument : ℕ → ConfigError
  unexpected_arguments : List (List ℕ) → ConfigError
  missing_option : RequiredOption → ConfigError
  parse_int parse_addr invalid_congestion_controller invalid_udp_relay_mode : ConfigError
  certificate : ℕ → ConfigError
  native_certificate : IoError → ConfigError
  local_authentication parse_log_level : ConfigError

pub record RawRelayConfig : Type 0 where
  pub server : Option (List ℕ)
  pub port : Option ℕ
  pub token : Option (List ℕ)
  pub ip : Option IpAddr
  pub certificates : List (List ℕ)
  pub udp_relay_mode : UdpRelayMode
  pub congestion_controller : CongestionController
  pub heartbeat_interval : ℕ
  pub alpn : List (List ℕ)
  pub disable_sni : Bool
  pub reduce_rtt : Bool
  pub request_timeout : ℕ
  pub max_udp_relay_packet_size : ℕ

pub record RawLocalConfig : Type 0 where
  pub port : Option ℕ
  pub ip : IpAddr
  pub username : Option (List ℕ)
  pub password : Option (List ℕ)

pub record RawConfig : Type 0 where
  pub relay : RawRelayConfig
  pub local' : RawLocalConfig
  pub log_level : LevelFilter

-- What the crate `getopts` found on the command line.
pub record Matches : Type 0 where
  pub help : Bool
  pub version : Bool
  pub free : List (List ℕ)
  pub config : Option (List ℕ)
  pub server : Option (List ℕ)
  pub server_port : Option (List ℕ)
  pub token : Option (List ℕ)
  pub server_ip : Option (List ℕ)
  pub certificate : List (List ℕ)
  pub udp_relay_mode : Option (List ℕ)
  pub congestion_controller : Option (List ℕ)
  pub heartbeat_interval : Option (List ℕ)
  pub alpn : List (List ℕ)
  pub disable_sni : Bool
  pub reduce_rtt : Bool
  pub request_timeout : Option (List ℕ)
  pub max_udp_relay_packet_size : Option (List ℕ)
  pub local_port : Option (List ℕ)
  pub local_ip : Option (List ℕ)
  pub local_username : Option (List ℕ)
  pub local_password : Option (List ℕ)
  pub log_level : Option (List ℕ)

-- The libraries and the file system: opening a file of settings and what `serde_json` reads in it,
-- the parsers of an IP address and of a log level, the files and roots of the certificates, and the
-- hash of a token.
pub record Env : Type 0 where
  pub open_json : List ℕ → Answer IoError (Answer ℕ RawConfig)
  pub parse_ip : List ℕ → Option IpAddr
  pub parse_level : List ℕ → Option LevelFilter
  pub roots : Roots
  pub hash : List ℕ → List ℕ

abbrev Parsed : Type 0 → Type 0
Parsed A = Result ConfigError A

-- "native" and "quic".
abbrev native_name : List ℕ
native_name = 110 ∷ 97 ∷ 116 ∷ 105 ∷ 118 ∷ 101 ∷ []

abbrev quic_name : List ℕ
quic_name = 113 ∷ 117 ∷ 105 ∷ 99 ∷ []

-- `CongestionController::from_str`.
unfoldable pub parse_congestion_controller : List ℕ → Parsed CongestionController
unfolding eq_ignore_ascii_case
parse_congestion_controller s =
    if eq_ignore_ascii_case s cubic_name
    then ok cubic
    else if eq_ignore_ascii_case s new_reno_name || eq_ignore_ascii_case s newreno_name
    then ok new_reno
    else if eq_ignore_ascii_case s bbr_name
    then ok bbr
    else err invalid_congestion_controller

-- `UdpRelayMode::from_str`.
unfoldable pub parse_udp_relay_mode : List ℕ → Parsed UdpRelayMode
unfolding eq_ignore_ascii_case
parse_udp_relay_mode s =
    if eq_ignore_ascii_case s native_name
    then ok native
    else if eq_ignore_ascii_case s quic_name
    then ok quic
    else err invalid_udp_relay_mode

abbrev pub parse_port : List ℕ → Parsed ℕ
parse_port s = parse_below parse_int 65536 s

-- Both `u64` and, on the platforms the program is built for, `usize`.
abbrev pub parse_u64 : List ℕ → Parsed ℕ
parse_u64 s = parse_below parse_int (2 ^ 64) s

abbrev pub parse_addr_ip : Env → List ℕ → Parsed IpAddr
parse_addr_ip env s = ok_or (env.parse_ip s) parse_addr
