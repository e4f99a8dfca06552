-- ===== src/Server/Config.antt =====
-- server/src/config.rs: the settings from the command line, a file and the defaults. A string is its
-- bytes.
pub mod Default
pub mod Parse
pub mod Build
pub mod Precedence
pub mod Total
use tuic.Prelude.{ℕ, ◌^◌, Bool, ◌||◌, List, [], ◌∷◌, Option, Result, ok, err, Answer, if◌then◌else◌}
use tuic.Protocol.Reader.{IoError}
use tuic.Settings.Files.{Files}
use tuic.Settings.{
  IpAddr, LevelFilter, parse_below, eq_ignore_ascii_case, cubic_name, new_reno_name, newreno_name,
  bbr_name,
}

pub data CongestionController : Type 0 where
  cubic new_reno bbr : CongestionController

pub data RequiredOption : Type 0 where
  port token certificate private_key : RequiredOption

pub data ConfigError : Type 0 where
  help version : ConfigError
  io : (path : List ℕ) → IoError → ConfigError
  parse_config_json parse_argument : ℕ → ConfigError
  unexpected_arguments : List (List ℕ) → ConfigError
  missing_option : RequiredOption → ConfigError
  parse_int parse_addr invalid_congestion_controller parse_log_level : ConfigError
  rustls : ℕ → ConfigError

pub record RawConfig : Type 0 where
  pub port : Option ℕ
  pub token : List (List ℕ)
  pub certificate : Option (List ℕ)
  pub private_key : Option (List ℕ)
  pub ip : IpAddr
  pub congestion_controller : CongestionController
  pub max_idle_time : ℕ
  pub authentication_timeout : ℕ
  pub alpn : List (List ℕ)
  pub max_udp_relay_packet_size : ℕ
  pub log_level : LevelFilter

-- What the crate `getopts` found on the command line.
pub record Matches : Type 0 where
  pub help : Bool
  pub version : Bool
  pub free : List (List ℕ)
  pub config : Option (List ℕ)
  pub port : Option (List ℕ)
  pub token : List (List ℕ)
  pub certificate : Option (List ℕ)
  pub private_key : Option (List ℕ)
  pub ip : Option (List ℕ)
  pub congestion_controller : Option (List ℕ)
  pub max_idle_time : Option (List ℕ)
  pub authentication_timeout : Option (List ℕ)
  pub alpn : List (List ℕ)
  pub max_udp_relay_packet_size : Option (List ℕ)
  pub log_level : Option (List ℕ)

-- The libraries and the file system: opening a file of settings and what `serde_json` reads in it,
-- the parsers of an IP address and of a log level, the files of the certificate and its key, whether
-- the two fit, and the hash of a token.
pub record Env : Type 0 where
  pub open_json : List ℕ → Answer IoError (Answer ℕ RawConfig)
  pub parse_ip : List ℕ → Option IpAddr
  pub parse_level : List ℕ → Option LevelFilter
  pub files : Files
  pub with_single_cert : List (List ℕ) → List ℕ → Answer ℕ (Unit {0})
  pub hash : List ℕ → List ℕ

abbrev pub Parsed : Type 0 → Type 0
Parsed A = Result ConfigError A

-- `CongestionController::from_str`.
unfoldable pub parse_congestion_controller : List ℕ → Parsed CongestionController
unfolding eq_ignore_ascii_case
parse_congestion_controller s =
    if eq_ignore_ascii_case s cubic_name
    then ok cubic
    else if eq_ignore_ascii_case s new_reno_name || eq_ignore_ascii_case s newreno_name
    then ok new_reno
    else if eq_ignore_ascii_case s bbr_name
    then ok bbr
    else err invalid_congestion_controller

abbrev pub parse_port : List ℕ → Parsed ℕ
parse_port s = parse_below parse_int 65536 s

abbrev pub parse_u32 : List ℕ → Parsed ℕ
parse_u32 s = parse_below parse_int (2 ^ 32) s

-- Both `u64` and, on the platforms the program is built for, `usize`.
abbrev pub parse_u64 : List ℕ → Parsed ℕ
parse_u64 s = parse_below parse_int (2 ^ 64) s

abbrev pub non_empty : {A : Type 0} → List A → ConfigError → Parsed (List A)
non_empty [] e = err e
non_empty (x ∷ xs) e = ok (x ∷ xs)
