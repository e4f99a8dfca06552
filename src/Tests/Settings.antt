-- ===== src/Tests/Settings.antt =====
-- Examples for server/src/config.rs.
use tuic.Prelude.{◌≡◌, refl, false, [], ◌∷◌, none, some, ok, err, success, failure}
use tuic.Protocol.Reader.{unexpected_eof}
use tuic.Settings.{info, parse_below}
use tuic.Server.Config.{
  Env, Matches, RawConfig, new_reno, parse_congestion_controller, missing_option, token,
}
use tuic.Server.Config.Default.{default_config}
use tuic.Server.Config.Parse.{parse_raw}
use tuic.Server.Config.Precedence.{base, Required, Flagged, parse_raw-precedence}

-- The file sets the port 443, a token, a certificate and a key.
abbrev file : RawConfig
file = record default_config {
  port = some 443;
  token = (1 ∷ 2 ∷ []) ∷ [];
  certificate = some (3 ∷ []);
  private_key = some (4 ∷ []);
}

abbrev env : Env
env = record {
  open_json = λ _. success (success file);
  parse_ip = λ _. none;
  parse_level = λ _. some info;
  files = record { open' = λ _. failure unexpected_eof; read = λ _. failure unexpected_eof };
  with_single_cert = λ _. λ _. success tt;
  hash = λ t. t;
}

-- --config x --port 80 --congestion-controller NewReno --max-idle-time +30
abbrev flags : Matches
flags = record {
  help = false;
  version = false;
  free = [];
  config = some (120 ∷ []);
  port = some (56 ∷ 48 ∷ []);
  token = [];
  certificate = none;
  private_key = none;
  ip = none;
  congestion_controller = some (78 ∷ 101 ∷ 119 ∷ 82 ∷ 101 ∷ 110 ∷ 111 ∷ []);
  max_idle_time = some (43 ∷ 51 ∷ 48 ∷ []);
  authentication_timeout = none;
  alpn = [];
  max_udp_relay_packet_size = none;
  log_level = none;
}

abbrev settled : RawConfig
settled = record file { port = some 80; congestion_controller = new_reno; max_idle_time = 30 }

flags-parse_raw : parse_raw env flags ≡ ok settled
unfolding parse_raw parse_below parse_congestion_controller
flags-parse_raw = refl

-- Without the file the token is missing.
no_file-parse_raw : parse_raw env (record flags { config = none }) ≡ err (missing_option token)
unfolding parse_raw parse_below
no_file-parse_raw = refl

parse_raw-precedence_example :
    (before : RawConfig) × (base env flags ≡ ok before)
    × Required flags before settled
    × Flagged env flags before settled
parse_raw-precedence_example = parse_raw-precedence env flags settled flags-parse_raw
