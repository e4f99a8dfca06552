-- ===== src/Tests/Starting.antt =====
-- Examples for client/src/config.rs, the two files certificate.rs, and the login between the two
-- ends.
use tuic.Prelude.{
  ◌≡◌, refl, true, false, List, [], ◌∷◌, ◌++◌, none, some, ok, Answer, success, failure,
}
use tuic.Protocol.Reader.{IoError, unexpected_eof}
use tuic.Settings.{info}
use tuic.Settings.{parse_below}
use tuic.Settings.Files.{Item, x509_certificate, rsa_key, pkcs8_key, other, Files}
use tuic.Client.Connection.{quic}
use tuic.Client.Certificate.{Roots, Store, load_certificates}
use tuic.Server.Certificate.{load_private_key}
use tuic.Server.Certificate.Keys.{keys, last, key_or_file, load_private_key-last}
use tuic.Client.Certificate as ClientCert
use tuic.Client.Certificate.Laws.{load_certificates-custom}
use tuic.Client.Config.{Env, Matches, RawConfig, parse_udp_relay_mode}
use tuic.Client.Config.Default.{default_config, default_relay, default_local}
use tuic.Client.Config.Parse.{parse_raw}
use tuic.Client.Config.Precedence.{base, Required, Flagged, parse_raw-sources}
use tuic.Tests.{digest}

-- A file with a certificate, an item of another kind, and two keys.
abbrev pub items : List (Answer IoError Item)
items =
    success (x509_certificate (5 ∷ []))
    ∷ success (rsa_key (1 ∷ []))
    ∷ success other
    ∷ success (pkcs8_key (2 ∷ []))
    ∷ failure unexpected_eof
    ∷ success (rsa_key (3 ∷ []))
    ∷ []

abbrev pub files : Files
files = record { open' = λ _. success items; read = λ _. success (6 ∷ []) }

abbrev pub roots : Roots
roots = record {
  files = files;
  check = λ _. success tt;
  load_native_certs = success ((9 ∷ []) ∷ []);
}

roots-load_certificates :
    load_certificates roots ((120 ∷ []) ∷ (121 ∷ []) ∷ [])
    ≡ ok ((5 ∷ []) ∷ (5 ∷ []) ∷ (9 ∷ []) ∷ [])
unfolding load_certificates
roots-load_certificates = refl

-- The second key of the file, as the third stands behind the item that cannot be read.
load_private_key-last_example :
    load_private_key files (120 ∷ []) ≡ key_or_file files (120 ∷ []) (last (keys items))
load_private_key-last_example = load_private_key-last files (120 ∷ []) items refl

load_certificates-custom_example :
    (platform : Store) × (roots.load_native_certs ≡ success platform)
    × (((5 ∷ []) ∷ (5 ∷ []) ∷ (9 ∷ []) ∷ [])
        ≡ ClientCert.custom files ((120 ∷ []) ∷ (121 ∷ []) ∷ []) ++ platform)
load_certificates-custom_example =
    load_certificates-custom roots ((120 ∷ []) ∷ (121 ∷ []) ∷ [])
      ((5 ∷ []) ∷ (5 ∷ []) ∷ (9 ∷ []) ∷ []) roots-load_certificates

-- The file sets the server "a", its port, a token, the local port and `reduce_rtt`.
abbrev pub file : RawConfig
file = record default_config {
  relay = record default_relay {
    server = some (97 ∷ []);
    port = some 443;
    token = some digest;
    reduce_rtt = true;
  };
  local' = record default_local { port = some 1080 };
}

abbrev pub env : Env
env = record {
  open_json = λ _. success (success file);
  parse_ip = λ _. none;
  parse_level = λ _. some info;
  roots = roots;
  hash = λ t. t;
}

-- --config x --server-port 80 --udp-relay-mode QUIC --disable-sni
abbrev pub flags : Matches
flags = record {
  help = false;
  version = false;
  free = [];
  config = some (120 ∷ []);
  server = none;
  server_port = some (56 ∷ 48 ∷ []);
  token = none;
  server_ip = none;
  certificate = [];
  udp_relay_mode = some (81 ∷ 85 ∷ 73 ∷ 67 ∷ []);
  congestion_controller = none;
  heartbeat_interval = none;
  alpn = [];
  disable_sni = true;
  reduce_rtt = false;
  request_timeout = none;
  max_udp_relay_packet_size = none;
  local_port = none;
  local_ip = none;
  local_username = none;
  local_password = none;
  log_level = none;
}

abbrev pub settled : RawConfig
settled = record file {
  relay = record file.relay { port = some 80; udp_relay_mode = quic; disable_sni = true };
}

flags-parse_raw : parse_raw env flags ≡ ok settled
unfolding parse_raw parse_below parse_udp_relay_mode
flags-parse_raw = refl

parse_raw-sources_example :
    (before : RawConfig) × (base env flags ≡ ok before)
    × Required flags before settled
    × Flagged env flags before settled
parse_raw-sources_example = parse_raw-sources env flags settled flags-parse_raw
