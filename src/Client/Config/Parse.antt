-- ===== src/Client/Config/Parse.antt =====
-- `RawConfig::parse` of client/src/config.rs: where the settings come from.
use tuic.Prelude.{
  ℕ, ◌||◌, List, [], ◌∷◌, Option, none, some, Result, ok, err, answered, map_err, ok_or, ◌>>=◌,
  if◌then◌else◌,
}
use tuic.Settings.{IpAddr, parse_below, override, or_else, choose_list}
use tuic.Client.Config.{
  RawConfig, ConfigError, help, version, io, parse_config_json, unexpected_arguments,
  missing_option, parse_log_level, server_address, server_port, token, local_port, Matches, Env,
  parse_congestion_controller, parse_udp_relay_mode, parse_port, parse_u64, parse_addr_ip,
}
use tuic.Client.Config.Default.{default_relay, default_local, default_config}

abbrev Parsed : Type 0 → Type 0
Parsed A = Result ConfigError A

abbrev parse_given : Option (List ℕ) → Parsed (Option ℕ)
parse_given none = ok none
parse_given (some s) = parse_port s >>= λ n. ok (some n)

-- `RawConfig::from_file`.
unfoldable pub from_file : Env → List ℕ → Parsed RawConfig
from_file env path = do
  file ← map_err (io path) (answered (env.open_json path))
  map_err parse_config_json (answered file)

-- The required settings where a file is given, which is read already.
unfoldable pub complete_file : Matches → RawConfig → Parsed RawConfig
unfolding parse_below
complete_file m raw = do
  server' ← ok_or (or_else m.server raw.relay.server) (missing_option server_address)
  given ← parse_given m.server_port
  port' ← ok_or (or_else given raw.relay.port) (missing_option server_port)
  token' ← ok_or (or_else m.token raw.relay.token) (missing_option token)
  local_given ← parse_given m.local_port
  local_port' ← ok_or (or_else local_given raw.local'.port) (missing_option local_port)
  ok (record raw {
    relay = record raw.relay { server = some server'; port = some port'; token = some token' };
    local' = record raw.local' { port = some local_port' };
  })

-- The required settings where no file is given.
unfoldable pub complete_flags : Matches → Parsed RawConfig
unfolding parse_below
complete_flags m = do
  server' ← ok_or m.server (missing_option server_address)
  given ← ok_or m.server_port (missing_option server_port)
  port' ← parse_port given
  token' ← ok_or m.token (missing_option token)
  local_given ← ok_or m.local_port (missing_option local_port)
  local_port' ← parse_port local_given
  ok (record default_config {
    relay = record default_relay { server = some server'; port = some port'; token = some token' };
    local' = record default_local { port = some local_port' };
  })

abbrev pub parse_server_ip : Env → List ℕ → Parsed (Option IpAddr)
parse_server_ip env s = parse_addr_ip env s >>= λ ip. ok (some ip)

-- The flags for the other settings.
unfoldable pub apply_flags : Env → Matches → RawConfig → Parsed RawConfig
unfolding override parse_below parse_congestion_controller parse_udp_relay_mode
apply_flags env m raw = do
  ip' ← override (parse_server_ip env) m.server_ip raw.relay.ip
  mode ← override parse_udp_relay_mode m.udp_relay_mode raw.relay.udp_relay_mode
  controller ←
      override parse_congestion_controller m.congestion_controller raw.relay.congestion_controller
  interval ← override parse_u64 m.heartbeat_interval raw.relay.heartbeat_interval
  timeout ← override parse_u64 m.request_timeout raw.relay.request_timeout
  size ← override parse_u64 m.max_udp_relay_packet_size raw.relay.max_udp_relay_packet_size
  local_ip' ← override (parse_addr_ip env) m.local_ip raw.local'.ip
  level ← override (λ s. ok_or (env.parse_level s) parse_log_level) m.log_level raw.log_level
  ok (record {
    relay = record raw.relay {
      ip = ip';
      certificates = choose_list m.certificate raw.relay.certificates;
      udp_relay_mode = mode;
      congestion_controller = controller;
      heartbeat_interval = interval;
      alpn = choose_list m.alpn raw.relay.alpn;
      disable_sni = raw.relay.disable_sni || m.disable_sni;
      reduce_rtt = raw.relay.reduce_rtt || m.reduce_rtt;
      request_timeout = timeout;
      max_udp_relay_packet_size = size;
    };
    local' = record raw.local' {
      ip = local_ip';
      username = or_else m.local_username raw.local'.username;
      password = or_else m.local_password raw.local'.password;
    };
    log_level = level;
  })

unfoldable pub complete : Env → Matches → Parsed RawConfig
unfolding complete_file complete_flags from_file
complete env m = elim m.config [
  | none ↦ complete_flags m
  | some path ↦ from_file env path >>= λ raw. complete_file m raw
]

-- `RawConfig::parse`, once `getopts` has taken the command line apart.
unfoldable pub parse_raw : Env → Matches → Parsed RawConfig
unfolding complete apply_flags
parse_raw env m = if m.help then err help else if m.version then err version else elim m.free [
  | [] ↦ complete env m >>= λ raw. apply_flags env m raw
  | x ∷ xs ↦ err (unexpected_arguments (x ∷ xs))
]
