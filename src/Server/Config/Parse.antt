-- ===== src/Server/Config/Parse.antt =====
-- `RawConfig::parse` of server/src/config.rs.
use tuic.Prelude.{
  ℕ, List, [], ◌∷◌, Option, none, some, ok, err, answered, map_err, ok_or, ◌>>=◌, if◌then◌else◌,
}
use tuic.Settings.{parse_below, override, or_else, choose_list}
use tuic.Server.Config.{
  help, version, io, parse_config_json, unexpected_arguments, missing_option, parse_addr,
  parse_log_level, port, token, certificate, private_key, RawConfig, Matches, Env, Parsed,
  parse_congestion_controller, parse_port, parse_u32, parse_u64, non_empty,
}
use tuic.Server.Config.Default.{default_config}

abbrev parse_given : Option (List ℕ) → Parsed (Option ℕ)
parse_given none = ok none
parse_given (some s) = parse_port s >>= λ n. ok (some n)

-- `RawConfig::from_file`.
unfoldable pub from_file : Env → List ℕ → Parsed RawConfig
from_file env path = do
  file ← map_err (io path) (answered (env.open_json path))
  map_err parse_config_json (answered file)

-- The required settings where a file is given, which is read already.
unfoldable pub complete_file : Matches → RawConfig → Parsed RawConfig
unfolding parse_below
complete_file m raw = do
  given ← parse_given m.port
  port' ← ok_or (or_else given raw.port) (missing_option port)
  token' ← non_empty (choose_list m.token raw.token) (missing_option token)
  certificate' ← ok_or (or_else m.certificate raw.certificate) (missing_option certificate)
  private_key' ← ok_or (or_else m.private_key raw.private_key) (missing_option private_key)
  ok (record raw {
    port = some port';
    token = token';
    certificate = some certificate';
    private_key = some private_key';
  })

-- The required settings where no file is given.
unfoldable pub complete_flags : Matches → Parsed RawConfig
unfolding parse_below
complete_flags m = do
  given ← ok_or m.port (missing_option port)
  port' ← parse_port given
  token' ← non_empty m.token (missing_option token)
  certificate' ← ok_or m.certificate (missing_option certificate)
  private_key' ← ok_or m.private_key (missing_option private_key)
  ok (record default_config {
    port = some port';
    token = token';
    certificate = some certificate';
    private_key = some private_key';
  })

-- The flags for the other settings.
unfoldable pub apply_flags : Env → Matches → RawConfig → Parsed RawConfig
unfolding override parse_below parse_congestion_controller
apply_flags env m raw = do
  ip' ← override (λ s. ok_or (env.parse_ip s) parse_addr) m.ip raw.ip
  controller ←
      override parse_congestion_controller m.congestion_controller raw.congestion_controller
  idle ← override parse_u32 m.max_idle_time raw.max_idle_time
  timeout ← override parse_u64 m.authentication_timeout raw.authentication_timeout
  size ← override parse_u64 m.max_udp_relay_packet_size raw.max_udp_relay_packet_size
  level ← override (λ s. ok_or (env.parse_level s) parse_log_level) m.log_level raw.log_level
  ok (record raw {
    ip = ip';
    congestion_controller = controller;
    max_idle_time = idle;
    authentication_timeout = timeout;
    max_udp_relay_packet_size = size;
    alpn = choose_list m.alpn raw.alpn;
    log_level = level;
  })

unfoldable pub complete : Env → Matches → Parsed RawConfig
unfolding complete_file complete_flags from_file
complete env m = elim m.config [
  | none ↦ complete_flags m
  | some path ↦ from_file env path >>= λ raw. complete_file m raw
]

-- `RawConfig::parse`, once `getopts` has taken the command line apart.
unfoldable pub parse_raw : Env → Matches → Parsed RawConfig
unfolding complete apply_flags
parse_raw env m = if m.help then err help else if m.version then err version else elim m.free [
  | [] ↦ complete env m >>= λ raw. apply_flags env m raw
  | x ∷ xs ↦ err (unexpected_arguments (x ∷ xs))
]
