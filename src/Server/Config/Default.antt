-- ===== src/Server/Config/Default.antt =====
-- `default` of server/src/config.rs.
use tuic.Prelude.{ℕ, List, [], none}
use tuic.Settings.{IpAddr, v4, LevelFilter, info}
use tuic.Server.Config.{CongestionController, cubic, RawConfig}

abbrev pub ip : IpAddr
ip = v4 (record { a = 0; b = 0; c = 0; d = 0 })

abbrev pub congestion_controller : CongestionController
congestion_controller = cubic

abbrev pub max_idle_time : ℕ
max_idle_time = 15000

abbrev pub authentication_timeout : ℕ
authentication_timeout = 1000

abbrev pub alpn : List (List ℕ)
alpn = []

abbrev pub max_udp_relay_packet_size : ℕ
max_udp_relay_packet_size = 1500

abbrev pub log_level : LevelFilter
log_level = info

-- `RawConfig::default`.
abbrev pub default_config : RawConfig
default_config = record {
  port = none;
  token = [];
  certificate = none;
  private_key = none;
  ip = ip;
  congestion_controller = congestion_controller;
  max_idle_time = max_idle_time;
  authentication_timeout = authentication_timeout;
  alpn = alpn;
  max_udp_relay_packet_size = max_udp_relay_packet_size;
  log_level = log_level;
}
