-- ===== src/Client/Config/Default.antt =====
-- `default` of client/src/config.rs, and the settings made of it.
use tuic.Prelude.{ℕ, Bool, false, List, [], none}
use tuic.Settings.{IpAddr, v4, LevelFilter, info}
use tuic.Client.Connection.{UdpRelayMode, native}
use tuic.Client.Config.{CongestionController, cubic, RawRelayConfig, RawLocalConfig, RawConfig}

abbrev pub certificates : List (List ℕ)
certificates = []

abbrev pub udp_relay_mode : UdpRelayMode
udp_relay_mode = native

abbrev pub congestion_controller : CongestionController
congestion_controller = cubic

abbrev pub heartbeat_interval : ℕ
heartbeat_interval = 10000

abbrev pub alpn : List (List ℕ)
alpn = []

abbrev pub disable_sni : Bool
disable_sni = false

abbrev pub reduce_rtt : Bool
reduce_rtt = false

abbrev pub request_timeout : ℕ
request_timeout = 8000

abbrev pub max_udp_relay_packet_size : ℕ
max_udp_relay_packet_size = 1500

abbrev pub local_ip : IpAddr
local_ip = v4 (record { a = 127; b = 0; c = 0; d = 1 })

abbrev pub log_level : LevelFilter
log_level = info

-- `RawRelayConfig::default`, `RawLocalConfig::default` and `RawConfig::default`.
abbrev pub default_relay : RawRelayConfig
default_relay = record {
  server = none;
  port = none;
  token = none;
  ip = none;
  certificates = certificates;
  udp_relay_mode = udp_relay_mode;
  congestion_controller = congestion_controller;
  heartbeat_interval = heartbeat_interval;
  alpn = alpn;
  disable_sni = disable_sni;
  reduce_rtt = reduce_rtt;
  request_timeout = request_timeout;
  max_udp_relay_packet_size = max_udp_relay_packet_size;
}

abbrev pub default_local : RawLocalConfig
default_local = record { port = none; ip = local_ip; username = none; password = none }

abbrev pub default_config : RawConfig
default_config = record { relay = default_relay; local' = default_local; log_level = log_level }
