-- ===== src/Client/Config/Precedence.antt =====
-- Which source of a setting of client/src/config.rs counts.
use tuic.Prelude.{
  ◌≡◌, ◌≢◌, subst, refl, arith, ◌||◌, none, some, ok, ok_or, ◌>>=◌, Result, inl, inr, Option-cases,
}
use tuic.Settings.{override, or_else, choose_list}
use tuic.Settings.Laws.{Chosen, override-Chosen, ok_injective, step}
use tuic.Client.Config.{
  Matches, Env, RawConfig, ConfigError, parse_port, parse_u64, parse_congestion_controller,
  parse_udp_relay_mode, parse_addr_ip, parse_log_level,
}
use tuic.Client.Config.Default.{default_config}
use tuic.Client.Config.Parse.{
  parse_server_ip, from_file, complete_file, complete_flags, apply_flags, complete, parse_raw,
}

-- The settings under the flags: those of the file, or the defaults.
abbrev pub base : Env → Matches → Result ConfigError RawConfig
base env m = elim m.config [ none ↦ ok default_config | some path ↦ from_file env path ]

-- The settings that have a default, or need none.
abbrev pub Flagged : Env → Matches → RawConfig → RawConfig → Type 0
Flagged env m before r =
    Chosen (parse_server_ip env) m.server_ip before.relay.ip r.relay.ip
    × Chosen parse_udp_relay_mode m.udp_relay_mode before.relay.udp_relay_mode
        r.relay.udp_relay_mode
    × Chosen parse_congestion_controller m.congestion_controller before.relay.congestion_controller
        r.relay.congestion_controller
    × Chosen parse_u64 m.heartbeat_interval before.relay.heartbeat_interval
        r.relay.heartbeat_interval
    × Chosen parse_u64 m.request_timeout before.relay.request_timeout r.relay.request_timeout
    × Chosen parse_u64 m.max_udp_relay_packet_size before.relay.max_udp_relay_packet_size
        r.relay.max_udp_relay_packet_size
    × Chosen (parse_addr_ip env) m.local_ip before.local'.ip r.local'.ip
    × Chosen (λ s. ok_or (env.parse_level s) parse_log_level) m.log_level before.log_level
        r.log_level
    × (r.relay.certificates ≡ choose_list m.certificate before.relay.certificates)
    × (r.relay.alpn ≡ choose_list m.alpn before.relay.alpn)
    × (r.relay.disable_sni ≡ before.relay.disable_sni || m.disable_sni)
    × (r.relay.reduce_rtt ≡ before.relay.reduce_rtt || m.reduce_rtt)
    × (r.local'.username ≡ or_else m.local_username before.local'.username)
    × (r.local'.password ≡ or_else m.local_password before.local'.password)

-- The settings that must be given.
abbrev pub Required : Matches → RawConfig → RawConfig → Type 0
Required m before r =
    (r.relay.server ≢ none)
    × (r.relay.server ≡ or_else m.server before.relay.server)
    × (r.relay.token ≢ none)
    × (r.relay.token ≡ or_else m.token before.relay.token)
    × (r.relay.port ≢ none)
    × Chosen (λ s. parse_port s >>= λ n. ok (some n)) m.server_port before.relay.port r.relay.port
    × (r.local'.port ≢ none)
    × Chosen (λ s. parse_port s >>= λ n. ok (some n)) m.local_port before.local'.port r.local'.port

-- The settings that have no default stay as they are.
abbrev Kept : RawConfig → RawConfig → Type 0
Kept before r =
    (r.relay.server ≡ before.relay.server)
    × (r.relay.token ≡ before.relay.token)
    × (r.relay.port ≡ before.relay.port)
    × (r.local'.port ≡ before.local'.port)

apply_flags-Flagged :
    (env : Env) (m : Matches) (before r : RawConfig)
    → apply_flags env m before ≡ ok r
    → Flagged env m before r × Kept before r
unfolding apply_flags
apply_flags-Flagged env m before r h =
    step _ _ (override _ m.server_ip before.relay.ip) h λ ip' e1 h1.
      step _ _ (override _ m.udp_relay_mode before.relay.udp_relay_mode) h1 λ mode' e2 h2.
        step _ _ (override _ m.congestion_controller before.relay.congestion_controller) h2
          λ cc' e3 h3.
            step _ _ (override _ m.heartbeat_interval before.relay.heartbeat_interval) h3
              λ beat' e4 h4.
                step _ _ (override _ m.request_timeout before.relay.request_timeout) h4
                  λ time' e5 h5.
                    step _ _
                      (override _ m.max_udp_relay_packet_size
                        before.relay.max_udp_relay_packet_size)
                      h5
                      λ size' e6 h6.
                        step _ _ (override _ m.local_ip before.local'.ip) h6 λ local_ip' e7 h7.
                          step _ _ (override _ m.log_level before.log_level) h7 λ level' e8 h8.
                            subst (λ (r : RawConfig). Flagged env m before r × Kept before r)
                              (ok_injective _ r h8)
                              (
                                (
                                  override-Chosen _ m.server_ip before.relay.ip ip' e1,
                                  override-Chosen _ m.udp_relay_mode before.relay.udp_relay_mode
                                      mode' e2,
                                  override-Chosen _ m.congestion_controller
                                      before.relay.congestion_controller cc' e3,
                                  override-Chosen _ m.heartbeat_interval
                                      before.relay.heartbeat_interval beat' e4,
                                  override-Chosen _ m.request_timeout before.relay.request_timeout
                                      time' e5,
                                  override-Chosen _ m.max_udp_relay_packet_size
                                      before.relay.max_udp_relay_packet_size size' e6,
                                  override-Chosen _ m.local_ip before.local'.ip local_ip' e7,
                                  override-Chosen _ m.log_level before.log_level level' e8,
                                  refl,
                                  refl,
                                  refl,
                                  refl,
                                  refl,
                                  refl,
                                ),
                                (refl, refl, refl, refl),
                              )

-- Settings whose required ones were filled in.
abbrev Filled : Matches → RawConfig → RawConfig → Type 0
Filled m before raw =
    Required m before raw
    × (raw ≡ record before {
      relay = record before.relay {
        server = raw.relay.server;
        port = raw.relay.port;
        token = raw.relay.token;
      };
      local' = record before.local' { port = raw.local'.port };
    })

complete_flags-Filled :
    (m : Matches) (raw : RawConfig) → complete_flags m ≡ ok raw → Filled m default_config raw
unfolding complete_flags
complete_flags-Filled m raw h = ground arith

complete_file-Filled :
    (m : Matches) (before raw : RawConfig) → complete_file m before ≡ ok raw → Filled m before raw
unfolding complete_file
complete_file-Filled m before raw h = ground arith

Required-Kept :
    (m : Matches) (before raw r : RawConfig)
    → Required m before raw
    → Kept raw r
    → Required m before r
Required-Kept m before raw r h k = ground arith

-- Where the settings under the flags can be had.
complete-Filled :
    (env : Env) (m : Matches) (raw : RawConfig)
    → complete env m ≡ ok raw
    → (before : RawConfig) × (base env m ≡ ok before) × Filled m before raw
unfolding complete
complete-Filled env m raw h = elim (Option-cases m.config) [
  | inl e ↦ (default_config, rw e refl, complete_flags-Filled m raw (rw (complete, e) at h))
  | inr (path, e) ↦
      step (complete_file m) raw (from_file env path) (rw (complete, e) at h)
        λ before read rest. (before, rw e read, complete_file-Filled m before raw rest)
]

parse_raw_ran :
    (env : Env) (m : Matches) (r : RawConfig)
    → parse_raw env m ≡ ok r
    → (complete env m >>= apply_flags env m) ≡ ok r
unfolding parse_raw
parse_raw_ran env m r h = ground arith

-- The client's settings that are accepted come from the flags first, then from the file, and from
-- the defaults where neither is there, the two ports included; the flags that only stand or not,
-- `disable-sni` and `reduce-rtt`, can turn their setting on and not off; and a server, its port, a
-- token and a local port are there.
pub parse_raw-sources :
    (env : Env) (m : Matches) (r : RawConfig)
    → parse_raw env m ≡ ok r
    → (before : RawConfig) × (base env m ≡ ok before) × Required m before r × Flagged env m before r
parse_raw-sources env m r h =
    step (apply_flags env m) r (complete env m) (parse_raw_ran env m r h) λ raw done rest.
      let (flagged, kept) = apply_flags-Flagged env m raw r rest in
      let (before, read, (required, same)) = complete-Filled env m raw done in
      (
        before,
        read,
        Required-Kept m before raw r required kept,
        subst (λ (c : RawConfig). Flagged env m c r) same flagged,
      )
