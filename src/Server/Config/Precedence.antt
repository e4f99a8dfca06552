-- ===== src/Server/Config/Precedence.antt =====
-- Which source of a setting of server/src/config.rs counts.
use tuic.Prelude.{
  ◌≡◌, ◌≢◌, subst, refl, arith, [], none, some, ok, ok_or, ◌>>=◌, Result, inl, inr, Option-cases,
}
use tuic.Settings.{override, or_else, choose_list}
use tuic.Settings.Laws.{Chosen, override-Chosen, ok_injective, step}
use tuic.Server.Config.{
  Matches, Env, RawConfig, ConfigError, parse_port, parse_u32, parse_u64,
  parse_congestion_controller, parse_addr, parse_log_level,
}
use tuic.Server.Config.Default.{default_config}
use tuic.Server.Config.Parse.{
  from_file, complete_file, complete_flags, apply_flags, complete, parse_raw,
}

-- The settings under the flags: those of the file, or the defaults.
abbrev pub base : Env → Matches → Result ConfigError RawConfig
base env m = elim m.config [ none ↦ ok default_config | some path ↦ from_file env path ]

-- The settings that have a default.
abbrev pub Flagged : Env → Matches → RawConfig → RawConfig → Type 0
Flagged env m before r =
    Chosen (λ s. ok_or (env.parse_ip s) parse_addr) m.ip before.ip r.ip
    × Chosen parse_congestion_controller m.congestion_controller before.congestion_controller
        r.congestion_controller
    × Chosen parse_u32 m.max_idle_time before.max_idle_time r.max_idle_time
    × Chosen parse_u64 m.authentication_timeout before.authentication_timeout
        r.authentication_timeout
    × Chosen parse_u64 m.max_udp_relay_packet_size before.max_udp_relay_packet_size
        r.max_udp_relay_packet_size
    × Chosen (λ s. ok_or (env.parse_level s) parse_log_level) m.log_level before.log_level
        r.log_level
    × (r.alpn ≡ choose_list m.alpn before.alpn)

-- The settings that must be given.
abbrev pub Required : Matches → RawConfig → RawConfig → Type 0
Required m before r =
    (r.port ≢ none)
    × Chosen (λ s. parse_port s >>= λ n. ok (some n)) m.port before.port r.port
    × (r.token ≢ [])
    × (r.token ≡ choose_list m.token before.token)
    × (r.certificate ≢ none)
    × (r.certificate ≡ or_else m.certificate before.certificate)
    × (r.private_key ≢ none)
    × (r.private_key ≡ or_else m.private_key before.private_key)

-- The settings that have no default stay as they are.
abbrev Kept : RawConfig → RawConfig → Type 0
Kept before r =
    (r.port ≡ before.port)
    × (r.token ≡ before.token)
    × (r.certificate ≡ before.certificate)
    × (r.private_key ≡ before.private_key)

apply_flags-Flagged :
    (env : Env) (m : Matches) (before r : RawConfig)
    → apply_flags env m before ≡ ok r
    → Flagged env m before r × Kept before r
unfolding apply_flags
apply_flags-Flagged env m before r h = step _ _ (override _ m.ip before.ip) h λ ip' e1 h1.
    step _ _ (override _ m.congestion_controller before.congestion_controller) h1 λ cc' e2 h2.
      step _ _ (override _ m.max_idle_time before.max_idle_time) h2 λ idle' e3 h3.
        step _ _ (override _ m.authentication_timeout before.authentication_timeout) h3
          λ time' e4 h4.
            step _ _ (override _ m.max_udp_relay_packet_size before.max_udp_relay_packet_size) h4
              λ size' e5 h5. step _ _ (override _ m.log_level before.log_level) h5 λ level' e6 h6.
                subst (λ (r : RawConfig). Flagged env m before r × Kept before r)
                  (ok_injective _ r h6)
                  (
                    (
                      override-Chosen _ m.ip before.ip ip' e1,
                      override-Chosen _ m.congestion_controller before.congestion_controller cc' e2,
                      override-Chosen _ m.max_idle_time before.max_idle_time idle' e3,
                      override-Chosen _ m.authentication_timeout before.authentication_timeout time'
                          e4,
                      override-Chosen _ m.max_udp_relay_packet_size before.max_udp_relay_packet_size
                          size' e5,
                      override-Chosen _ m.log_level before.log_level level' e6,
                      refl,
                    ),
                    (refl, refl, refl, refl),
                  )

-- Settings whose required ones were filled in.
abbrev Filled : Matches → RawConfig → RawConfig → Type 0
Filled m before raw =
    Required m before raw
    × (raw ≡ record before {
      port = raw.port;
      token = raw.token;
      certificate = raw.certificate;
      private_key = raw.private_key;
    })

complete_flags-Filled :
    (m : Matches) (raw : RawConfig) → complete_flags m ≡ ok raw → Filled m default_config raw
unfolding complete_flags
complete_flags-Filled m raw h = ground arith

complete_file-Filled :
    (m : Matches) (before raw : RawConfig) → complete_file m before ≡ ok raw → Filled m before raw
unfolding complete_file
complete_file-Filled m before raw h = ground arith

Required-Kept :
    (m : Matches) (before raw r : RawConfig)
    → Required m before raw
    → Kept raw r
    → Required m before r
Required-Kept m before raw r h k = ground arith

-- Where the settings under the flags can be had.
complete-Filled :
    (env : Env) (m : Matches) (raw : RawConfig)
    → complete env m ≡ ok raw
    → (before : RawConfig) × (base env m ≡ ok before) × Filled m before raw
unfolding complete
complete-Filled env m raw h = elim (Option-cases m.config) [
  | inl e ↦ (default_config, rw e refl, complete_flags-Filled m raw (rw (complete, e) at h))
  | inr (path, e) ↦
      step (complete_file m) raw (from_file env path) (rw (complete, e) at h)
        λ before read rest. (before, rw e read, complete_file-Filled m before raw rest)
]

parse_raw_ran :
    (env : Env) (m : Matches) (r : RawConfig)
    → parse_raw env m ≡ ok r
    → (complete env m >>= apply_flags env m) ≡ ok r
unfolding parse_raw
parse_raw_ran env m r h = ground arith

-- Settings that are accepted come from the flags first, then from the file, and from the defaults
-- where there is no file: each setting with a flag, the port included, is the flag's value, and else
-- the one of the file or of the defaults; and a port, a token, a certificate and a key are there.
pub parse_raw-precedence :
    (env : Env) (m : Matches) (r : RawConfig)
    → parse_raw env m ≡ ok r
    → (before : RawConfig) × (base env m ≡ ok before) × Required m before r × Flagged env m before r
parse_raw-precedence env m r h =
    step (apply_flags env m) r (complete env m) (parse_raw_ran env m r h) λ raw done rest.
      let (flagged, kept) = apply_flags-Flagged env m raw r rest in
      let (before, read, (required, same)) = complete-Filled env m raw done in
      (
        before,
        read,
        Required-Kept m before raw r required kept,
        subst (λ (c : RawConfig). Flagged env m c r) same flagged,
      )
