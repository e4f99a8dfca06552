-- ===== src/Client/Config/Total.antt =====
-- The settings of client/src/config.rs are accepted or refused, without a panic.
use tuic.Prelude.{
  ℕ, ◌≢◌, arith, List, Result, err, panicked, Answer, success, failure, Result-cases, inl, inr,
}
use tuic.Settings.Laws.{chain_total, parse_below_total, override_total}
use tuic.Client.Certificate.Laws.{load_certificates_total}
use tuic.Client.Config.{
  Matches, Env, RawConfig, ConfigError, parse_int, parse_congestion_controller,
  parse_udp_relay_mode,
}
use tuic.Client.Config.Parse.{
  complete_file, complete_flags, from_file, apply_flags, complete, parse_raw,
}
use tuic.Client.Config.Build.{Config, build, parse}
use tuic.Client.Config.Precedence.{Required, parse_raw-sources}

controller_total : (s : List ℕ) → parse_congestion_controller s ≢ panicked
unfolding parse_congestion_controller
controller_total s p = ground arith

mode_total : (s : List ℕ) → parse_udp_relay_mode s ≢ panicked
unfolding parse_udp_relay_mode
mode_total s p = ground arith

apply_flags_total : (env : Env) (m : Matches) (raw : RawConfig) → apply_flags env m raw ≢ panicked
unfolding apply_flags
apply_flags_total env m raw =
    chain_total _ _ (override_total _ m.server_ip raw.relay.ip (λ s p. ground arith)) λ ip'.
      chain_total _ _ (override_total _ m.udp_relay_mode raw.relay.udp_relay_mode mode_total)
        λ mode'.
          chain_total _ _
            (override_total _ m.congestion_controller raw.relay.congestion_controller
              controller_total)
            λ c'.
              chain_total _ _
                (override_total _ m.heartbeat_interval raw.relay.heartbeat_interval
                  (parse_below_total _ _))
                λ i'.
                  chain_total _ _
                    (override_total _ m.request_timeout raw.relay.request_timeout
                      (parse_below_total _ _))
                    λ t'.
                      chain_total _ _
                        (override_total _ m.max_udp_relay_packet_size
                          raw.relay.max_udp_relay_packet_size (parse_below_total _ _))
                        λ s'.
                          chain_total _ _
                            (override_total _ m.local_ip raw.local'.ip (λ s p. ground arith))
                            λ l'.
                              chain_total _ _
                                (override_total _ m.log_level raw.log_level (λ s p. ground arith))
                                λ v' p. cc

complete_total : (env : Env) (m : Matches) → complete env m ≢ panicked
unfolding complete complete_file complete_flags from_file
complete_total env m p = ground (arith, parse_below_total {E = ConfigError} parse_int 65536)

raw_total : (env : Env) (m : Matches) → parse_raw env m ≢ panicked
unfolding parse_raw
raw_total env m p =
    let whole =
      chain_total (complete env m) (apply_flags env m) (complete_total env m)
        (apply_flags_total env m) in
    ground arith

build_total :
    (env : Env) (m : Matches) (before raw : RawConfig)
    → Required m before raw
    → build env raw ≢ panicked
unfolding build
build_total env m before raw h p =
    let loaded = load_certificates_total env.roots raw.relay.certificates in ground arith

refused : (e : ConfigError) → ◌≢◌ {A = Result ConfigError Config} (err e) panicked
refused e p = cc

-- Whatever the command line, the file and the libraries answer, the client's settings are accepted
-- or refused with an error: none of the calls of `unwrap` on them panics.
pub parse_total : (env : Env) (args : Answer ℕ Matches) → parse env args ≢ panicked
unfolding parse
parse_total env (failure e) p = cc
parse_total env (success m) p = elim (Result-cases (parse_raw env m)) [
  | inl (raw, e) ↦
      let (before, read, required, _) = parse_raw-sources env m raw e in
      build_total env m before raw required (rw e at p)
  | inr (inl (e, h)) ↦ refused e (rw h at p)
  | inr (inr h) ↦ raw_total env m h
]
