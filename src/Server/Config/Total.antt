-- ===== src/Server/Config/Total.antt =====
-- The settings of server/src/config.rs are accepted or refused, without a panic.
use tuic.Prelude.{
  ℕ, ◌≢◌, arith, List, Result, err, panicked, Answer, success, failure, Result-cases, inl, inr,
}
use tuic.Server.Certificate.{load_certificates_total, load_private_key_total}
use tuic.Settings.Laws.{chain_total, parse_below_total, override_total}
use tuic.Server.Config.{
  Matches, Env, RawConfig, ConfigError, parse_int, parse_congestion_controller,
}
use tuic.Server.Config.Build.{Config, build, parse}
use tuic.Server.Config.Parse.{
  complete_file, complete_flags, from_file, apply_flags, complete, parse_raw,
}
use tuic.Server.Config.Precedence.{Required, parse_raw-precedence}

controller_total : (s : List ℕ) → parse_congestion_controller s ≢ panicked
unfolding parse_congestion_controller
controller_total s p = ground arith

apply_flags_total : (env : Env) (m : Matches) (raw : RawConfig) → apply_flags env m raw ≢ panicked
unfolding apply_flags
apply_flags_total env m raw =
    chain_total _ _ (override_total _ m.ip raw.ip (λ s p. ground arith)) λ ip'.
      chain_total _ _
        (override_total _ m.congestion_controller raw.congestion_controller controller_total)
        λ c'.
          chain_total _ _
            (override_total _ m.max_idle_time raw.max_idle_time (parse_below_total _ _))
            λ i'.
              chain_total _ _
                (override_total _ m.authentication_timeout raw.authentication_timeout
                  (parse_below_total _ _))
                λ t'.
                  chain_total _ _
                    (override_total _ m.max_udp_relay_packet_size raw.max_udp_relay_packet_size
                      (parse_below_total _ _))
                    λ s'.
                      chain_total _ _
                        (override_total _ m.log_level raw.log_level (λ s p. ground arith))
                        λ l' p. cc

complete_total : (env : Env) (m : Matches) → complete env m ≢ panicked
unfolding complete complete_file complete_flags from_file
complete_total env m p = ground (arith, parse_below_total {E = ConfigError} parse_int 65536)

raw_total : (env : Env) (m : Matches) → parse_raw env m ≢ panicked
unfolding parse_raw
raw_total env m p =
    let whole =
      chain_total (complete env m) (apply_flags env m) (complete_total env m)
        (apply_flags_total env m) in
    ground arith

build_total :
    (env : Env) (m : Matches) (before raw : RawConfig)
    → Required m before raw
    → build env raw ≢ panicked
unfolding build
build_total env m before raw h p =
    ground (arith, load_certificates_total env.files, load_private_key_total env.files)

refused : (e : ConfigError) → ◌≢◌ {A = Result ConfigError Config} (err e) panicked
refused e p = cc

-- Whatever the command line, the file and the libraries answer, the server's settings are accepted
-- or refused with an error: none of the calls of `unwrap` on them panics.
pub parse-ne-panicked : (env : Env) (args : Answer ℕ Matches) → parse env args ≢ panicked
unfolding parse
parse-ne-panicked env (failure e) p = cc
parse-ne-panicked env (success m) p = elim (Result-cases (parse_raw env m)) [
  | inl (raw, e) ↦
      let (before, read, required, _) = parse_raw-precedence env m raw e in
      build_total env m before raw required (rw e at p)
  | inr (inl (e, h)) ↦ refused e (rw h at p)
  | inr (inr h) ↦ raw_total env m h
]
