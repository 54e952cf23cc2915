-- ===== src/Config/Validate.antt =====
-- `Validate` of internal/config/config.go: which settings are accepted.
use hotpod.Prelude.{◌≡◌, ◌↔◌, ◌⊎◌, Bool, true, not, ◌&&◌, ◌||◌, arith}
use hotpod.Prelude.Int.{ℤ, pos, ◌≤ℤ◌, is_neg, ltb_ℤ}
use hotpod.Prelude.Text.{Text, codes, text_eq, text_eq_iff}
use hotpod.Config.Result
use hotpod.Config.Result.{Result, ok, err, ◌>>=◌, ◌>>◌, refuse, refuse-ok}
use hotpod.Config.DirName.{validate_io_dir_name, IsSafeName, validate_io_dir_name_iff}

pub record Config : Type 0 where
  pub port : ℤ
  pub log_level : Text
  pub startup_delay : ℤ
  pub startup_jitter : ℤ
  pub shutdown_delay : ℤ
  pub shutdown_timeout : ℤ
  pub drain_immediately : Bool
  pub request_timeout : ℤ
  pub max_concurrent_ops : ℤ
  pub max_cpu_duration : ℤ
  pub max_memory_size : ℤ
  pub max_io_size : ℤ
  pub io_dir_name : Text
  pub enable_pprof : Bool
  pub disable_chaos : Bool
  pub disable_queue : Bool
  pub queue_max_depth : ℤ
  pub queue_default_workers : ℤ
  pub mode : Text
  pub sidecar_cpu_baseline : ℤ
  pub sidecar_cpu_jitter : ℤ
  pub sidecar_memory_baseline : ℤ
  pub sidecar_request_overhead : ℤ
  pub admin_token : Text

-- `validLevels[c.LogLevel]`
unfoldable pub valid_level : Text → Bool
valid_level l =
    text_eq l (codes "debug")
    || text_eq l (codes "info")
    || text_eq l (codes "warn")
    || text_eq l (codes "error")

unfoldable pub validate : Config → Result (Unit {0})
validate c = do
  refuse (ltb_ℤ port (pos 1) || ltb_ℤ (pos 65535) port) Result.bad_port
  refuse (is_neg startup_delay) Result.bad_startup_delay
  refuse (is_neg startup_jitter) Result.bad_startup_jitter
  refuse (is_neg shutdown_delay) Result.bad_shutdown_delay
  refuse (is_neg shutdown_timeout) Result.bad_shutdown_timeout
  refuse (is_neg request_timeout) Result.bad_request_timeout
  refuse (not (valid_level log_level)) Result.bad_log_level
  refuse (is_neg max_cpu_duration) Result.bad_max_cpu_duration
  refuse (is_neg max_memory_size) Result.bad_max_memory_size
  refuse (is_neg max_io_size) Result.bad_max_io_size
  validate_io_dir_name io_dir_name
  refuse (not (text_eq mode (codes "app")) && not (text_eq mode (codes "sidecar"))) Result.bad_mode
  refuse (is_neg sidecar_cpu_baseline || ltb_ℤ (pos 1000000000) sidecar_cpu_baseline)
      Result.bad_sidecar_cpu_baseline
  refuse (is_neg sidecar_cpu_jitter) Result.bad_sidecar_cpu_jitter
  refuse (is_neg sidecar_memory_baseline) Result.bad_sidecar_memory_baseline
  refuse (is_neg sidecar_request_overhead) Result.bad_sidecar_request_overhead
  ok tt
  where
    open c use {
      port, log_level, startup_delay, startup_jitter, shutdown_delay, shutdown_timeout,
      request_timeout, max_cpu_duration, max_memory_size, max_io_size, io_dir_name, mode,
      sidecar_cpu_baseline, sidecar_cpu_jitter, sidecar_memory_baseline, sidecar_request_overhead,
    }

abbrev NonNeg : ℤ → Type 0
NonNeg z = pos 0 ≤ℤ z

-- The settings that `Validate` means to accept.
pub record IsValid (c : Config) : Type 0 where
  pub port_from : pos 1 ≤ℤ c.port
  pub port_to : c.port ≤ℤ pos 65535
  pub startup_delay_ok : NonNeg c.startup_delay
  pub startup_jitter_ok : NonNeg c.startup_jitter
  pub shutdown_delay_ok : NonNeg c.shutdown_delay
  pub shutdown_timeout_ok : NonNeg c.shutdown_timeout
  pub request_timeout_ok : NonNeg c.request_timeout
  pub level_known :
      (c.log_level ≡ codes "debug")
      ⊎ (c.log_level ≡ codes "info")
      ⊎ (c.log_level ≡ codes "warn")
      ⊎ (c.log_level ≡ codes "error")
  pub max_cpu_duration_ok : NonNeg c.max_cpu_duration
  pub max_memory_size_ok : NonNeg c.max_memory_size
  pub max_io_size_ok : NonNeg c.max_io_size
  pub dir_name_safe : IsSafeName c.io_dir_name
  pub mode_known : (c.mode ≡ codes "app") ⊎ (c.mode ≡ codes "sidecar")
  pub sidecar_cpu_baseline_ok : NonNeg c.sidecar_cpu_baseline
  pub sidecar_cpu_baseline_to : c.sidecar_cpu_baseline ≤ℤ pos 1000000000
  pub sidecar_cpu_jitter_ok : NonNeg c.sidecar_cpu_jitter
  pub sidecar_memory_baseline_ok : NonNeg c.sidecar_memory_baseline
  pub sidecar_request_overhead_ok : NonNeg c.sidecar_request_overhead

valid_level_iff :
    (l : Text)
    → (valid_level l ≡ true)
      ↔ ((l ≡ codes "debug") ⊎ (l ≡ codes "info") ⊎ (l ≡ codes "warn") ⊎ (l ≡ codes "error"))
unfolding valid_level
valid_level_iff l = ground (
  arith,
  text_eq_iff l (codes "debug"),
  text_eq_iff l (codes "info"),
  text_eq_iff l (codes "warn"),
  text_eq_iff l (codes "error"),
)

accepted : (c : Config) → validate c ≡ ok tt → IsValid c
unfolding validate
accepted c e = ground (
  arith,
  valid_level_iff c.log_level,
  validate_io_dir_name_iff c.io_dir_name,
  text_eq_iff c.mode (codes "app"),
  text_eq_iff c.mode (codes "sidecar"),
)

passes : (c : Config) → IsValid c → validate c ≡ ok tt
unfolding validate
passes c v = ground (
  arith,
  valid_level_iff c.log_level,
  validate_io_dir_name_iff c.io_dir_name,
  text_eq_iff c.mode (codes "app"),
  text_eq_iff c.mode (codes "sidecar"),
)

-- `Validate` accepts exactly the valid settings: a port from 1 to 65535, no negative duration or size,
-- a known log level and mode, a safe directory name, and a sidecar baseline of at most a second.
pub validate_iff : (c : Config) → (validate c ≡ ok tt) ↔ IsValid c
validate_iff c = (accepted c, passes c)
