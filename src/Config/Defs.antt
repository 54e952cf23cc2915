-- ===== src/Config/Defs.antt =====
-- internal/config/config.go: `Config`, its defaults, and `Load`. The environment is a function from
-- names to values; durations are in nanoseconds.
use mathlib.Core.Path.{fun_ext}
use hotpod.Prelude.{subst, sym, refl, ℕ, ◌*◌, ◌^◌, ◌≡◌, Bool, false, Option, none, some, []}
use hotpod.Prelude.Int.{ℤ, pos}
use hotpod.Prelude.Text.{Text, codes, text_eq}
use hotpod.Prelude.Float.{Float}
use hotpod.Config.Result.{Result, ok, err, ◌>>=◌, ◌>>◌, invalid_env, or_fail, >>=-eq-ok, checked-ok}
use hotpod.Config.Parse.{parse_int, parse_bool}
use hotpod.Config.DirName.{validate_io_dir_name}
use hotpod.Config.Size.{parse_size}
use hotpod.Config.Cpu.{Parsers, parse_cpu, millisecond}
use hotpod.Config.Validate.{Config, validate, IsValid, validate_iff, valid_level}

abbrev pub second : ℕ
second = 1000000000

unfoldable pub default_config : Config
default_config = record {
  port = pos 8080;
  log_level = codes "info";
  startup_delay = pos 0;
  startup_jitter = pos 0;
  shutdown_delay = pos 0;
  shutdown_timeout = pos (30 * second);
  drain_immediately = false;
  request_timeout = pos (300 * second);
  max_concurrent_ops = pos 100;
  max_cpu_duration = pos (60 * second);
  max_memory_size = pos (2 ^ 30);
  max_io_size = pos (2 ^ 30);
  io_dir_name = codes "hotpod";
  enable_pprof = false;
  disable_chaos = false;
  disable_queue = false;
  queue_max_depth = pos 10000;
  queue_default_workers = pos 1;
  mode = codes "app";
  sidecar_cpu_baseline = pos (100 * millisecond);
  sidecar_cpu_jitter = pos (10 * millisecond);
  sidecar_memory_baseline = pos (50 * 2 ^ 20);
  sidecar_request_overhead = pos 0;
  admin_token = [];
}

abbrev pub Env : Type 0
Env = Text → Option Text

unfoldable pub get_env_string : Env → Text → Text → Text
get_env_string env key default = elim (env key) [ none ↦ default | some v ↦ v ]

-- `fmt.Errorf("invalid %s: %w", key, err)` around a parser's error.
unfoldable pub wrap_error : {A : Type 0} → Text → Result A → Result A
wrap_error key (ok a) = ok a
wrap_error key (err e) = err (invalid_env key)

-- `getEnvInt`, `getEnvDuration`, `getEnvBool`, `getEnvSize` and `getEnvCPU` are this, with their parser.
unfoldable pub get_env : {A : Type 0} → (Text → Result A) → Env → Text → A → Result A
unfolding wrap_error
get_env parse env key default = elim (env key) [
  | none ↦ ok default
  | some v ↦ wrap_error key (parse v)
]

unfoldable pub read_int : Text → Result ℤ
read_int v = or_fail (parse_int v) (invalid_env [])

unfoldable pub read_bool : Text → Result Bool
read_bool v = or_fail (parse_bool v) (invalid_env [])

module _ {F : Type 0} ⦃fl : Float F⦄ (ps : Parsers F) (env : Env) where
  unfoldable pub read_duration : Text → Result ℤ
  read_duration v = or_fail (ps.parse_duration v) (invalid_env [])

  -- The settings before their validation. The first that does not parse ends the reading.
  unfoldable pub read_config : Result Config
  unfolding get_env_string get_env read_int read_bool read_duration
  read_config = do
    port ← get_env read_int env (codes "HOTPOD_PORT") default_config.port
    let log_level = get_env_string env (codes "HOTPOD_LOG_LEVEL") default_config.log_level
    startup_delay ←
        get_env read_duration env (codes "HOTPOD_STARTUP_DELAY") default_config.startup_delay
    startup_jitter ←
        get_env read_duration env (codes "HOTPOD_STARTUP_JITTER") default_config.startup_jitter
    shutdown_delay ←
        get_env read_duration env (codes "HOTPOD_SHUTDOWN_DELAY") default_config.shutdown_delay
    shutdown_timeout ←
        get_env read_duration env (codes "HOTPOD_SHUTDOWN_TIMEOUT") default_config.shutdown_timeout
    drain_immediately ←
        get_env read_bool env (codes "HOTPOD_DRAIN_IMMEDIATELY") default_config.drain_immediately
    request_timeout ←
        get_env read_duration env (codes "HOTPOD_REQUEST_TIMEOUT") default_config.request_timeout
    max_concurrent_ops ←
        get_env read_int env (codes "HOTPOD_MAX_CONCURRENT_OPS") default_config.max_concurrent_ops
    max_cpu_duration ←
        get_env read_duration env (codes "HOTPOD_MAX_CPU_DURATION") default_config.max_cpu_duration
    max_memory_size ←
        get_env parse_size env (codes "HOTPOD_MAX_MEMORY_SIZE") default_config.max_memory_size
    max_io_size ← get_env parse_size env (codes "HOTPOD_MAX_IO_SIZE") default_config.max_io_size
    let io_dir_name = get_env_string env (codes "HOTPOD_IO_DIR_NAME") default_config.io_dir_name
    enable_pprof ← get_env read_bool env (codes "HOTPOD_ENABLE_PPROF") default_config.enable_pprof
    disable_chaos ←
        get_env read_bool env (codes "HOTPOD_DISABLE_CHAOS") default_config.disable_chaos
    disable_queue ←
        get_env read_bool env (codes "HOTPOD_DISABLE_QUEUE") default_config.disable_queue
    queue_max_depth ←
        get_env read_int env (codes "HOTPOD_QUEUE_MAX_DEPTH") default_config.queue_max_depth
    queue_default_workers ←
        get_env read_int env (codes "HOTPOD_QUEUE_DEFAULT_WORKERS")
          default_config.queue_default_workers
    let mode = get_env_string env (codes "HOTPOD_MODE") default_config.mode
    sidecar_cpu_baseline ←
        get_env (parse_cpu ps) env (codes "HOTPOD_SIDECAR_CPU_BASELINE")
          default_config.sidecar_cpu_baseline
    sidecar_cpu_jitter ←
        get_env (parse_cpu ps) env (codes "HOTPOD_SIDECAR_CPU_JITTER")
          default_config.sidecar_cpu_jitter
    sidecar_memory_baseline ←
        get_env parse_size env (codes "HOTPOD_SIDECAR_MEMORY_BASELINE")
          default_config.sidecar_memory_baseline
    sidecar_request_overhead ←
        get_env (parse_cpu ps) env (codes "HOTPOD_SIDECAR_REQUEST_OVERHEAD")
          default_config.sidecar_request_overhead
    let admin_token = get_env_string env (codes "HOTPOD_ADMIN_TOKEN") default_config.admin_token
    ok (record {
      port = port;
      log_level = log_level;
      startup_delay = startup_delay;
      startup_jitter = startup_jitter;
      shutdown_delay = shutdown_delay;
      shutdown_timeout = shutdown_timeout;
      drain_immediately = drain_immediately;
      request_timeout = request_timeout;
      max_concurrent_ops = max_concurrent_ops;
      max_cpu_duration = max_cpu_duration;
      max_memory_size = max_memory_size;
      max_io_size = max_io_size;
      io_dir_name = io_dir_name;
      enable_pprof = enable_pprof;
      disable_chaos = disable_chaos;
      disable_queue = disable_queue;
      queue_max_depth = queue_max_depth;
      queue_default_workers = queue_default_workers;
      mode = mode;
      sidecar_cpu_baseline = sidecar_cpu_baseline;
      sidecar_cpu_jitter = sidecar_cpu_jitter;
      sidecar_memory_baseline = sidecar_memory_baseline;
      sidecar_request_overhead = sidecar_request_overhead;
      admin_token = admin_token;
    })

  unfoldable pub load : Result Config
  unfolding read_config
  load = do cfg ← read_config; validate cfg; ok cfg

  -- What `Load` returns is valid: it has passed `Validate`, which nothing in the environment avoids.
  pub load-IsValid : (cfg : Config) → load ≡ ok cfg → IsValid cfg
  unfolding load
  load-IsValid cfg e =
      let (read, _, checked) = >>=-eq-ok read_config (λ c. validate c >> ok c) e in
      let (valid, same) = checked-ok (validate read) read cfg checked in
      (validate_iff cfg).0 (subst (λ c. validate c ≡ ok tt) same valid)

load_unset :
    {F : Type 0} ⦃fl : Float F⦄ (ps : Parsers F) → load ps (λ key. none) ≡ ok default_config
unfolding load default_config validate validate_io_dir_name text_eq valid_level
load_unset ps = refl

-- With no variable set, `Load` returns the defaults.
pub load-default :
    {F : Type 0} ⦃fl : Float F⦄ (ps : Parsers F) (env : Env)
    → ((key : Text) → env key ≡ none)
    → load ps env ≡ ok default_config
load-default ps env h =
    subst (λ env'. load ps env' ≡ ok default_config) (sym (fun_ext h)) (load_unset ps)
