-- ===== src/Endpoints/Info.antt =====
-- `Info` of internal/handlers/info.go. Instants and durations are in nanoseconds, not printed, except that
-- the uptime is rounded to seconds; what the runtime counts is an argument.
use hotpod.Prelude.{ℕ, ◌+◌, ◌-◌, ◌*◌, ◌/◌, Bool, Option, none, some, ◌==◌, if◌then◌else◌}
use hotpod.Prelude.Int.{ℤ, pos, negsuc, time_sub}
use hotpod.Prelude.Text.{Text}
use hotpod.Lifecycle.Defs.{Lifecycle, state_string, is_ready, is_shutting_down}
use hotpod.Config.Validate.{Config}
use hotpod.Config.DirName.{io_path}
use hotpod.Endpoints.SizeText.{format_size}

pub record InfoLifecycle : Type 0 where
  pub state : Text
  pub started_at : ℕ
  pub ready_at : Option ℕ
  pub startup_complete : Bool
  pub shutting_down : Bool
  pub in_flight_requests : ℤ

pub record InfoResources : Type 0 where
  pub cpu_cores : ℕ
  pub memory_total : ℕ
  pub memory_used : ℕ
  pub goroutines : ℕ

pub record InfoConfig : Type 0 where
  pub port : ℤ
  pub log_level : Text
  pub max_cpu_duration : ℤ
  pub max_memory_size : Text
  pub max_io_size : Text
  pub io_path : Text
  pub max_concurrent_ops : ℤ
  pub request_timeout : ℤ
  pub startup_delay : ℤ
  pub startup_jitter : ℤ
  pub shutdown_delay : ℤ
  pub shutdown_timeout : ℤ
  pub drain_immediately : Bool

pub record InfoResponse : Type 0 where
  pub version : Text
  pub uptime : ℤ
  pub lifecycle : InfoLifecycle
  pub resources : InfoResources
  pub config : InfoConfig

-- `d.Round(time.Second)`, half a second away from zero, for what does not overflow.
unfoldable pub round_second : ℤ → ℤ
round_second (pos n) = pos ((n + 500000000) / 1000000000 * 1000000000)
round_second (negsuc n) =
    let away = (n + 500000001) / 1000000000 * 1000000000 in
    if away == 0 then pos 0 else negsuc (away - 1)

unfoldable pub info_lifecycle : Lifecycle → InfoLifecycle
unfolding state_string is_ready is_shutting_down
info_lifecycle lc = record {
  state = state_string lc.state;
  started_at = lc.start_time;
  ready_at = if lc.ready_time == 0 then none else some lc.ready_time;
  startup_complete = is_ready lc;
  shutting_down = is_shutting_down lc;
  in_flight_requests = lc.in_flight;
}

unfoldable pub info_config : Config → InfoConfig
unfolding format_size io_path
info_config c = record {
  port = c.port;
  log_level = c.log_level;
  max_cpu_duration = c.max_cpu_duration;
  max_memory_size = format_size c.max_memory_size;
  max_io_size = format_size c.max_io_size;
  io_path = io_path c.io_dir_name;
  max_concurrent_ops = c.max_concurrent_ops;
  request_timeout = c.request_timeout;
  startup_delay = c.startup_delay;
  startup_jitter = c.startup_jitter;
  shutdown_delay = c.shutdown_delay;
  shutdown_timeout = c.shutdown_timeout;
  drain_immediately = c.drain_immediately;
}

unfoldable pub info : Text → ℕ → InfoResources → Config → Lifecycle → InfoResponse
unfolding info_lifecycle info_config round_second
info version now resources config lc = record {
  version = version;
  uptime = round_second (time_sub now lc.start_time);
  lifecycle = info_lifecycle lc;
  resources = resources;
  config = info_config config;
}
