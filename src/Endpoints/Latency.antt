-- ===== src/Endpoints/Latency.antt =====
-- internal/handlers/latency.go: `Latency`. `random` is what `rand.Int64N` returns, and `cancelled` whether
-- the context ended before the timer.
use hotpod.Prelude.{ℕ, Bool, ◌||◌, Option, none, some, if◌then◌else◌}
use hotpod.Prelude.Int.{ℤ, pos, is_pos, ltb_ℤ, ◌+ℤ◌, wrap_int64}
use hotpod.Prelude.Text.{Text, codes}
use hotpod.Load.Defs.{Tracker, latency}
use hotpod.Handlers.Response.{
  Response, answer, ◌>>=◌, ◌>>◌, reject, Query, invalid_parameter, parse_duration,
}
use hotpod.Endpoints.Defs.{int_param, handle}

pub record LatencyOrder : Type 0 where
  pub duration : ℤ
  pub jitter : ℤ
  pub status : ℤ

unfoldable pub read_latency : (Text → Option ℤ) → Query → Response LatencyOrder
unfolding parse_duration int_param
read_latency duration query = do
  time ← parse_duration duration query (codes "duration") (pos 100000000)
  jitter ← parse_duration duration query (codes "jitter") (pos 0)
  status ← int_param query (codes "status") (pos 200)
  reject (ltb_ℤ status (pos 100) || ltb_ℤ (pos 599) status) 400 invalid_parameter
  answer (record { duration = time; jitter = jitter; status = status })

-- `actualDuration`
unfoldable pub actual_duration : ℕ → LatencyOrder → ℤ
actual_duration random order =
    if is_pos order.jitter then wrap_int64 (order.duration +ℤ pos random) else order.duration

-- The status that is answered, and the time that was slept for.
pub record LatencyResponse : Type 0 where
  pub duration : ℤ
  pub slept : ℤ
  pub jitter : Option ℤ
  pub status : ℤ
  pub cancelled : Bool

unfoldable pub run_latency : ℕ → Bool → LatencyOrder → Option LatencyResponse
unfolding actual_duration
run_latency random cancelled order = some (record {
  duration = order.duration;
  slept = actual_duration random order;
  jitter = if is_pos order.jitter then some order.jitter else none;
  status = order.status;
  cancelled = cancelled;
})

-- `Latency`
unfoldable pub latency_handler :
    (Text → Option ℤ)
    → ℕ
    → Bool
    → Query
    → (Tracker → Tracker)
    → Tracker
    → Tracker × Option (Response LatencyResponse)
unfolding handle read_latency run_latency
latency_handler duration random cancelled query =
    handle latency (read_latency duration query) (run_latency random cancelled)
