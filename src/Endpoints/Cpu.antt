-- ===== src/Endpoints/Cpu.antt =====
-- internal/handlers/cpu.go. The arithmetic that burns the time has no effect and is left out: a loop counts
-- how often it found the context not done yet, and `looks` says how often that is for each goroutine.
use hotpod.Prelude.{ℕ, zero, suc, Bool, true, false, List, [], ◌∷◌, if◌then◌else◌, Option, some}
use hotpod.Prelude.Int.{ℤ, pos, pos_part, is_neg, ltb_ℤ, ◌+ℤ◌, wrap_int64}
use hotpod.Prelude.Text.{Text, codes}
use hotpod.Load.Defs.{Tracker, cpu}
use hotpod.Handlers.Response.{
  Response, answer, ◌>>=◌, ◌>>◌, reject, Query, invalid_parameter, parse_duration,
}
use hotpod.Endpoints.Defs.{int_param, choice_param, is_in, cap, handle}

-- The order of a call of `/cpu`, limit applied.
pub record CpuOrder : Type 0 where
  pub duration : ℤ
  pub cores : ℤ
  pub intensity : Text
  pub limit_applied : Bool

abbrev pub intensities : List Text
intensities = codes "low" ∷ codes "medium" ∷ codes "high" ∷ []

unfoldable pub read_cpu : (Text → Option ℤ) → ℤ → Query → Response CpuOrder
unfolding parse_duration int_param choice_param cap
read_cpu duration max_duration query = do
  given ← parse_duration duration query (codes "duration") (pos 1000000000)
  reject (is_neg given) 400 invalid_parameter
  cores ← int_param query (codes "cores") (pos 1)
  reject (ltb_ℤ cores (pos 1)) 400 invalid_parameter
  intensity ← choice_param query (codes "intensity") (codes "medium") intensities
  answer (record {
    duration = (cap max_duration given).0;
    cores = cores;
    intensity = intensity;
    limit_applied = (cap max_duration given).1;
  })

-- Why a context is done.
pub data Ended : Type 0 where
  canceled deadline_exceeded : Ended

-- The rounds of a loop, from the count so far.
unfoldable pub count_rounds : ℕ → ℤ → ℤ
count_rounds zero iterations = iterations
count_rounds (suc looks) iterations = count_rounds looks (wrap_int64 (iterations +ℤ pos 1))

unfoldable pub cpu_work : ℕ → Text → ℤ
unfolding count_rounds
cpu_work looks intensity = if is_in intensity intensities then count_rounds looks (pos 0) else pos 0

-- `totalIterations` after the goroutines of the first `n` cores: what they add can be added in any order.
unfoldable pub total_iterations : (ℕ → ℕ) → Text → ℕ → ℤ
unfolding cpu_work
total_iterations looks intensity zero = pos 0
total_iterations looks intensity (suc n) =
    wrap_int64 (total_iterations looks intensity n +ℤ cpu_work (looks n) intensity)

unfoldable pub is_canceled : Ended → Bool
is_canceled canceled = true
is_canceled deadline_exceeded = false

unfoldable pub burn_cpu : (ℕ → ℕ) → Ended → ℤ → Text → ℤ × Bool
unfolding total_iterations is_canceled
burn_cpu looks ended cores intensity =
    (total_iterations looks intensity (pos_part cores), is_canceled ended)

pub record CpuResponse : Type 0 where
  pub order : CpuOrder
  pub iterations : ℤ
  pub cancelled : Bool

unfoldable pub run_cpu : (ℕ → ℕ) → Ended → CpuOrder → Option CpuResponse
unfolding burn_cpu
run_cpu looks ended order =
    let (iterations, cancelled) = burn_cpu looks ended order.cores order.intensity in
    some (record { order = order; iterations = iterations; cancelled = cancelled })

-- `CPU`
unfoldable pub cpu_handler :
    (Text → Option ℤ)
    → ℤ
    → (ℕ → ℕ)
    → Ended
    → Query
    → (Tracker → Tracker)
    → Tracker
    → Tracker × Option (Response CpuResponse)
unfolding handle read_cpu run_cpu
cpu_handler duration max_duration looks ended query =
    handle cpu (read_cpu duration max_duration query) (run_cpu looks ended)
