-- ===== src/Endpoints/Work.antt =====
-- internal/handlers/work.go: `Work` and `runWorkload`. The three goroutines share nothing but their results.
-- `none` of `run_workload` and of `work_handler` is a panic in one of them: nobody recovers that, so that
-- the process ends.
use hotpod.Prelude.{ℕ, Bool, ◌&&◌, ◌||◌, Option, none, some, List, [], ◌∷◌, if◌then◌else◌}
use hotpod.Prelude.Int.{ℤ, pos}
use hotpod.Prelude.Text.{Text, codes}
use hotpod.Prelude.Dict.{lookup}
use hotpod.Prelude.Float.{Float, FloatArith}
use hotpod.Config.DirName.{is_empty}
use hotpod.Load.Defs.{Tracker, work}
use hotpod.Handlers.Response.{
  Response, answer, failed, ◌>>=◌, ◌>>◌, reject, or_invalid, Query, invalid_parameter,
}
use hotpod.Endpoints.Defs.{cap, handle}
use hotpod.Endpoints.Cpu.{Ended, burn_cpu}
use hotpod.Endpoints.Memory.{hold_memory}

pub record Profile : Type 0 where
  pub cpu_duration : ℤ
  pub cpu_cores : ℤ
  pub intensity : Text
  pub memory_size : ℤ
  pub latency : ℤ

unfoldable pub work_profiles : List (Text × Profile)
work_profiles =
    (
      codes "web",
      record {
        cpu_duration = pos 20000000;
        cpu_cores = pos 1;
        intensity = codes "medium";
        memory_size = pos 5242880;
        latency = pos 50000000;
      },
    )
    ∷ (
      codes "api",
      record {
        cpu_duration = pos 50000000;
        cpu_cores = pos 1;
        intensity = codes "medium";
        memory_size = pos 2097152;
        latency = pos 20000000;
      },
    )
    ∷ (
      codes "worker",
      record {
        cpu_duration = pos 200000000;
        cpu_cores = pos 2;
        intensity = codes "high";
        memory_size = pos 52428800;
        latency = pos 100000000;
      },
    )
    ∷ (
      codes "heavy",
      record {
        cpu_duration = pos 500000000;
        cpu_cores = pos 4;
        intensity = codes "high";
        memory_size = pos 104857600;
        latency = pos 10000000;
      },
    )
    ∷ []

unfoldable pub read_profile : Query → Response (Text × Profile)
unfolding is_empty lookup work_profiles
read_profile query =
    let given = query (codes "profile") in
    let name = if is_empty given then codes "web" else given in
    elim (lookup name work_profiles) [
      | none ↦ failed 400 invalid_parameter
      | some profile ↦ answer (name, profile)
    ]

-- The limits of a server.
pub record WorkLimits : Type 0 where
  pub max_cpu_duration : ℤ
  pub max_memory_size : ℤ

-- The results of the goroutine that holds memory and of the one that sleeps, by what they meet: the random
-- bytes, whether `make` fails, and whether the context ended before the timer.
pub record Surroundings : Type 0 where
  pub words : ℕ → ℕ
  pub halves : ℕ → ℕ
  pub looks : ℕ → ℕ
  pub ended : Ended
  pub too_large : Bool
  pub memory_cancelled : Bool
  pub sleep_cancelled : Bool

unfoldable pub run_workload : Surroundings → ℤ → Text → ℤ → Option (ℤ × Bool)
unfolding burn_cpu hold_memory
run_workload s cores intensity memory_size =
    let (iterations, cpu_cancelled) = burn_cpu s.looks s.ended cores intensity in
    elim (hold_memory s.words s.halves s.too_large s.memory_cancelled memory_size
      (codes "random")) [
        | none ↦ none
        | some cut ↦ some (iterations, cpu_cancelled || cut || s.sleep_cancelled)
      ]

pub record WorkOrder (F : Type 0) : Type 0 where
  pub profile_name : Text
  pub profile : Profile
  pub variance : F
  pub cpu_duration : ℤ
  pub memory_size : ℤ
  pub latency : ℤ
  pub limits_applied : Bool

pub record WorkResponse (F : Type 0) : Type 0 where
  pub order : WorkOrder F
  pub cpu_iterations : ℤ
  pub cancelled : Bool

module _ {F : Type 0} ⦃fl : Float F⦄ where
  open fl use {ltb_F, leb_F, zero_F, one_F, nan}

  -- `parse_float` is `strconv.ParseFloat`.
  unfoldable pub given_variance : (Text → Option F) → Text → Response F
  given_variance parse_float text = do
    variance ← or_invalid (parse_float text)
    reject (ltb_F variance zero_F || ltb_F one_F variance) 400 invalid_parameter
    answer variance

  unfoldable pub variance_param : (Text → Option F) → Query → Response F
  unfolding is_empty given_variance
  variance_param parse_float query =
      let given = query (codes "variance") in
      if is_empty given then answer zero_F else given_variance parse_float given

  unfoldable pub run_work : Surroundings → WorkOrder F → Option (WorkResponse F)
  unfolding run_workload
  run_work s order =
      let profile = order.profile in
      elim (run_workload s profile.cpu_cores profile.intensity order.memory_size) [
        | none ↦ none
        | some (iterations, cut) ↦
            some (record { order = order; cpu_iterations = iterations; cancelled = cut })
      ]

  module _ ⦃fa : FloatArith F nan⦄ where
    open fa use {two_F, add_F, sub_F, mul_F, of_int, to_int}

    -- `applyVariance`, and `applyVarianceInt64`, which does the same; `u` is what `rand.Float64` returns.
    unfoldable pub apply_variance : F → ℤ → F → ℤ
    apply_variance u n variance =
        if leb_F variance zero_F && leb_F zero_F variance
        then n
        else to_int (mul_F (of_int n) (add_F one_F (mul_F (sub_F (mul_F u two_F) one_F) variance)))

    -- The three sizes of a profile, varied and limited.
    unfoldable pub new_order : WorkLimits → F → F → F → Text → Profile → F → WorkOrder F
    unfolding apply_variance cap
    new_order limits u v w name profile variance =
        let (cpu_duration, cpu_capped) =
          cap limits.max_cpu_duration (apply_variance u profile.cpu_duration variance) in
        let (memory_size, memory_capped) =
          cap limits.max_memory_size (apply_variance v profile.memory_size variance) in
        record {
          profile_name = name;
          profile = profile;
          variance = variance;
          cpu_duration = cpu_duration;
          memory_size = memory_size;
          latency = apply_variance w profile.latency variance;
          limits_applied = cpu_capped || memory_capped;
        }

    unfoldable pub read_work :
        WorkLimits → (Text → Option F) → F → F → F → Query → Response (WorkOrder F)
    unfolding read_profile variance_param new_order
    read_work limits parse_float u v w query = do
      chosen ← read_profile query
      variance ← variance_param parse_float query
      answer (new_order limits u v w chosen.0 chosen.1 variance)

    -- `Work`
    unfoldable pub work_handler :
        WorkLimits
        → (Text → Option F)
        → F
        → F
        → F
        → Surroundings
        → Query
        → (Tracker → Tracker)
        → Tracker
        → Tracker × Option (Response (WorkResponse F))
    unfolding handle read_work run_work
    work_handler limits parse_float u v w s query =
        handle work (read_work limits parse_float u v w query) (run_work s)
