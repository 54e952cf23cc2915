-- ===== src/Sidecar/Defs.antt =====
-- internal/sidecar/runner.go: how long a tick burns, and `Start` and `Stop` as the steps of two goroutines
-- that share the `Runner`. The race of the two on the fields `cancel` and `done`, which no lock guards, is
-- that of steps here: each is one read or write.
use hotpod.Prelude.{ℕ, ◌≡◌, Bool, true, false, Option, none, some, List, [], ◌∷◌, if◌then◌else◌}
use hotpod.Prelude.Int.{ℤ, pos, pos_part, is_pos, is_neg, ◌+ℤ◌, ◌-ℤ◌, ◌*ℤ◌, wrap_int64}

-- `time.Duration(rand.Int64N(int64(r.cpuJitter)*2+1)) - r.cpuJitter`; `random` is what `Int64N` returns,
-- and `none` is its panic at a bound that is not above 0.
unfoldable pub jitter_of : ℕ → ℤ → Option ℤ
jitter_of random jitter =
    if is_pos (wrap_int64 (wrap_int64 (jitter *ℤ pos 2) +ℤ pos 1))
    then some (wrap_int64 (pos random -ℤ jitter))
    else none

-- `burnDuration` of a tick in `cpuLoop`.
unfoldable pub burn_duration : ℕ → ℤ → ℤ → Option ℤ
unfolding jitter_of
burn_duration random baseline jitter =
    if is_pos jitter
    then elim (jitter_of random jitter) [
      | none ↦ none
      | some j ↦ let burn = wrap_int64 (baseline +ℤ j) in some (if is_neg burn then pos 0 else burn)
    ]
    else some baseline

-- What `cpuBurn` is called with in some ticks, by their random numbers; `none` is a panic.
unfoldable pub cpu_loop : ℤ → ℤ → List ℕ → Option (List ℤ)
unfolding burn_duration
cpu_loop baseline jitter [] = some []
cpu_loop baseline jitter (random ∷ randoms) =
    let rest = cpu_loop baseline jitter randoms in
    elim (burn_duration random baseline jitter) [
      | none ↦ none
      | some d ↦ elim rest [ none ↦ none | some ds ↦ some (if is_pos d then d ∷ ds else ds) ]
    ]

-- Where `Start` is: before it sets `cancel`, before it makes `done`, before it takes the memory, in
-- `cpuLoop`, before it closes `done`, and at its end.
pub data StartPoint : Type 0 where
  makes_cancel makes_done takes_memory burns closes ended : StartPoint

-- Where the first call of `Stop` is: not called yet, before it reads `done`, waiting for that, before it
-- drops the memory, and at its end.
pub data StopPoint : Type 0 where
  uncalled reads_done waits drops stopped : StopPoint

pub record Runner : Type 0 where
  pub memory_baseline : ℤ
  -- The length of `memory`.
  pub memory : ℕ
  pub has_cancel : Bool
  pub has_done : Bool
  -- Whether the context of `Start` is done, and whether `done` is closed.
  pub cancelled : Bool
  pub closed : Bool
  pub start_at : StartPoint
  pub stop_at : StopPoint

unfoldable pub new_runner : ℤ → Runner
new_runner baseline = record {
  memory_baseline = baseline;
  memory = 0;
  has_cancel = false;
  has_done = false;
  cancelled = false;
  closed = false;
  start_at = makes_cancel;
  stop_at = uncalled;
}

-- The next step of `Start`; `none` is a wait.
unfoldable pub start_step : Runner → Option Runner
start_step r = elim r.start_at [
  | makes_cancel ↦ some (record r { has_cancel = true; start_at = makes_done })
  | makes_done ↦ some (record r { has_done = true; start_at = takes_memory })
  | takes_memory ↦ some (record r {
    memory = if is_pos r.memory_baseline then pos_part r.memory_baseline else r.memory;
    start_at = burns;
  })
  | burns ↦ if r.cancelled then some (record r { start_at = closes }) else none
  | closes ↦ some (record r { closed = true; start_at = ended })
  | ended ↦ some r
]

-- The next step of `Stop`, through `stopOnce`: a call when the first is at its end changes nothing.
unfoldable pub stop_step : Runner → Option Runner
stop_step r = elim r.stop_at [
  | uncalled ↦
      some
        (record r { cancelled = if r.has_cancel then true else r.cancelled; stop_at = reads_done })
  | reads_done ↦ some (record r { stop_at = if r.has_done then waits else drops })
  | waits ↦ if r.closed then some (record r { stop_at = drops }) else none
  | drops ↦ some (record r { memory = 0; stop_at = stopped })
  | stopped ↦ some r
]

-- A step of one of the two.
pub data Step : Runner → Runner → Type 0 where
  of_start : (r r' : Runner) → start_step r ≡ some r' → Step r r'
  of_stop : (r r' : Runner) → stop_step r ≡ some r' → Step r r'

-- Some steps, one after the other.
pub data Steps : Runner → Runner → Type 0 where
  here : (r : Runner) → Steps r r
  step : (r r' r'' : Runner) → Steps r r' → Step r' r'' → Steps r r''
