-- ===== src/Sidecar/Turns.antt =====
-- That `Stop` of internal/sidecar/runner.go comes to its end, under any schedule that is fair to the two.
use mathlib.Core.List.{Memᴰ}
use hotpod.Prelude.{◌≡◌, ◌≢◌, ◌⊎◌, List, [], ◌∷◌}
use hotpod.Sidecar.Defs.{
  takes_memory, burns, ended, uncalled, reads_done, drops, stopped, Runner, start_step, stop_step,
}
use hotpod.Sidecar.Stops.{IsLaunched, turn}

-- Whose turn it is.
pub data Who : Type 0 where
  start_goes stop_goes : Who

unfoldable pub take_turn : Who → Runner → Runner
unfolding start_step stop_step
take_turn start_goes r = turn start_step r
take_turn stop_goes r = turn stop_step r

unfoldable pub take_turns : List Who → Runner → Runner
unfolding take_turn
take_turns [] r = r
take_turns (w ∷ ws) r = take_turns ws (take_turn w r)

-- Each of the two has a turn.
abbrev pub HasBoth : List Who → Type 0
HasBoth ws = Memᴰ start_goes ws × Memᴰ stop_goes ws

-- What a turn of one of them brings about from where a condition holds, and all turns keep.
record Advance (w : Who) (P Q : Runner → Type 0) : Type 0 where
  keeps : (v : Who) (r : Runner) → IsLaunched r → P r → P (take_turn v r)
  stays : (v : Who) (r : Runner) → IsLaunched r → P r → Q r → Q (take_turn v r)
  reaches : (r : Runner) → IsLaunched r → P r → Q (take_turn w r)

abbrev Anywhere : Runner → Type 0
Anywhere r = Unit

-- The places that the two have left behind.
abbrev Taken : Runner → Type 0
Taken r = r.start_at ≢ takes_memory

abbrev Called : Runner → Type 0
Called r = r.stop_at ≢ uncalled

abbrev Left : Runner → Type 0
Left r = (r.start_at ≢ takes_memory) × (r.start_at ≢ burns) × (r.stop_at ≢ uncalled)

abbrev Looked : Runner → Type 0
Looked r = (r.stop_at ≢ uncalled) × (r.stop_at ≢ reads_done)

abbrev Over : Runner → Type 0
Over r = r.start_at ≡ ended

abbrev Passed : Runner → Type 0
Passed r = (r.stop_at ≡ drops) ⊎ (r.stop_at ≡ stopped)

abbrev pub Stopped : Runner → Type 0
Stopped r = r.stop_at ≡ stopped
