-- ===== src/Load/Examples.antt =====
-- The tracker of internal/load/tracker.go with a limit of two: witnesses and tests.
use hotpod.Prelude.{◌≡◌, refl, List, [], ◌∷◌, arith, ℕ}
use hotpod.Prelude.Int.{pos, negsuc, ◌≤ℤ◌, ◌<ℤ◌, wrap_int64}
use hotpod.Load.Defs.{Tracker, other, new_tracker, acquire, panic, at_limit, up, down}
use hotpod.Load.Race.{Phase, turns, turn, outside, holders, turns-Within, advance}

abbrev limited : Tracker
limited = record {
  max_ops = pos 2;
  counts = record {
    cpu_ops = pos 1;
    memory_ops = pos 0;
    io_ops = pos 0;
    latency_ops = pos 0;
    work_ops = pos 0;
  };
}

-- Two goroutines read the counter before either writes: the second one's swap fails.
abbrev schedule : List ℕ
schedule = 0 ∷ 1 ∷ 0 ∷ 1 ∷ 1 ∷ 1 ∷ 2 ∷ 2 ∷ []

turns-Within_example :
    let (counter, ps) = turns (pos 2) schedule (pos 0) (outside 3) in
    (counter ≡ pos (holders ps)) × ((pos 0 <ℤ pos 2) → pos (holders ps) ≤ℤ pos 2)
turns-Within_example = turns-Within (pos 2) 3 schedule (omega arith)

third_is_refused :
    turns (pos 2) schedule (pos 0) (outside 3)
    ≡ (pos 2, Phase.holding ∷ Phase.holding ∷ Phase.refused ∷ [])
unfolding turns turn advance at_limit up down wrap_int64
third_is_refused = refl

unknown_type_panics : (acquire (new_tracker (negsuc 0)) (other [])).1 ≡ panic
unfolding acquire
unknown_type_panics = refl
