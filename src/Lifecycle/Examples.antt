-- ===== src/Lifecycle/Examples.antt =====
-- The lifecycle of internal/server/lifecycle.go on small histories: witnesses and tests.
use hotpod.Prelude.{
  ℕ, ◌+◌, ◌*◌, ◌≤◌, ◌≡◌, refl, ◌⊎◌, true, false, ◌&&◌, none, some, List, [], ◌∷◌, arith, ◌==◌,
  if◌then◌else◌,
}
use hotpod.Prelude.Int.{pos, is_pos, wrap_int64, time_sub}
use hotpod.Prelude.Text.{codes}
use hotpod.Lifecycle.Defs.{
  Lifecycle, Look, Ending, drained, interrupted, state_shutting_down, new_lifecycle,
  get_ready_override, is_ready, should_reject_request, startup_remaining, await_drain, add_duration,
  poll_interval, state_string,
}
use hotpod.Lifecycle.History.{
  Event, starts_up, shuts_down, overrides, opens, closes, run, last_state, last_override, readiness,
  open_after, run-decides, in_flight-run,
}
use hotpod.Lifecycle.Drain.{EndsIn, await_drain-ends}

-- Two seconds of startup delay with jitter, and immediate draining.
abbrev fresh : Lifecycle
fresh = (new_lifecycle 1000 (pos 500) (pos 2000000000) (pos 1000) (pos 0) (pos 150000000) true).0

abbrev history : List Event
history = starts_up 3000 ∷ opens ∷ overrides (some false) ∷ opens ∷ closes ∷ shuts_down 5000 ∷ []

run-decides_example :
    let lc' = run fresh history in
    (lc'.state ≡ last_state fresh.state history)
    × (get_ready_override lc' ≡ last_override none history)
    × (is_ready lc' ≡ readiness (last_override none history) (last_state fresh.state history))
    × (should_reject_request lc'
        ≡ (fresh.drain_immediately && (last_state fresh.state history == state_shutting_down)))
unfolding new_lifecycle get_ready_override wrap_int64
run-decides_example = run-decides fresh history none refl (omega arith)

in_flight-run_example : (run fresh history).in_flight ≡ pos (open_after 0 history)
in_flight-run_example =
    in_flight-run 1000 (pos 500) (pos 2000000000) (pos 1000) (pos 0) (pos 150000000) true history
      (omega arith)

-- One request that ends in the third round.
abbrev looks : ℕ → Look
looks i = record {
  in_flight = if i == 2 then pos 0 else pos 1;
  now = 7000 + i * poll_interval;
  cancelled = false;
}

await_drain-ends_example :
    (r : Ending) × (await_drain 3 true 7000 looks fresh ≡ some r)
    × (((is_pos fresh.shutdown_delay && true) ≡ true) × (r ≡ interrupted)
        ⊎ ((is_pos fresh.shutdown_delay && true) ≡ false)
          × ((j : ℕ) × (j ≤ 2) × EndsIn (add_duration 7000 fresh.shutdown_timeout) looks 0 r j))
unfolding new_lifecycle wrap_int64
await_drain-ends_example =
    await_drain-ends 2 true 7000 looks fresh (λ i. omega arith) (omega arith) (omega arith)

third_round_is_empty : await_drain 3 true 7000 looks fresh ≡ some drained
unfolding await_drain new_lifecycle wrap_int64
third_round_is_empty = refl

remaining_never_below_zero : startup_remaining 3000000000 fresh ≡ pos 0
unfolding startup_remaining new_lifecycle wrap_int64 time_sub
remaining_never_below_zero = refl

named : state_string fresh.state ≡ codes "starting"
unfolding state_string new_lifecycle wrap_int64
named = refl
