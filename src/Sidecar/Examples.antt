-- ===== src/Sidecar/Examples.antt =====
-- A sidecar of internal/sidecar/runner.go: witnesses and tests.
use hotpod.Prelude.{◌≡◌, ◌≢◌, refl, List, true, false, none, some, [], ◌∷◌, arith}
use hotpod.Prelude.Int.{pos, pos_part, wrap_int64}
use hotpod.Sidecar.Defs.{
  takes_memory, burns, closes, reads_done, waits, drops, ended, uncalled, stopped, Runner,
  new_runner, start_step, stop_step, of_start, of_stop, Steps, here, step, burn_duration, jitter_of,
  cpu_loop,
}
use hotpod.Sidecar.Burn.{BurnsNear, cpu_loop-BurnsNear}
use hotpod.Sidecar.Stops.{stop-releases, stop-missed}
use hotpod.Sidecar.Turns.{Who, start_goes, stop_goes, take_turns}

-- `Start` has made `done` and takes its memory next.
abbrev launched : Runner
launched = record {
  memory_baseline = pos 100;
  memory = 0;
  has_cancel = true;
  has_done = true;
  cancelled = false;
  closed = false;
  start_at = takes_memory;
  stop_at = uncalled;
}

abbrev burning : Runner
burning = record launched { memory = 100; start_at = burns }

abbrev stopping : Runner
stopping = record burning { cancelled = true; stop_at = reads_done }

abbrev left : Runner
left = record stopping { start_at = closes }

abbrev over : Runner
over = record left { closed = true; start_at = ended }

abbrev waiting : Runner
waiting = record over { stop_at = waits }

abbrev dropping : Runner
dropping = record waiting { stop_at = drops }

abbrev released : Runner
released = record dropping { memory = 0; stop_at = stopped }

whole_stop : Steps launched released
unfolding start_step stop_step
whole_stop =
    step launched dropping released
      (step launched waiting dropping
        (step launched over waiting
          (step launched left over
            (step launched stopping left
              (step launched burning stopping
                (step launched launched burning (here launched) (of_start launched burning refl))
                (of_stop burning stopping refl))
              (of_start stopping left refl))
            (of_start left over refl))
          (of_stop over waiting refl))
        (of_stop waiting dropping refl))
      (of_stop dropping released refl)

stop-releases_example :
    (released.start_at ≡ ended) × (released.closed ≡ true) × (released.memory ≡ 0)
stop-releases_example =
    stop-releases launched released released (refl, refl, refl, tt) whole_stop refl (here released)

abbrev round : List Who
round = stop_goes ∷ start_goes ∷ []

-- Four such rounds are not enough.
four_rounds :
    (take_turns round (take_turns round (take_turns round (take_turns round launched)))).stop_at
    ≡ drops
unfolding take_turns start_step stop_step
four_rounds = refl

stop-missed_example :
    (r : Runner) × (stop_step (new_runner (pos 50)) ≡ some r)
    × ((r' : Runner) → Steps r r' → (r'.cancelled ≡ false) × (r'.start_at ≢ ended))
    × ((r' : Runner) × Steps r r'
        × (r'.stop_at ≡ stopped)
        × (stop_step r' ≡ some r')
        × (r'.start_at ≡ burns)
        × (r'.memory ≡ pos_part (pos 50)))
stop-missed_example = stop-missed (pos 50)

cpu_loop-BurnsNear_example :
    BurnsNear 100 10 (0 ∷ 20 ∷ []) (cpu_loop (pos 100) (pos 10) (0 ∷ 20 ∷ []))
cpu_loop-BurnsNear_example =
    cpu_loop-BurnsNear 100 10 (0 ∷ 20 ∷ []) (omega arith) (omega arith)
      (omega arith, (omega arith, tt))

two_ticks : cpu_loop (pos 100) (pos 10) (0 ∷ 20 ∷ []) ≡ some (pos 90 ∷ pos 110 ∷ [])
unfolding cpu_loop burn_duration jitter_of wrap_int64
two_ticks = refl

-- A jitter of 2^62 ns, about 146 years, is a panic.
large_jitter : cpu_loop (pos 0) (pos 4611686018427387904) (0 ∷ []) ≡ none
unfolding cpu_loop burn_duration jitter_of wrap_int64
large_jitter = refl
