-- ===== src/Sidecar/Stops.antt =====
-- `Start` and `Stop` of internal/sidecar/runner.go, in every order of their steps.
use hotpod.Prelude.{
  ℕ, ◌≡◌, ◌≢◌, refl, Bool, true, false, Option, none, some, arith, ◌∙◌, if◌then◌else◌,
}
use hotpod.Prelude.Int.{ℤ, pos, negsuc, is_pos, pos_part}
use hotpod.Sidecar.Defs.{
  StartPoint, makes_cancel, makes_done, takes_memory, burns, closes, ended, StopPoint, uncalled,
  reads_done, waits, drops, stopped, Runner, new_runner, start_step, stop_step, of_start, of_stop,
  Steps, here, step,
}

-- `Start` has made `done`.
abbrev pub PastDone : StartPoint → Type 0
PastDone makes_cancel = ⊥
PastDone makes_done = ⊥
PastDone _ = Unit

-- What a point of `Start` says of the context and of `done`.
abbrev StartAgrees : StartPoint → Bool → Bool → Type 0
StartAgrees takes_memory cancelled closed = closed ≡ false
StartAgrees burns cancelled closed = closed ≡ false
StartAgrees closes cancelled closed = (closed ≡ false) × (cancelled ≡ true)
StartAgrees ended cancelled closed = (closed ≡ true) × (cancelled ≡ true)
StartAgrees _ cancelled closed = ⊥

-- What a point of `Stop` says of the two and of the memory.
abbrev StopAgrees : StopPoint → Bool → Bool → ℕ → Type 0
StopAgrees uncalled cancelled closed memory = Unit
StopAgrees reads_done cancelled closed memory = cancelled ≡ true
StopAgrees waits cancelled closed memory = cancelled ≡ true
StopAgrees drops cancelled closed memory = (cancelled ≡ true) × (closed ≡ true)
StopAgrees stopped cancelled closed memory = (cancelled ≡ true) × (closed ≡ true) × (memory ≡ 0)

-- `Start` has made `done`, and the two agree.
abbrev pub IsLaunched : Runner → Type 0
IsLaunched r =
    (r.has_cancel ≡ true)
    × (r.has_done ≡ true)
    × StartAgrees r.start_at r.cancelled r.closed
    × StopAgrees r.stop_at r.cancelled r.closed r.memory

start_step-IsLaunched : (r r' : Runner) → IsLaunched r → start_step r ≡ some r' → IsLaunched r'
unfolding start_step
start_step-IsLaunched r r' l e = ground arith

stop_step-IsLaunched : (r r' : Runner) → IsLaunched r → stop_step r ≡ some r' → IsLaunched r'
unfolding stop_step
stop_step-IsLaunched r r' l e = ground arith

Steps-IsLaunched : (r r' : Runner) → IsLaunched r → Steps r r' → IsLaunched r'
Steps-IsLaunched r r' l (here _) = l
Steps-IsLaunched r r' l (step _ q _ s (of_start _ _ e)) =
    start_step-IsLaunched q r' (Steps-IsLaunched r q l s) e
Steps-IsLaunched r r' l (step _ q _ s (of_stop _ _ e)) =
    stop_step-IsLaunched q r' (Steps-IsLaunched r q l s) e

start_step-stopped :
    (r r' : Runner) → r.stop_at ≡ stopped → start_step r ≡ some r' → r'.stop_at ≡ stopped
unfolding start_step
start_step-stopped r r' e h = ground arith

stop_step-stopped :
    (r r' : Runner) → r.stop_at ≡ stopped → stop_step r ≡ some r' → r'.stop_at ≡ stopped
unfolding stop_step
stop_step-stopped r r' e h = ground arith

Steps-stopped : (r r' : Runner) → r.stop_at ≡ stopped → Steps r r' → r'.stop_at ≡ stopped
Steps-stopped r r' e (here _) = e
Steps-stopped r r' e (step _ q _ s (of_start _ _ h)) =
    start_step-stopped q r' (Steps-stopped r q e s) h
Steps-stopped r r' e (step _ q _ s (of_stop _ _ h)) =
    stop_step-stopped q r' (Steps-stopped r q e s) h

released :
    (r : Runner)
    → IsLaunched r
    → r.stop_at ≡ stopped
    → (r.start_at ≡ ended) × (r.closed ≡ true) × (r.memory ≡ 0)
released r l e = ground arith

-- `Stop`, whose first call comes after `Start` has made `done`: in whatever order the two take their steps,
-- once `Stop` is at its end the loop has ended, `done` is closed and no memory is held, and so it stays.
pub stop-releases :
    (r r' r'' : Runner)
    → IsLaunched r
    → Steps r r'
    → r'.stop_at ≡ stopped
    → Steps r' r''
    → (r''.start_at ≡ ended) × (r''.closed ≡ true) × (r''.memory ≡ 0)
stop-releases r r' r'' l s e s' =
    released r'' (Steps-IsLaunched r' r'' (Steps-IsLaunched r r' l s) s')
      (Steps-stopped r' r'' e s')

-- A turn of one of the two, which may have to wait.
abbrev pub turn : (Runner → Option Runner) → Runner → Runner
turn next r = elim (next r) [ none ↦ r | some r' ↦ r' ]

-- `Stop` was called before `Start` set `cancel`: nobody will end its context.
abbrev pub IsMissed : Runner → Type 0
IsMissed r =
    (r.cancelled ≡ false)
    × (r.closed ≡ false)
    × (r.stop_at ≢ uncalled)
    × (r.start_at ≢ closes)
    × (r.start_at ≢ ended)

start_step-IsMissed : (r r' : Runner) → IsMissed r → start_step r ≡ some r' → IsMissed r'
unfolding start_step
start_step-IsMissed r r' l e = ground arith

stop_step-IsMissed : (r r' : Runner) → IsMissed r → stop_step r ≡ some r' → IsMissed r'
unfolding stop_step
stop_step-IsMissed r r' l e = ground arith

Steps-IsMissed : (r r' : Runner) → IsMissed r → Steps r r' → IsMissed r'
Steps-IsMissed r r' l (here _) = l
Steps-IsMissed r r' l (step _ q _ s (of_start _ _ e)) =
    start_step-IsMissed q r' (Steps-IsMissed r q l s) e
Steps-IsMissed r r' l (step _ q _ s (of_stop _ _ e)) =
    stop_step-IsMissed q r' (Steps-IsMissed r q l s) e

memory_held : (b : ℤ) → (if is_pos b then pos_part b else 0) ≡ pos_part b
memory_held (pos b) = ground arith
memory_held (negsuc b) = refl

-- Some steps of `Start` and `Stop` after one that was missed.
missed_run :
    (b : ℤ)
    → (r : Runner) × Steps (record (new_runner b) { stop_at = reads_done }) r
      × (r.stop_at ≡ stopped)
      × (stop_step r ≡ some r)
      × (r.start_at ≡ burns)
      × (r.memory ≡ (if is_pos b then pos_part b else 0))
unfolding new_runner start_step stop_step
missed_run b =
    let r0 = record (new_runner b) { stop_at = reads_done } in
    let r1 = turn stop_step r0 in
    let r2 = turn stop_step r1 in
    let r3 = turn start_step r2 in
    let r4 = turn start_step r3 in
    let r5 = turn start_step r4 in
    (
      r5,
      step r0 r4 r5
          (step r0 r3 r4
            (step r0 r2 r3
              (step r0 r1 r2 (step r0 r0 r1 (here r0) (of_stop r0 r1 refl)) (of_stop r1 r2 refl))
              (of_start r2 r3 refl))
            (of_start r3 r4 refl))
          (of_start r4 r5 refl),
      refl,
      refl,
      refl,
      refl,
    )

-- Where `Stop` is called before `Start` sets `cancel`, as `main` may do, which starts `Start` in a goroutine:
-- from then on, in whatever order the two take their steps, the loop never ends; and they can come to where
-- `Stop` is at its end, all later calls change nothing, and the loop burns on with all of its memory.
pub stop-missed :
    (b : ℤ)
    → (r : Runner) × (stop_step (new_runner b) ≡ some r)
      × ((r' : Runner) → Steps r r' → (r'.cancelled ≡ false) × (r'.start_at ≢ ended))
      × ((r' : Runner) × Steps r r'
          × (r'.stop_at ≡ stopped)
          × (stop_step r' ≡ some r')
          × (r'.start_at ≡ burns)
          × (r'.memory ≡ pos_part b))
unfolding new_runner
stop-missed b =
    let r : Runner = record (new_runner b) { stop_at = reads_done } in
    (
      r,
      unfold stop_step in refl,
      λ r' s.
          let m = Steps-IsMissed r r' (refl, refl, (λ e. cc), (λ e. cc), λ e. cc) s in (m.0, m.4),
      let (r', s, e, same, at, held) = missed_run b in (r', s, e, same, at, held ∙ memory_held b),
    )
