-- ===== src/Lifecycle/History.antt =====
-- internal/server/lifecycle.go over histories of events: what decides its state, its readiness and its
-- count of requests in flight.
use hotpod.Prelude.{
  ℕ, suc, ◌-◌, ◌≤◌, ◌<◌, ◌≡◌, refl, Bool, true, not, ◌&&◌, Option, none, some, List, [], ◌∷◌, ◌++◌,
  arith, ◌==◌, if◌then◌else◌,
}
use hotpod.Prelude.Int.{ℤ, pos, is_pos, max_int64, wrap_int64}
use hotpod.Lifecycle.Defs.{
  Lifecycle, state_starting, state_ready, state_shutting_down, become_ready, new_lifecycle,
  set_ready_override, override_code, get_ready_override, is_ready, is_shutting_down, track_request,
  request_done, should_reject_request, begin_shutdown,
}

-- The calls that change the lifecycle. `starts_up` is the goroutine's `becomeReady` after its sleep.
pub data Event : Type 0 where
  starts_up shuts_down : ℕ → Event
  overrides : Option Bool → Event
  opens closes : Event

unfoldable pub handle : Lifecycle → Event → Lifecycle
handle lc (starts_up now) = become_ready now lc
handle lc (shuts_down now) = begin_shutdown now lc
handle lc (overrides o) = set_ready_override o lc
handle lc opens = track_request lc
handle lc closes = request_done lc

unfoldable pub run : Lifecycle → List Event → Lifecycle
run lc [] = lc
run lc (e ∷ es) = run (handle lc e) es

-- The state after a history: the last event that sets it decides.
abbrev pub last_state : ℕ → List Event → ℕ
last_state s [] = s
last_state s (starts_up now ∷ es) = last_state state_ready es
last_state s (shuts_down now ∷ es) = last_state state_shutting_down es
last_state s (overrides o ∷ es) = last_state s es
last_state s (opens ∷ es) = last_state s es
last_state s (closes ∷ es) = last_state s es

abbrev pub last_override : Option Bool → List Event → Option Bool
last_override o [] = o
last_override o (overrides o' ∷ es) = last_override o' es
last_override o (starts_up now ∷ es) = last_override o es
last_override o (shuts_down now ∷ es) = last_override o es
last_override o (opens ∷ es) = last_override o es
last_override o (closes ∷ es) = last_override o es

-- Each `closes` ends a request that an `opens` before it began: `n` are open at the start.
abbrev pub Bracketed : ℕ → List Event → Type 0
Bracketed n [] = Unit
Bracketed n (opens ∷ es) = (n < max_int64) × Bracketed (suc n) es
Bracketed n (closes ∷ es) = (0 < n) × Bracketed (n - 1) es
Bracketed n (starts_up now ∷ es) = Bracketed n es
Bracketed n (shuts_down now ∷ es) = Bracketed n es
Bracketed n (overrides o ∷ es) = Bracketed n es

abbrev pub open_after : ℕ → List Event → ℕ
open_after n [] = n
open_after n (opens ∷ es) = open_after (suc n) es
open_after n (closes ∷ es) = open_after (n - 1) es
open_after n (starts_up now ∷ es) = open_after n es
open_after n (shuts_down now ∷ es) = open_after n es
open_after n (overrides o ∷ es) = open_after n es

run-state :
    (lc : Lifecycle) (es : List Event) (o : Option Bool)
    → lc.ready_override ≡ override_code o
    → ((run lc es).state ≡ last_state lc.state es)
      × ((run lc es).ready_override ≡ override_code (last_override o es))
      × ((run lc es).drain_immediately ≡ lc.drain_immediately)
unfolding run handle become_ready begin_shutdown set_ready_override track_request request_done
run-state lc [] o h = (refl, h, refl)
run-state lc (starts_up now ∷ es) o h = run-state (become_ready now lc) es o h
run-state lc (shuts_down now ∷ es) o h = run-state (begin_shutdown now lc) es o h
run-state lc (overrides o' ∷ es) o h = run-state (set_ready_override o' lc) es o' refl
run-state lc (opens ∷ es) o h = run-state (track_request lc) es o h
run-state lc (closes ∷ es) o h = run-state (request_done lc) es o h

override-known :
    (lc : Lifecycle)
    → lc.ready_override ≤ 2
    → lc.ready_override ≡ override_code (get_ready_override lc)
unfolding override_code get_ready_override
override-known lc b = ground arith

abbrev pub readiness : Option Bool → ℕ → Bool
readiness none s = s == state_ready
readiness (some b) s = b

-- After any history, from a lifecycle whose override is `o`: the state is what the last start-up or
-- shutdown in it set; the override is the last one set, and is what `ReadyOverride` reports; `IsReady` is
-- the override if there is one, and otherwise tells whether the state is ready; and a request is to be
-- rejected exactly if the state is shutting down and the lifecycle drains immediately.
pub run-decides :
    (lc : Lifecycle) (es : List Event) (o : Option Bool)
    → get_ready_override lc ≡ o
    → lc.ready_override ≤ 2
    → let lc' = run lc es in
      (lc'.state ≡ last_state lc.state es)
      × (get_ready_override lc' ≡ last_override o es)
      × (is_ready lc' ≡ readiness (last_override o es) (last_state lc.state es))
      × (should_reject_request lc'
          ≡ (lc.drain_immediately && (last_state lc.state es == state_shutting_down)))
unfolding get_ready_override is_ready should_reject_request
run-decides lc es o e b =
    let (s, r, d) = run-state lc es o (unfold override_code in ground arith) in
    (
      s,
      unfold override_code in ground (arith, r),
      unfold override_code in ground (arith, r, s),
      ground (arith, s, d),
    )

-- A history in which no start-up comes after the first shutdown.
abbrev pub StartsBefore : List Event → Type 0
StartsBefore [] = Unit
StartsBefore (starts_up now ∷ es) = ⊥
StartsBefore (_ ∷ es) = StartsBefore es

last_state_kept :
    (es : List Event) → StartsBefore es → last_state state_shutting_down es ≡ state_shutting_down
last_state_kept [] h = refl
last_state_kept (starts_up now ∷ es) h = elim h [ ]
last_state_kept (shuts_down now ∷ es) h = last_state_kept es h
last_state_kept (overrides o ∷ es) h = last_state_kept es h
last_state_kept (opens ∷ es) h = last_state_kept es h
last_state_kept (closes ∷ es) h = last_state_kept es h

last_state-append :
    (s : ℕ) (es fs : List Event) → last_state s (es ++ fs) ≡ last_state (last_state s es) fs
last_state-append s [] fs = refl
last_state-append s (starts_up now ∷ es) fs = last_state-append _ es fs
last_state-append s (shuts_down now ∷ es) fs = last_state-append _ es fs
last_state-append s (overrides o ∷ es) fs = last_state-append s es fs
last_state-append s (opens ∷ es) fs = last_state-append s es fs
last_state-append s (closes ∷ es) fs = last_state-append s es fs

-- Once shutdown has begun, the lifecycle is shutting down for good, and rejects requests if it drains
-- immediately: as long as no start-up is still under way.
shutdown_lasts :
    (lc : Lifecycle) (es fs : List Event) (now : ℕ)
    → lc.ready_override ≤ 2
    → StartsBefore fs
    → let lc' = run lc (es ++ shuts_down now ∷ fs) in
      (is_shutting_down lc' ≡ true) × (should_reject_request lc' ≡ lc.drain_immediately)
unfolding is_shutting_down should_reject_request
shutdown_lasts lc es fs now b h =
    let (s, r, d) =
      run-state lc (es ++ shuts_down now ∷ fs) (get_ready_override lc) (override-known lc b) in
    ground (arith, s, d, last_state-append lc.state es (shuts_down now ∷ fs), last_state_kept fs h)

run_from-in_flight :
    (lc : Lifecycle) (es : List Event) (n : ℕ)
    → lc.in_flight ≡ pos n
    → n ≤ max_int64
    → Bracketed n es
    → (run lc es).in_flight ≡ pos (open_after n es)
unfolding run handle become_ready begin_shutdown set_ready_override track_request request_done
    wrap_int64
run_from-in_flight lc [] n e m b = e
run_from-in_flight lc (starts_up now ∷ es) n e m b =
    run_from-in_flight (become_ready now lc) es n e m b
run_from-in_flight lc (shuts_down now ∷ es) n e m b =
    run_from-in_flight (begin_shutdown now lc) es n e m b
run_from-in_flight lc (overrides o ∷ es) n e m b =
    run_from-in_flight (set_ready_override o lc) es n e m b
run_from-in_flight lc (opens ∷ es) n e m b =
    run_from-in_flight (track_request lc) es (suc n) (ground arith) b.0 b.1
run_from-in_flight lc (closes ∷ es) n e m b =
    run_from-in_flight (request_done lc) es (n - 1) (ground arith) (omega arith) b.1

-- After any history of requests that begin and end, beside other events, on a new lifecycle, the number
-- of requests in flight is the number that began and have not ended.
pub in_flight-run :
    (now : ℕ) (random delay jitter shutdown_delay shutdown_timeout : ℤ) (drain : Bool)
    (es : List Event)
    → Bracketed 0 es
    → (run
        (new_lifecycle now random delay jitter shutdown_delay shutdown_timeout drain).0
        es).in_flight
      ≡ pos (open_after 0 es)
unfolding new_lifecycle
in_flight-run now random delay jitter shutdown_delay shutdown_timeout drain es b =
    run_from-in_flight _ es 0 (ground arith) (omega arith) b

-- A new lifecycle is ready at once exactly if its startup delay, jitter included, is not above 0; else it
-- is starting, and the goroutine that ends the start-up is under way. It has no override.
pub new_lifecycle_cases :
    (now : ℕ) (random delay jitter shutdown_delay shutdown_timeout : ℤ) (drain : Bool)
    → let (lc, pending) =
        new_lifecycle now random delay jitter shutdown_delay shutdown_timeout drain in
      (pending ≡ is_pos lc.startup_duration)
      × (is_ready lc ≡ not pending)
      × (lc.state ≡ (if pending then state_starting else state_ready))
      × (get_ready_override lc ≡ none)
unfolding new_lifecycle is_ready get_ready_override
new_lifecycle_cases now random delay jitter shutdown_delay shutdown_timeout drain = ground arith
