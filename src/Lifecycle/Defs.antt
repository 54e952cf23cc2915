-- ===== src/Lifecycle/Defs.antt =====
-- internal/server/lifecycle.go, the data and the operations of `Lifecycle`, with the gauges it sets.
-- The clock and the random part of the startup delay are arguments. Durations are in nanoseconds, and an
-- instant is the number of nanoseconds since Go's zero time.
use hotpod.Prelude.{
  ℕ, zero, suc, ◌+◌, ◌-◌, ◌/◌, Bool, true, false, ◌&&◌, Option, none, some, ◌==◌, ltb,
  if◌then◌else◌,
}
use hotpod.Prelude.Int.{
  ℤ, pos, negsuc, pos_part, neg_part, ◌+ℤ◌, ◌-ℤ◌, is_pos, is_neg, wrap_int64, time_sub,
}
use hotpod.Prelude.Text.{Text, codes}

-- The constants of type `State`, an int32.
abbrev pub state_starting : ℕ
state_starting = 0

abbrev pub state_ready : ℕ
state_ready = 1

abbrev pub state_shutting_down : ℕ
state_shutting_down = 2

unfoldable pub state_string : ℕ → Text
state_string s =
    if s == state_starting
    then codes "starting"
    else if s == state_ready
    then codes "ready"
    else if s == state_shutting_down
    then codes "shutting_down"
    else codes "unknown"

abbrev pub ready_override_none : ℕ
ready_override_none = 0

abbrev pub ready_override_not_ready : ℕ
ready_override_not_ready = 1

abbrev pub ready_override_ready : ℕ
ready_override_ready = 2

pub record Gauges : Type 0 where
  pub startup_complete : ℕ
  pub startup_duration : ℤ
  pub shutdown_in_progress : ℕ
  pub shutdown_started : ℕ

pub record Lifecycle : Type 0 where
  pub state : ℕ
  pub ready_override : ℕ
  pub in_flight : ℤ
  pub start_time : ℕ
  pub ready_time : ℕ
  pub startup_duration : ℤ
  pub drain_immediately : Bool
  pub shutdown_delay : ℤ
  pub shutdown_timeout : ℤ
  pub gauges : Gauges

-- `lc.becomeReady()` at the instant `now`.
unfoldable pub become_ready : ℕ → Lifecycle → Lifecycle
become_ready now lc = record lc {
  state = state_ready;
  ready_time = now;
  gauges = record gauges { startup_complete = 1; startup_duration = time_sub now start_time };
}
  where
    open lc use {gauges, start_time}

-- `NewLifecycleWithClock`. `random` is what `rand.Int64N` returns for the jitter, and is used for a
-- jitter above 0 only. The second result tells whether the goroutine `waitForStartup` was started, which
-- sleeps for the startup duration and then calls `becomeReady`.
unfoldable pub new_lifecycle : ℕ → ℤ → ℤ → ℤ → ℤ → ℤ → Bool → Lifecycle × Bool
unfolding become_ready
new_lifecycle now random startup_delay startup_jitter shutdown_delay shutdown_timeout drain =
    let actual_delay =
      if is_pos startup_jitter then wrap_int64 (startup_delay +ℤ random) else startup_delay in
    let lc : Lifecycle = record {
      state = state_starting;
      ready_override = ready_override_none;
      in_flight = pos 0;
      start_time = now;
      ready_time = 0;
      startup_duration = actual_delay;
      drain_immediately = drain;
      shutdown_delay = shutdown_delay;
      shutdown_timeout = shutdown_timeout;
      gauges = record {
        startup_complete = 0;
        startup_duration = pos 0;
        shutdown_in_progress = 0;
        shutdown_started = 0;
      };
    } in
    if is_pos actual_delay then (lc, true) else (become_ready now lc, false)

unfoldable pub override_code : Option Bool → ℕ
override_code none = ready_override_none
override_code (some true) = ready_override_ready
override_code (some false) = ready_override_not_ready

unfoldable pub set_ready_override : Option Bool → Lifecycle → Lifecycle
unfolding override_code
set_ready_override o lc = record lc { ready_override = override_code o }

unfoldable pub get_ready_override : Lifecycle → Option Bool
get_ready_override lc =
    if lc.ready_override == ready_override_ready
    then some true
    else if lc.ready_override == ready_override_not_ready
    then some false
    else none

unfoldable pub is_ready : Lifecycle → Bool
is_ready lc =
    if lc.ready_override == ready_override_none
    then lc.state == state_ready
    else lc.ready_override == ready_override_ready

unfoldable pub is_shutting_down : Lifecycle → Bool
is_shutting_down lc = lc.state == state_shutting_down

unfoldable pub startup_remaining : ℕ → Lifecycle → ℤ
startup_remaining now lc =
    let remaining = wrap_int64 (lc.startup_duration -ℤ time_sub now lc.start_time) in
    if lc.state == state_starting then (if is_neg remaining then pos 0 else remaining) else pos 0

-- `TrackRequest` and the function that it returns.
unfoldable pub track_request : Lifecycle → Lifecycle
track_request lc = record lc { in_flight = wrap_int64 (lc.in_flight +ℤ pos 1) }

unfoldable pub request_done : Lifecycle → Lifecycle
request_done lc = record lc { in_flight = wrap_int64 (lc.in_flight +ℤ negsuc 0) }

unfoldable pub should_reject_request : Lifecycle → Bool
unfolding is_shutting_down
should_reject_request lc = lc.drain_immediately && is_shutting_down lc

-- Nanoseconds from the zero time to 1970, for `Unix()`.
abbrev pub unix_epoch : ℕ
unix_epoch = 62135596800000000000

-- The first part of `Shutdown`, up to its waits.
unfoldable pub begin_shutdown : ℕ → Lifecycle → Lifecycle
begin_shutdown now lc = record lc {
  state = state_shutting_down;
  gauges = record gauges {
    shutdown_in_progress = 1;
    shutdown_started = now / 1000000000 - unix_epoch / 1000000000;
  };
}
  where
    open lc use {gauges}

abbrev pub poll_interval : ℕ
poll_interval = 100000000

-- What `Shutdown` sees in one round of its loop: the requests in flight, the clock, and which of the two
-- channels of its `select` fires: the context's, or the timer's.
pub record Look : Type 0 where
  pub in_flight : ℤ
  pub now : ℕ
  pub cancelled : Bool

-- How `Shutdown` ends: with nothing in flight, past the deadline, or with the context's error. The
-- first two return nil.
pub data Ending : Type 0 where
  drained timed_out interrupted : Ending

-- `now.Add(d)`, for an instant after the zero time.
unfoldable pub add_duration : ℕ → ℤ → ℕ
add_duration now d = now + pos_part d - neg_part d

-- The loop from its round `i` on; `none` means that the fuel ran out.
unfoldable pub drain_loop : ℕ → ℕ → ℕ → (ℕ → Look) → Option Ending
drain_loop zero i deadline looks = none
drain_loop (suc fuel) i deadline looks =
    let rest = drain_loop fuel (suc i) deadline looks in
    if is_pos (looks i).in_flight
    then (if ltb deadline (looks i).now
        then some timed_out
        else if (looks i).cancelled
        then some interrupted
        else rest)
    else some drained

-- The waits of `Shutdown`. `cut_short` tells that the context ends within the pre-stop delay, and `now`
-- is the clock after that delay.
unfoldable pub await_drain : ℕ → Bool → ℕ → (ℕ → Look) → Lifecycle → Option Ending
unfolding drain_loop add_duration
await_drain fuel cut_short now looks lc =
    if is_pos lc.shutdown_delay && cut_short
    then some interrupted
    else drain_loop fuel 0 (add_duration now lc.shutdown_timeout) looks
