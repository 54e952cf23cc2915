-- ===== src/Lifecycle/Drain.antt =====
-- The waits of `Shutdown` in internal/server/lifecycle.go: they end, and when and why.
use hotpod.Prelude.{
  ℕ, zero, suc, ◌+◌, ◌*◌, ◌≤◌, ◌<◌, ◌≡◌, refl, ◌∙◌, ◌⊎◌, inl, inr, Bool, true, false, ◌&&◌, some,
  arith, Bool-cases, dec_lt,
}
use hotpod.Prelude.Int.{pos_part, is_pos}
use hotpod.Lifecycle.Defs.{
  Lifecycle, Look, Ending, drained, timed_out, interrupted, poll_interval, drain_loop, await_drain,
  add_duration,
}

-- The clock moves on by the poll interval at least from round to round.
abbrev pub Ticks : (ℕ → Look) → Type 0
Ticks looks = (i : ℕ) → (looks i).now + poll_interval ≤ (looks (suc i)).now

-- What the code sees in the round in which it ends.
abbrev pub Stops : ℕ → Ending → Look → Type 0
Stops deadline drained l = is_pos l.in_flight ≡ false
Stops deadline timed_out l = (is_pos l.in_flight ≡ true) × (deadline < l.now)
Stops deadline interrupted l =
    (is_pos l.in_flight ≡ true) × (l.now ≤ deadline) × (l.cancelled ≡ true)

-- What it sees in every round before.
abbrev pub GoesOn : ℕ → Look → Type 0
GoesOn deadline l = (is_pos l.in_flight ≡ true) × (l.now ≤ deadline) × (l.cancelled ≡ false)

-- The loop from round `i` ends as `r` in a round `j`, and not before.
pub record EndsIn (deadline : ℕ) (looks : ℕ → Look) (i : ℕ) (r : Ending) (j : ℕ) : Type 0 where
  pub starts : i ≤ j
  pub stops : Stops deadline r (looks j)
  pub went_on : (k : ℕ) → i ≤ k → k < j → GoesOn deadline (looks k)

later-EndsIn :
    (deadline : ℕ) (looks : ℕ → Look) (i : ℕ) (r : Ending) (j : ℕ)
    → GoesOn deadline (looks i)
    → EndsIn deadline looks (suc i) r j
    → EndsIn deadline looks i r j
later-EndsIn deadline looks i r j g e = record {
  starts = omega (arith, e.starts);
  stops = e.stops;
  went_on = λ k lo hi. elim (dec_lt i k) [
    | yes above ↦ e.went_on k above hi
    | no below ↦ let same : i ≡ k = omega arith in rw same at g
  ];
}

-- One round.
look_cases : (deadline : ℕ) (l : Look) → ((r : Ending) × Stops deadline r l) ⊎ GoesOn deadline l
look_cases deadline l = elim (Bool-cases (is_pos l.in_flight)) [
  | inr empty ↦ inl (drained, empty)
  | inl busy ↦ elim (dec_lt deadline l.now) [
    | yes late ↦ inl (timed_out, (busy, late))
    | no soon ↦ elim (Bool-cases l.cancelled) [
      | inl c ↦ inl (interrupted, (busy, omega arith, c))
      | inr c ↦ inr (busy, omega arith, c)
    ]
  ]
]

drain_loop-Stops :
    (fuel i deadline : ℕ) (looks : ℕ → Look) (r : Ending)
    → Stops deadline r (looks i)
    → drain_loop (suc fuel) i deadline looks ≡ some r
unfolding drain_loop
drain_loop-Stops fuel i deadline looks drained s = ground arith
drain_loop-Stops fuel i deadline looks timed_out s = ground arith
drain_loop-Stops fuel i deadline looks interrupted s = ground arith

drain_loop-GoesOn :
    (fuel i deadline : ℕ) (looks : ℕ → Look)
    → GoesOn deadline (looks i)
    → drain_loop (suc fuel) i deadline looks ≡ drain_loop fuel (suc i) deadline looks
unfolding drain_loop
drain_loop-GoesOn fuel i deadline looks g = ground arith

drain_loop-ends :
    (fuel i deadline : ℕ) (looks : ℕ → Look)
    → Ticks looks
    → deadline < (looks i).now + fuel * poll_interval
    → (r : Ending) × (j : ℕ) × (drain_loop (suc fuel) i deadline looks ≡ some r)
      × (j ≤ i + fuel)
      × EndsIn deadline looks i r j
drain_loop-ends zero i deadline looks t h = elim (look_cases deadline (looks i)) [
  | inl (r, s) ↦ (
    r,
    i,
    drain_loop-Stops zero i deadline looks r s,
    omega arith,
    record { starts = omega arith; stops = s; went_on = λ k lo hi. absurd (omega arith) },
  )
  | inr g ↦ absurd (omega arith)
]
drain_loop-ends (suc fuel) i deadline looks t h = elim (look_cases deadline (looks i)) [
  | inl (r, s) ↦ (
    r,
    i,
    drain_loop-Stops (suc fuel) i deadline looks r s,
    omega arith,
    record { starts = omega arith; stops = s; went_on = λ k lo hi. absurd (omega arith) },
  )
  | inr g ↦
      let (r, j, e, b, ends) = drain_loop-ends fuel (suc i) deadline looks t (omega (arith, t i)) in
      (
        r,
        j,
        drain_loop-GoesOn (suc fuel) i deadline looks g ∙ e,
        omega arith,
        later-EndsIn deadline looks i r j g ends,
      )
]

-- `Shutdown` returns. Let its clock move on by the poll interval at least from round to round, and be
-- no earlier in the first round than when it set the deadline. Then with `n` poll intervals more than
-- the shutdown timeout it ends within `n + 1` rounds: with the context's error if the context ends within
-- a pre-stop delay above 0; else in the first round in which nothing is in flight, or the deadline has
-- passed, or the context has ended, and in that order of precedence.
pub await_drain-ends :
    (n : ℕ) (cut_short : Bool) (now : ℕ) (looks : ℕ → Look) (lc : Lifecycle)
    → Ticks looks
    → now ≤ (looks 0).now
    → pos_part lc.shutdown_timeout < n * poll_interval
    → (r : Ending) × (await_drain (suc n) cut_short now looks lc ≡ some r)
      × (((is_pos lc.shutdown_delay && cut_short) ≡ true) × (r ≡ interrupted)
          ⊎ ((is_pos lc.shutdown_delay && cut_short) ≡ false)
            × ((j : ℕ) × (j ≤ n) × EndsIn (add_duration now lc.shutdown_timeout) looks 0 r j))
unfolding await_drain
await_drain-ends n cut_short now looks lc t h b =
    elim (Bool-cases (is_pos lc.shutdown_delay && cut_short)) [
      | inl cut ↦ (interrupted, rw cut, inl (cut, refl))
      | inr whole ↦
          let (r, j, e, le, ends) =
            drain_loop-ends n 0 (add_duration now lc.shutdown_timeout) looks t
              (unfold add_duration in omega arith) in
          (r, rw whole e, inr (whole, (j, omega arith, ends)))
    ]
