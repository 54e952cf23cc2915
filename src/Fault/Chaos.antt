-- ===== src/Fault/Chaos.antt =====
-- internal/fault/chaos.go: what `Crash`, `Hang` and `OOM` do, as the effects that follow one another.
use hotpod.Prelude.{
  ℕ, zero, suc, ◌+◌, ◌*◌, ◌/◌, ◌≤◌, ◌≡◌, refl, ap, ◌⊎◌, inr, Bool, true, false, Option, none, some,
  List, [], ◌∷◌, arith, ltb, if◌then◌else◌, length,
}
use hotpod.Prelude.Int.{ℤ, pos, negsuc, is_pos, ◌≤ℤ◌, ◌<ℤ◌, wrap_int64, ◌+ℤ◌, max_int64}

pub data Effect : Type 0 where
  sleeps : ℤ → Effect
  exits : ℤ → Effect

unfoldable pub crash : ℤ → ℤ → List Effect
crash delay exit_code =
    if is_pos delay then sleeps delay ∷ exits exit_code ∷ [] else exits exit_code ∷ []

-- `Hang`, by when the context ends, in nanoseconds from the call (none: never). Where the timer and the
-- context are due together `select` takes either: `tie` is its choice. The result is what `Hang`
-- returns (true: interrupted); none means that it never does.
unfoldable pub hang : ℤ → Option ℕ → Bool → Option Bool
hang duration none tie = if is_pos duration then some false else none
hang (negsuc d) (some at) tie = some true
hang (pos d) (some at) tie =
    if ltb 0 d
    then (if ltb d at then some false else if ltb at d then some true else some tie)
    else some true

-- `max(rate/10, 1024)`; Go's division of a negative rate gives no more than 0.
unfoldable pub alloc_size : ℤ → ℕ
alloc_size (pos rate) = if ltb 1024 (rate / 10) then rate / 10 else 1024
alloc_size (negsuc rate) = 1024

-- `OOM` after some ticks: the sizes of the buffers held, newest first, and the total.
pub record Hoard : Type 0 where
  pub buffers : List ℕ
  pub total_allocated : ℤ

unfoldable pub oom_tick : ℤ → Hoard → Hoard
unfolding alloc_size
oom_tick rate h = record {
  buffers = alloc_size rate ∷ h.buffers;
  total_allocated = wrap_int64 (h.total_allocated +ℤ pos (alloc_size rate));
}

unfoldable pub oom : ℤ → ℕ → Hoard
oom rate zero = record { buffers = []; total_allocated = pos 0 }
oom rate (suc n) = oom_tick rate (oom rate n)

abbrev pub sum : List ℕ → ℕ
sum [] = 0
sum (x ∷ xs) = x + sum xs

alloc_size-ge : (rate : ℤ) → 1024 ≤ alloc_size rate
unfolding alloc_size
alloc_size-ge (pos rate) = ground arith
alloc_size-ge (negsuc rate) = omega arith

-- After `n` ticks `OOM` holds `n` buffers, all of one size: a tenth of the rate per second, and at least
-- 1024 bytes; and its total is the sum of their sizes, as long as that fits an int64.
pub oom-holds :
    (rate : ℤ) (n : ℕ)
    → n * alloc_size rate ≤ max_int64
    → (length (oom rate n).buffers ≡ n)
      × (sum (oom rate n).buffers ≡ n * alloc_size rate)
      × ((oom rate n).total_allocated ≡ pos (n * alloc_size rate))
      × (1024 ≤ alloc_size rate)
unfolding oom oom_tick wrap_int64
oom-holds rate zero h = (refl, omega arith, ap pos (omega arith), alloc_size-ge rate)
oom-holds rate (suc n) h =
    let (len, held, total, big) = oom-holds rate n (omega arith) in
    (omega arith, omega arith, rw (total, oom_tick) (ground arith), big)

-- `Hang` never returns exactly if it has no time limit above 0 and the context never ends; and if it
-- returns uninterrupted, then it had a limit, and the context did not end before that.
pub hang_cases :
    (duration : ℤ) (at : Option ℕ) (tie : Bool)
    → ((hang duration at tie ≡ none) → (duration ≤ℤ pos 0) × (at ≡ none))
      × ((duration ≤ℤ pos 0) → (at ≡ none) → hang duration at tie ≡ none)
      × ((hang duration at tie ≡ some false)
          → (pos 0 <ℤ duration) × ((at ≡ none) ⊎ ((t : ℕ) × (at ≡ some t) × (duration ≤ℤ pos t))))
unfolding hang
hang_cases (pos d) none tie = ground arith
hang_cases (negsuc d) none tie = ground arith
hang_cases (pos d) (some t) tie =
    (λ e. ground arith, λ h e. cc, λ e. (ground arith, inr (t, refl, ground arith)))
hang_cases (negsuc d) (some t) tie = ground arith
