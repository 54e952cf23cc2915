-- ===== src/Sidecar/Burn.antt =====
-- How long a tick of `cpuLoop` in internal/sidecar/runner.go burns.
use hotpod.Prelude.{
  ℕ, ◌+◌, ◌-◌, ◌*◌, ◌≤◌, ◌<◌, ◌≡◌, refl, ◌⊎◌, inl, inr, Option, none, some, List, [], ◌∷◌, arith,
  if◌then◌else◌, All, Bool-cases, ltb, ◌≢◌, length, ◌∙◌, ap,
}
use hotpod.Prelude.Int.{ℤ, pos, is_pos, is_neg, max_int64, wrap_int64, ◌≤ℤ◌, ◌<ℤ◌, ◌+ℤ◌, ◌-ℤ◌}
use hotpod.Sidecar.Defs.{jitter_of, burn_duration, cpu_loop}

jitter_of-small :
    (random j : ℕ)
    → 2 * j + 1 ≤ max_int64
    → random ≤ 2 * j
    → jitter_of random (pos j) ≡ some (pos random -ℤ pos j)
unfolding jitter_of wrap_int64
jitter_of-small random j h l = ground arith

jitter_of-large :
    (random j : ℕ) → j ≤ max_int64 → max_int64 < 2 * j + 1 → jitter_of random (pos j) ≡ none
unfolding jitter_of wrap_int64
jitter_of-large random j h l = ground arith

-- A tick with a jitter: the time is off the baseline by no more than the jitter, and 0 where that would be
-- below 0 or more than an int64 holds.
abbrev pub BurnsFor : ℕ → ℕ → ℕ → Option ℤ → Type 0
BurnsFor random b j none = max_int64 < 2 * j + 1
BurnsFor random b j (some d) =
    (2 * j + 1 ≤ max_int64)
    × (((j ≤ b + random) × (b + random ≤ max_int64 + j) × (d ≡ pos (b + random - j)))
        ⊎ (((b + random < j) ⊎ (max_int64 + j < b + random)) × (d ≡ pos 0)))

abbrev clamp : ℤ → ℤ
clamp z = if is_neg z then pos 0 else z

clamped :
    (random b j : ℕ)
    → b ≤ max_int64
    → 2 * j + 1 ≤ max_int64
    → random ≤ 2 * j
    → BurnsFor random b j (some (clamp (wrap_int64 (pos b +ℤ (pos random -ℤ pos j)))))
unfolding wrap_int64
clamped random b j hb h hr = ground arith

burn_duration-BurnsFor :
    (random b j : ℕ)
    → b ≤ max_int64
    → 0 < j
    → j ≤ max_int64
    → random ≤ 2 * j
    → BurnsFor random b j (burn_duration random (pos b) (pos j))
unfolding burn_duration
burn_duration-BurnsFor random b j hb h0 hj hr = elim (Bool-cases (ltb max_int64 (2 * j + 1))) [
  | inl big ↦ rw (jitter_of-large random j hj (ground arith), burn_duration) (ground arith)
  | inr small ↦
      rw (jitter_of-small random j (ground arith) hr, burn_duration)
        (ground (arith, clamped random b j hb (ground arith) hr))
]

-- What some ticks burn: nothing panics but the first tick, where twice the jitter is too large.
abbrev pub BurnsNear : ℕ → ℕ → List ℕ → Option (List ℤ) → Type 0
BurnsNear b j randoms none = (randoms ≢ []) × (0 < j) × (max_int64 < 2 * j + 1)
BurnsNear b j randoms (some ds) =
    ((randoms ≡ []) ⊎ (j ≡ 0) ⊎ (2 * j + 1 ≤ max_int64))
    × (length ds ≤ length randoms)
    × All (λ d. (pos 0 <ℤ d) × (d ≤ℤ pos (b + j)) × (pos b ≤ℤ (d +ℤ pos j))) ds

burn_duration_cases :
    (random b j : ℕ)
    → b ≤ max_int64
    → j ≤ max_int64
    → random ≤ 2 * j
    → ((burn_duration random (pos b) (pos j) ≡ none) × (0 < j) × (max_int64 < 2 * j + 1))
      ⊎ ((d : ℕ) × (burn_duration random (pos b) (pos j) ≡ some (pos d))
          × ((j ≡ 0) ⊎ (2 * j + 1 ≤ max_int64))
          × ((d ≡ 0) ⊎ ((d ≤ b + j) × (b ≤ d + j))))
burn_duration_cases random b j hb hj hr = elim (Bool-cases (ltb 0 j)) [
  | inr e ↦ inr (b, unfold burn_duration in ground arith, inl (ground arith), ground arith)
  | inl e ↦
      go (burn_duration random (pos b) (pos j)) refl
        (burn_duration-BurnsFor random b j hb (ground arith) hj hr)
]
  where
    go :
        (r : Option ℤ)
        → burn_duration random (pos b) (pos j) ≡ r
        → BurnsFor random b j r
        → ((burn_duration random (pos b) (pos j) ≡ none) × (0 < j) × (max_int64 < 2 * j + 1))
          ⊎ ((d : ℕ) × (burn_duration random (pos b) (pos j) ≡ some (pos d))
              × ((j ≡ 0) ⊎ (2 * j + 1 ≤ max_int64))
              × ((d ≡ 0) ⊎ ((d ≤ b + j) × (b ≤ d + j))))
    go none q h = inl (q, ground arith, h)
    go (some d) q (h, inl (l, u, same)) =
        inr (b + random - j, q ∙ ap some same, inr h, inr (omega arith, omega arith))
    go (some d) q (h, inr (out, same)) = inr (0, q ∙ ap some same, inr h, inl refl)

next_tick :
    (random b j : ℕ) (randoms : List ℕ) (d : ℕ)
    → (j ≡ 0) ⊎ (2 * j + 1 ≤ max_int64)
    → (d ≡ 0) ⊎ ((d ≤ b + j) × (b ≤ d + j))
    → (rest : Option (List ℤ)) → BurnsNear b j randoms rest
    → BurnsNear b j
        (random ∷ randoms)
        (elim rest [ none ↦ none | some ds ↦ some (if is_pos (pos d) then pos d ∷ ds else ds) ])
next_tick random b j randoms d small near none (n, h0, h) = ((λ q. cc), h0, h)
next_tick random b j randoms d small near (some ds) (s, l, a) = elim (Bool-cases (ltb 0 d)) [
  | inl more ↦
      rw more (inr small, omega (arith, l), ((ground arith, ground arith, ground arith), a))
  | inr idle ↦ rw idle (inr small, omega (arith, l), a)
]

-- Any ticks of `cpuLoop`, with a baseline and a jitter that are not below 0 and fit an int64, whatever
-- `rand.Int64N` returns within its bounds: if the jitter is 0, or twice the jitter and one still fit an
-- int64, no tick panics, and each burns for a time that is above 0 and off the baseline by no more than the
-- jitter, or not at all; else the first tick panics.
pub cpu_loop-BurnsNear :
    (b j : ℕ) (randoms : List ℕ)
    → b ≤ max_int64
    → j ≤ max_int64
    → All (λ random. random ≤ 2 * j) randoms
    → BurnsNear b j randoms (cpu_loop (pos b) (pos j) randoms)
unfolding cpu_loop
cpu_loop-BurnsNear b j [] hb hj hr = (inl refl, omega arith, tt)
cpu_loop-BurnsNear b j (random ∷ randoms) hb hj hr =
    elim (burn_duration_cases random b j hb hj hr.0) [
      | inl (e, h0, h) ↦ rw (e, cpu_loop) ((λ q. cc), h0, h)
      | inr (d, e, small, near) ↦
          rw (e, cpu_loop)
            (next_tick random b j randoms d small near (cpu_loop (pos b) (pos j) randoms)
              (cpu_loop-BurnsNear b j randoms hb hj hr.1))
    ]
