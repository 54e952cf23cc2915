-- ===== src/Config/Cpu.antt =====
-- `ParseCPU` of internal/config/config.go: Kubernetes CPU notation as a duration per second.
use hotpod.Prelude.{ℕ, ◌*◌, ◌≤◌, ◌<◌, ◌≡◌, ◌≢◌, Option, none, some, [], ◌∷◌, if◌then◌else◌, arith}
use hotpod.Prelude.Int.{ℤ, pos, negsuc, wrap_int64}
use hotpod.Prelude.Text.{Text, codes}
use hotpod.Prelude.Float.{Float}
use hotpod.Config.Result.{Result, ok, err, empty_string, invalid_number, negative_value}
use hotpod.Config.Parse.{trim_space, strip_suffix, parse_int}

-- What the settings need of Go's float64 and of its parsers: `strconv.ParseFloat`, the conversion
-- `time.Duration(f * float64(time.Second))`, and `time.ParseDuration`.
pub record Parsers (F : Type 0) : Type 0 where
  pub parse_float : Text → Option F
  pub of_seconds : F → ℤ
  pub parse_duration : Text → Option ℤ

-- time.Millisecond
abbrev pub millisecond : ℕ
millisecond = 1000000

-- The branch for millicores: the product is an int64.
unfoldable pub millicores : Option ℤ → Result ℤ
millicores none = err invalid_number
millicores (some (negsuc n)) = err negative_value
millicores (some (pos n)) = ok (wrap_int64 (pos (n * millisecond)))

wrapped_small :
    (n : ℕ) → n ≤ 9223372036854 → wrap_int64 (pos (n * millisecond)) ≡ pos (n * millisecond)
unfolding wrap_int64
wrapped_small n h = ground arith

wrapped_big :
    (n : ℕ) → 9223372036854 < n → wrap_int64 (pos (n * millisecond)) ≢ pos (n * millisecond)
unfolding wrap_int64
wrapped_big n h = ground arith

module _ {F : Type 0} ⦃fl : Float F⦄ (ps : Parsers F) where
  open fl use {ltb_F, zero_F}

  unfoldable pub decimal_cores : Option F → Result ℤ
  decimal_cores none = err invalid_number
  decimal_cores (some f) = if ltb_F f zero_F then err negative_value else ok (ps.of_seconds f)

  parse_trimmed : Text → Result ℤ
  unfolding millicores decimal_cores
  parse_trimmed s = elim (strip_suffix s (codes "m")) [
    | some num ↦ millicores (parse_int num)
    | none ↦ decimal_cores (ps.parse_float s)
  ]

  unfoldable pub parse_cpu : Text → Result ℤ
  unfolding parse_trimmed
  parse_cpu [] = err empty_string
  parse_cpu (c ∷ s) = parse_trimmed (trim_space (c ∷ s))

  -- For a number of millicores that `ParseInt` accepts, `ParseCPU` never fails, and its result is that
  -- many milliseconds exactly if these fit an int64 of nanoseconds: beyond 9223372036854 millicores the
  -- result is some other duration.
  pub parse_cpu-millicores :
      (c : ℕ) (s num : Text) (n : ℕ)
      → strip_suffix (trim_space (c ∷ s)) (codes "m") ≡ some num
      → parse_int num ≡ some (pos n)
      → (v : ℤ) × (parse_cpu (c ∷ s) ≡ ok v)
        × ((n ≤ 9223372036854) → v ≡ pos (n * millisecond))
        × ((9223372036854 < n) → v ≢ pos (n * millisecond))
  unfolding parse_cpu
  parse_cpu-millicores c s num n m e = (
    wrap_int64 (pos (n * millisecond)),
    ground (arith, m, e),
    λ h. wrapped_small n h,
    λ h. wrapped_big n h,
  )
