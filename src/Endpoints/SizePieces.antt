-- ===== src/Endpoints/SizePieces.antt =====
-- The text that `formatSize` of internal/handlers/memory.go prints, piece by piece, as `ParseSize` of
-- internal/config/config.go takes it apart.
use hotpod.Prelude.{
  ℕ, zero, suc, ◌+◌, ◌-◌, ◌*◌, ◌/◌, ◌%◌, ◌≤◌, ◌<◌, ◌≡◌, refl, ap, ◌∙◌, subst, ◌⊎◌, inl, inr, false,
  none, some, List, [], ◌∷◌, ◌++◌, ltb, arith, All, Bool-cases, Option-cases,
}
use hotpod.Prelude.Int.{pos, max_int64}
use hotpod.Prelude.Text.{Text}
use hotpod.Config.Parse.{
  is_space, trim_left, trim_right, trim_space, upper, to_upper, strip_suffix, strip_suffix-append,
  strip_suffix_lem, digits_from, parse_int, AreDigits, value_from, parse_int-digits,
}
use hotpod.Config.Size.{SizeSuffix, entry, size_suffixes, scaled, try_suffixes, parse_size}
use hotpod.Endpoints.SizeText.{print_from, print_nat}

pub print_from-AreDigits :
    (fuel n : ℕ) (out : Text) → AreDigits out → AreDigits (print_from fuel n out)
unfolding print_from
print_from-AreDigits zero n out d = d
print_from-AreDigits (suc fuel) n out d = elim (Bool-cases (ltb 9 n)) [
  | inl e ↦ rw e (print_from-AreDigits fuel (n / 10) _ ((omega arith, omega arith), d))
  | inr e ↦ rw e ((omega arith, omega arith), d)
]

value-print_from :
    (fuel n : ℕ) (out : Text) → n < fuel → value_from 0 (print_from fuel n out) ≡ value_from n out
unfolding print_from
value-print_from zero n out h = absurd (omega arith)
value-print_from (suc fuel) n out h = elim (Bool-cases (ltb 9 n)) [
  | inl e ↦ rw e (
      value-print_from fuel (n / 10) ((b'0' + n % 10) ∷ out) (ground arith)
      ∙ ap (λ m. value_from m out) (omega arith))
  | inr e ↦ rw e (ap (λ m. value_from m out) (ground arith))
]

-- Text with at least one character.
abbrev pub NonEmpty : Text → Type 0
NonEmpty [] = ⊥
NonEmpty (c ∷ s) = Unit

print_from-NonEmpty : (fuel n : ℕ) (out : Text) → NonEmpty out → NonEmpty (print_from fuel n out)
unfolding print_from
print_from-NonEmpty zero n out p = p
print_from-NonEmpty (suc fuel) n out p = elim (Bool-cases (ltb 9 n)) [
  | inl e ↦ rw e (print_from-NonEmpty fuel (n / 10) _ tt)
  | inr e ↦ rw e tt
]

pub print_nat-NonEmpty : (n : ℕ) → NonEmpty (print_nat n)
unfolding print_nat print_from
print_nat-NonEmpty n = elim (Bool-cases (ltb 9 n)) [
  | inl e ↦ rw e (print_from-NonEmpty n (n / 10) _ tt)
  | inr e ↦ rw e tt
]

pub parse_int-print : (n : ℕ) → n ≤ max_int64 → parse_int (print_nat n) ≡ some (pos n)
parse_int-print n h =
    go (print_nat n) (print_nat-NonEmpty n)
      (unfold print_nat in print_from-AreDigits (suc n) n [] tt)
      (unfold print_nat in value-print_from (suc n) n [] (omega arith))
  where
    go : (s : Text) → NonEmpty s → AreDigits s → value_from 0 s ≡ n → parse_int s ≡ some (pos n)
    go [] p d v = elim p [ ]
    go (c ∷ s) p d v = parse_int-digits c s d (omega (arith, v)) ∙ ap (λ m. some (pos m)) v

-- A character that is left as it is by `TrimSpace` and `ToUpper`.
abbrev pub Plain : ℕ → Type 0
Plain c = (is_space c ≡ false) × (upper c ≡ c)

trim_left-Plain : (s : Text) → All Plain s → trim_left s ≡ s
unfolding trim_left
trim_left-Plain [] p = refl
trim_left-Plain (c ∷ s) p = rw p.0.0 refl

trim_right-Plain : (s : Text) → All Plain s → trim_right s ≡ s
unfolding trim_right
trim_right-Plain [] p = refl
trim_right-Plain (c ∷ []) p = rw p.0.0 refl
trim_right-Plain (c ∷ d ∷ s) p = rw (trim_right-Plain (d ∷ s) p.1) refl

pub trim_space-Plain : (s : Text) → All Plain s → trim_space s ≡ s
unfolding trim_space
trim_space-Plain s p = rw (trim_left-Plain s p) (trim_right-Plain s p)

to_upper-Plain : (s : Text) → All Plain s → to_upper s ≡ s
unfolding to_upper
to_upper-Plain [] p = refl
to_upper-Plain (c ∷ s) p = ap (λ d. d ∷ to_upper s) p.0.1 ∙ ap (λ t. c ∷ t) (to_upper-Plain s p.1)

-- The characters of a size in the unit `u`.
abbrev pub InSize : ℕ → ℕ → Type 0
InSize u c = ((b'0' ≤ c) × (c ≤ b'9')) ⊎ (c ≡ b'.') ⊎ (c ≡ u) ⊎ (c ≡ b'B')

module _ (P : ℕ → Type 0) where
  pub All-append : (s t : Text) → All P s → All P t → All P (s ++ t)
  All-append [] t p q = q
  All-append (c ∷ s) t p q = (p.0, All-append s t p.1 q)

  All-append_right : (s t : Text) → All P (s ++ t) → All P t
  All-append_right [] t p = p
  All-append_right (c ∷ s) t p = All-append_right s t p.1

  pub All-weaken : {Q : ℕ → Type 0} (s : Text) → ((c : ℕ) → P c → Q c) → All P s → All Q s
  All-weaken [] f p = tt
  All-weaken (c ∷ s) f p = (f c p.0, All-weaken s f p.1)

  -- A suffix with a character that the text cannot have.
  strip_suffix-foreign :
      (s suffix : Text) → All P s → (All P suffix → ⊥) → strip_suffix s suffix ≡ none
  strip_suffix-foreign s suffix a n = elim (Option-cases (strip_suffix s suffix)) [
    | inl e ↦ e
    | inr (p, e) ↦
        absurd (n (All-append_right p suffix (subst (All P) (strip_suffix-append s suffix p e) a)))
  ]

  pub skip :
      (s suffix : Text) (mult : ℕ) (rest : List SizeSuffix)
      → All P s
      → (All P suffix → ⊥)
      → try_suffixes (entry suffix mult ∷ rest) s ≡ try_suffixes rest s
  unfolding try_suffixes
  skip s suffix mult rest a n = rw (strip_suffix-foreign s suffix a n, try_suffixes) refl

pub hit :
    (num suffix : Text) (mult : ℕ) (rest : List SizeSuffix)
    → try_suffixes (entry suffix mult ∷ rest) (num ++ suffix)
      ≡ scaled mult (parse_int (trim_space num))
unfolding try_suffixes
hit num suffix mult rest = rw (strip_suffix_lem num suffix, try_suffixes) refl

abbrev pub IsUnit : ℕ → Type 0
IsUnit u = (u ≡ b'T') ⊎ (u ≡ b'G') ⊎ (u ≡ b'M') ⊎ (u ≡ b'K') ⊎ (u ≡ b'B')

pub InSize-Plain : (u c : ℕ) → IsUnit u → InSize u c → Plain c
unfolding is_space upper
InSize-Plain u c v h = ground arith

-- What the two passes over the text leave of it.
pub parse_size-Plain :
    (s : Text) → NonEmpty s → All Plain s → parse_size s ≡ try_suffixes size_suffixes s
unfolding parse_size
parse_size-Plain [] n p = elim n [ ]
parse_size-Plain (c ∷ s) n p =
    ap (try_suffixes size_suffixes)
      (ap to_upper (trim_space-Plain (c ∷ s) p) ∙ to_upper-Plain (c ∷ s) p)

-- The mantissa of `print_tenths` is no integer.
digits_from-point : (n : ℕ) (s t : Text) → AreDigits s → digits_from n (s ++ (b'.' ∷ t)) ≡ none
unfolding digits_from
digits_from-point n [] t d = refl
digits_from-point n (c ∷ s) t d =
    rw (digits_from-point (10 * n + (c - b'0')) s t d.1) (ground arith)

pub parse_int-point : (s t : Text) → NonEmpty s → AreDigits s → parse_int (s ++ (b'.' ∷ t)) ≡ none
unfolding parse_int
parse_int-point [] t n d = elim n [ ]
parse_int-point (c ∷ s) t n d = ground (arith, digits_from-point 0 (c ∷ s) t d)
