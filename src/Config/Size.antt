-- ===== src/Config/Size.antt =====
-- `ParseSize` of internal/config/config.go: what it accepts, and the number of bytes that it means.
use mathlib.Core.List.{Memᴰ}
use hotpod.Prelude.{
  ℕ, ◌*◌, ◌/◌, ◌^◌, ◌≤◌, ◌<◌, ◌≡◌, refl, ap, ◌∙◌, ◌⊎◌, inl, inr, Option, none, some, List, [], ◌∷◌,
  ◌++◌, ltb, if◌then◌else◌, arith, Bool-cases, Option-cases, All,
}
use hotpod.Prelude.Int.{ℤ, pos, negsuc, max_int64}
use hotpod.Prelude.Text.{Text, codes}
use hotpod.Config.Result.{
  Result, ok, err, empty_string, invalid_number, negative_value, overflow_value,
}
use hotpod.Config.Parse.{
  trim_space, to_upper, strip_suffix, strip_suffix-append, parse_int, parse_int-le,
}

pub record SizeSuffix : Type 0 where
  pub suffix : Text
  pub mult : ℕ

abbrev pub entry : Text → ℕ → SizeSuffix
entry suffix mult = record { suffix = suffix; mult = mult }

-- `sizeSuffixes`; the order matters, since every text ends in "B" that ends in "KB".
unfoldable pub size_suffixes : List SizeSuffix
size_suffixes =
    entry (codes "TI") (2 ^ 40)
    ∷ entry (codes "TB") (2 ^ 40)
    ∷ entry (codes "GI") (2 ^ 30)
    ∷ entry (codes "GB") (2 ^ 30)
    ∷ entry (codes "MI") (2 ^ 20)
    ∷ entry (codes "MB") (2 ^ 20)
    ∷ entry (codes "KI") (2 ^ 10)
    ∷ entry (codes "KB") (2 ^ 10)
    ∷ entry (codes "B") 1
    ∷ []

-- The checks on a number before a suffix that stands for `mult`.
unfoldable pub scaled : ℕ → Option ℤ → Result ℤ
scaled mult none = err invalid_number
scaled mult (some (negsuc n)) = err negative_value
scaled mult (some (pos n)) =
    if ltb (max_int64 / mult) n then err overflow_value else ok (pos (n * mult))

-- The last part: no suffix, so bytes.
unfoldable pub plain : Option ℤ → Result ℤ
plain none = err invalid_number
plain (some (negsuc n)) = err negative_value
plain (some (pos n)) = ok (pos n)

-- The loop over the suffixes.
unfoldable pub try_suffixes : List SizeSuffix → Text → Result ℤ
unfolding scaled plain
try_suffixes [] s = plain (parse_int s)
try_suffixes (sm ∷ rest) s = elim (strip_suffix s sm.suffix) [
  | some num ↦ scaled sm.mult (parse_int (trim_space num))
  | none ↦ try_suffixes rest s
]

unfoldable pub parse_size : Text → Result ℤ
unfolding try_suffixes size_suffixes
parse_size [] = err empty_string
parse_size (c ∷ s) = try_suffixes size_suffixes (to_upper (trim_space (c ∷ s)))

-- A text that is a number and a suffix of the list, or a number alone.
abbrev pub Spells : List SizeSuffix → Text → ℕ → ℕ → Type 0
Spells sms s n mult =
    ((num suffix : Text) × (s ≡ num ++ suffix)
      × Memᴰ (entry suffix mult) sms
      × (parse_int (trim_space num) ≡ some (pos n)))
    ⊎ ((mult ≡ 1) × (parse_int s ≡ some (pos n)))

abbrev Positive : List SizeSuffix → Type 0
Positive = All (λ sm. 0 < sm.mult)

-- A result and what it was computed from.
abbrev Means : List SizeSuffix → Text → ℤ → Type 0
Means sms s v = (n mult : ℕ) × Spells sms s n mult × (v ≡ pos (n * mult)) × (n * mult ≤ max_int64)

scaled-ok :
    (mult : ℕ) (o : Option ℤ) (v : ℤ)
    → 0 < mult
    → scaled mult o ≡ ok v
    → (n : ℕ) × (o ≡ some (pos n)) × (v ≡ pos (n * mult)) × (n * mult ≤ max_int64)
unfolding scaled
scaled-ok mult none v p e = cc
scaled-ok mult (some (negsuc n)) v p e = cc
scaled-ok mult (some (pos n)) v p e = elim (Bool-cases (ltb (max_int64 / mult) n)) [
  | inl big ↦ absurd (ground arith)
  | inr fits ↦ (n, refl, ground arith, grind arith)
]

plain-ok : (o : Option ℤ) (v : ℤ) → plain o ≡ ok v → (n : ℕ) × (o ≡ some (pos n)) × (v ≡ pos n)
unfolding plain
plain-ok none v e = cc
plain-ok (some (negsuc n)) v e = cc
plain-ok (some (pos n)) v e = (n, refl, ground arith)

later_suffix :
    (sm : SizeSuffix) (sms : List SizeSuffix) (s : Text) (v : ℤ)
    → Means sms s v
    → Means (sm ∷ sms) s v
later_suffix sm sms s v (n, mult, inl (num, suffix, e, m, p), v', b) =
    (n, mult, inl (num, suffix, e, Memᴰ.tail m, p), v', b)
later_suffix sm sms s v (n, mult, inr q, v', b) = (n, mult, inr q, v', b)

try_suffixes-Means :
    (sms : List SizeSuffix) (s : Text) (v : ℤ)
    → Positive sms
    → try_suffixes sms s ≡ ok v
    → Means sms s v
unfolding try_suffixes
try_suffixes-Means [] s v p e =
    let (n, number, value) = plain-ok (parse_int s) v e in
    (n, 1, inr (refl, number), value ∙ ap pos (omega arith), omega (arith, parse_int-le s n number))
try_suffixes-Means (sm ∷ sms) s v p e = elim (Option-cases (strip_suffix s sm.suffix)) [
  | inl missing ↦ later_suffix sm sms s v (try_suffixes-Means sms s v p.1 (ground arith))
  | inr (num, found) ↦
      let (n, number, value, fits) =
        scaled-ok sm.mult (parse_int (trim_space num)) v p.0 (ground arith) in
      (
        n,
        sm.mult,
        inl (num, sm.suffix, strip_suffix-append s sm.suffix num found, Memᴰ.head refl, number),
        value,
        fits,
      )
]

-- What `ParseSize` accepts, trimmed and in upper case, is a number with one of the suffixes, spaces
-- between them allowed, or a number alone. The result is the number times the suffix's multiplier, with
-- no wrap-around: it is at least 0 and fits an int64.
pub parse_size-Means :
    (s : Text) (v : ℤ)
    → parse_size s ≡ ok v
    → (n mult : ℕ) × Spells size_suffixes (to_upper (trim_space s)) n mult
      × (v ≡ pos (n * mult))
      × (n * mult ≤ max_int64)
unfolding parse_size
parse_size-Means [] v e = cc
parse_size-Means (c ∷ s) v e =
    try_suffixes-Means size_suffixes (to_upper (trim_space (c ∷ s))) v
      (unfold size_suffixes in omega arith) e
