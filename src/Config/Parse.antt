-- ===== src/Config/Parse.antt =====
-- The functions of Go's packages strings and strconv that internal/config/config.go reads settings with,
-- on text in ASCII: `TrimSpace`, `ToUpper`, `HasSuffix` with `TrimSuffix`, `ParseInt` in base ten (and
-- `Atoi`), and `ParseBool`.
use hotpod.Prelude.{
  ℕ, zero, suc, ◌+◌, ◌-◌, ◌*◌, ◌≤◌, ◌≡◌, refl, ap, ◌∙◌, inl, inr, Bool, true, false, ◌&&◌, ◌||◌,
  Option, none, some, [], ◌∷◌, ◌++◌, map, length, ◌==◌, leb, if◌then◌else◌, All, arith, Bool-cases,
  Option-cases, length-append, append_assoc, sym, ◌≢◌,
}
use mathlib.Core.Option
use hotpod.Prelude.Int.{ℤ, pos, negsuc, max_int64}
use hotpod.Prelude.Text.{Text, codes, text_eq, text_eq_iff, text_eq_refl}

unfoldable pub is_space : ℕ → Bool
is_space c = (leb 9 c && leb c 13) || c == 32 || c == 133 || c == 160

unfoldable pub trim_left : Text → Text
unfolding is_space
trim_left [] = []
trim_left (c ∷ s) = let rest = trim_left s in if is_space c then rest else c ∷ s

unfoldable pub trim_right : Text → Text
unfolding is_space
trim_right [] = []
trim_right (c ∷ s) = elim (trim_right s) [
  | [] ↦ if is_space c then [] else c ∷ []
  | d ∷ t ↦ c ∷ d ∷ t
]

unfoldable pub trim_space : Text → Text
unfolding trim_left trim_right
trim_space s = trim_right (trim_left s)

unfoldable pub upper : ℕ → ℕ
upper c = if leb b'a' c && leb c b'z' then c - 32 else c

unfoldable pub to_upper : Text → Text
unfolding upper
to_upper s = map upper s

-- `TrimSuffix` where `HasSuffix` holds, and none where it does not.
unfoldable pub strip_suffix : Text → Text → Option Text
strip_suffix [] suffix = if text_eq [] suffix then some [] else none
strip_suffix (c ∷ s) suffix =
    let rest = Option.map (λ t. c ∷ t) (strip_suffix s suffix) in
    if text_eq (c ∷ s) suffix then some [] else rest

abbrev pub is_digit : ℕ → Bool
is_digit c = leb b'0' c && leb c b'9'

-- The value of digits after the value so far.
unfoldable pub digits_from : ℕ → Text → Option ℕ
digits_from n [] = some n
digits_from n (c ∷ s) =
    let rest = digits_from (10 * n + (c - b'0')) s in if is_digit c then rest else none

unfoldable pub parse_digits : Text → Option ℕ
unfolding digits_from
parse_digits [] = none
parse_digits (c ∷ s) = digits_from 0 (c ∷ s)

unfoldable pub in_int64 : Option ℕ → Option ℤ
in_int64 none = none
in_int64 (some n) = if leb n max_int64 then some (pos n) else none

unfoldable pub neg_int64 : Option ℕ → Option ℤ
neg_int64 none = none
neg_int64 (some zero) = some (pos 0)
neg_int64 (some (suc n)) = if leb n max_int64 then some (negsuc n) else none

-- `strconv.ParseInt(s, 10, 64)`, and `strconv.Atoi` where an int has 64 bits.
unfoldable pub parse_int : Text → Option ℤ
unfolding parse_digits in_int64 neg_int64
parse_int [] = none
parse_int (c ∷ s) =
    if c == b'-'
    then neg_int64 (parse_digits s)
    else if c == b'+'
    then in_int64 (parse_digits s)
    else in_int64 (parse_digits (c ∷ s))

unfoldable pub parse_bool : Text → Option Bool
parse_bool s =
    if text_eq s (codes "1")
      || text_eq s (codes "t")
      || text_eq s (codes "T")
      || text_eq s (codes "TRUE")
      || text_eq s (codes "true")
      || text_eq s (codes "True")
    then some true
    else if text_eq s (codes "0")
        || text_eq s (codes "f")
        || text_eq s (codes "F")
        || text_eq s (codes "FALSE")
        || text_eq s (codes "false")
        || text_eq s (codes "False")
    then some false
    else none

abbrev pub AreDigits : Text → Type 0
AreDigits = All (λ c. (b'0' ≤ c) × (c ≤ b'9'))

-- The number that digits stand for.
abbrev pub value_from : ℕ → Text → ℕ
value_from n [] = n
value_from n (c ∷ s) = value_from (10 * n + (c - b'0')) s

pub digits_from-value : (n : ℕ) (s : Text) → AreDigits s → digits_from n s ≡ some (value_from n s)
unfolding digits_from
digits_from-value n [] d = refl
digits_from-value n (c ∷ s) d = ground (arith, digits_from-value (10 * n + (c - b'0')) s d.1)

pub parse_int-digits :
    (c : ℕ) (s : Text)
    → AreDigits (c ∷ s)
    → value_from 0 (c ∷ s) ≤ max_int64
    → parse_int (c ∷ s) ≡ some (pos (value_from 0 (c ∷ s)))
unfolding parse_int
parse_int-digits c s d h = ground (arith, digits_from-value 0 (c ∷ s) d)

-- `strip_suffix` finds what stands before a suffix, and nothing else.
pub strip_suffix-append : (s suffix p : Text) → strip_suffix s suffix ≡ some p → s ≡ p ++ suffix
unfolding strip_suffix
strip_suffix-append [] suffix p e = ground (arith, text_eq_iff [] suffix)
strip_suffix-append (c ∷ s) suffix p e = elim (Bool-cases (text_eq (c ∷ s) suffix)) [
  | inl whole ↦ ground (arith, text_eq_iff (c ∷ s) suffix)
  | inr shorter ↦ elim (Option-cases (strip_suffix s suffix)) [
    | inl missing ↦ ground arith
    | inr (t, found) ↦ ground (arith, strip_suffix-append s suffix t found)
  ]
]

text_eq-longer : (c : ℕ) (s suffix : Text) → text_eq (c ∷ s ++ suffix) suffix ≡ false
text_eq-longer c s suffix = ground (
  arith,
  text_eq_iff (c ∷ s ++ suffix) suffix,
  λ (e : (c ∷ s ++ suffix) ≡ suffix). ap length e,
  length-append s suffix,
)

pub strip_suffix_lem : (s suffix : Text) → strip_suffix (s ++ suffix) suffix ≡ some s
unfolding strip_suffix text_eq
strip_suffix_lem [] [] = refl
strip_suffix_lem [] (d ∷ suffix) = rw (text_eq_refl (d ∷ suffix)) refl
strip_suffix_lem (c ∷ s) suffix = rw (text_eq-longer c s suffix, strip_suffix_lem s suffix) refl

last-eq : (s t : Text) (c d : ℕ) → s ++ c ∷ [] ≡ t ++ d ∷ [] → c ≡ d
last-eq [] [] c d e = ground arith
last-eq [] (y ∷ []) c d e = ground arith
last-eq [] (y ∷ z ∷ t) c d e = ground arith
last-eq (x ∷ []) [] c d e = ground arith
last-eq (x ∷ w ∷ s) [] c d e = ground arith
last-eq (x ∷ s) (y ∷ t) c d e = last-eq s t c d (ground arith)

-- A text whose last character differs from that of the suffix.
pub strip_suffix-last :
    (s suffix : Text) (c d : ℕ) → c ≢ d → strip_suffix (s ++ c ∷ []) (suffix ++ d ∷ []) ≡ none
strip_suffix-last s suffix c d h =
    elim (Option-cases (strip_suffix (s ++ c ∷ []) (suffix ++ d ∷ []))) [
      | inl e ↦ e
      | inr (p, e) ↦ absurd (
          h (
            last-eq s (p ++ suffix) c d (
              strip_suffix-append (s ++ c ∷ []) (suffix ++ d ∷ []) p e
              ∙ sym (append_assoc p suffix (d ∷ [])))))
    ]

in_int64-le : (o : Option ℕ) (n : ℕ) → in_int64 o ≡ some (pos n) → n ≤ max_int64
unfolding in_int64
in_int64-le none n e = cc
in_int64-le (some m) n e = ground arith

neg_int64-le : (o : Option ℕ) (n : ℕ) → neg_int64 o ≡ some (pos n) → n ≤ max_int64
unfolding neg_int64
neg_int64-le none n e = cc
neg_int64-le (some zero) n e = ground arith
neg_int64-le (some (suc m)) n e = ground arith

-- What `ParseInt` returns fits an int64.
pub parse_int-le : (s : Text) (n : ℕ) → parse_int s ≡ some (pos n) → n ≤ max_int64
unfolding parse_int
parse_int-le [] n e = cc
parse_int-le (c ∷ s) n e = ground (
  arith,
  neg_int64-le (parse_digits s) n,
  in_int64-le (parse_digits s) n,
  in_int64-le (parse_digits (c ∷ s)) n,
)
