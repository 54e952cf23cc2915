-- ===== src/Endpoints/SizeRead.antt =====
-- `ParseSize` of internal/config/config.go on what `formatSize` of internal/handlers/memory.go prints.
use hotpod.Prelude.{
  ℕ, suc, ◌+◌, ◌/◌, ◌%◌, ◌^◌, ◌≤◌, ◌<◌, ◌≡◌, refl, ap, ◌∙◌, ◌⊎◌, inl, inr, Option, none, some, [],
  ◌∷◌, ◌++◌, arith, All,
}
use hotpod.Prelude.Int.{ℤ, pos, max_int64}
use hotpod.Prelude.Text.{Text, codes}
use hotpod.Config.Result.{ok, err, invalid_number}
use hotpod.Config.Parse.{parse_int, AreDigits}
use hotpod.Config.Size.{size_suffixes, scaled, try_suffixes, parse_size}
use hotpod.Endpoints.SizeText.{print_nat, tenths, print_tenths, format_size}
use hotpod.Endpoints.SizePieces.{
  NonEmpty, InSize, IsUnit, Plain, parse_int-print, print_nat-NonEmpty, print_from-AreDigits, skip,
  hit, InSize-Plain, parse_size-Plain, parse_int-point, trim_space-Plain, All-append, All-weaken,
}

-- What is left of the text of a size once all spaces and cases are dealt with.
module _ (num : Text) (u : ℕ) (v : IsUnit u) (n : NonEmpty num) (a : All (InSize u) num) where
  num_Plain : All Plain num
  num_Plain = All-weaken (InSize u) num (λ c. InSize-Plain u c v) a

  try_size :
      (suffix : Text)
      → All (InSize u) suffix
      → (parse_size (num ++ suffix) ≡ try_suffixes size_suffixes (num ++ suffix))
        × All (InSize u) (num ++ suffix)
  try_size suffix q =
      let both = All-append (InSize u) num suffix a q in
      (
        parse_size-Plain (num ++ suffix) (longer num n)
            (All-weaken (InSize u) (num ++ suffix) (λ c. InSize-Plain u c v) both),
        both,
      )
    where
      longer : (s : Text) → NonEmpty s → NonEmpty (s ++ suffix)
      longer [] p = elim p [ ]
      longer (c ∷ s) p = tt

pub parse_size-bytes :
    (num : Text)
    → NonEmpty num
    → All (InSize b'B') num
    → parse_size (num ++ codes "B") ≡ scaled 1 (parse_int num)
unfolding size_suffixes
parse_size-bytes num n a =
    let v : IsUnit b'B' = ground arith in
    let (e, q) = try_size num b'B' v n a (codes "B") (ground (arith)) in
    let s = num ++ codes "B" in
    let foreign = skip (InSize b'B') s in
    e
    ∙ foreign (codes "TI") _ _ q (λ h. ground (arith, h.0))
    ∙ foreign (codes "TB") _ _ q (λ h. ground (arith, h.0))
    ∙ foreign (codes "GI") _ _ q (λ h. ground (arith, h.0))
    ∙ foreign (codes "GB") _ _ q (λ h. ground (arith, h.0))
    ∙ foreign (codes "MI") _ _ q (λ h. ground (arith, h.0))
    ∙ foreign (codes "MB") _ _ q (λ h. ground (arith, h.0))
    ∙ foreign (codes "KI") _ _ q (λ h. ground (arith, h.0))
    ∙ foreign (codes "KB") _ _ q (λ h. ground (arith, h.0))
    ∙ hit num (codes "B") (1) _
    ∙ ap (λ t. scaled (1) (parse_int t)) (trim_space-Plain num (num_Plain num b'B' v n a))

pub parse_size-kilo :
    (num : Text)
    → NonEmpty num
    → All (InSize b'K') num
    → parse_size (num ++ codes "KB") ≡ scaled (2 ^ 10) (parse_int num)
unfolding size_suffixes
parse_size-kilo num n a =
    let v : IsUnit b'K' = ground arith in
    let (e, q) = try_size num b'K' v n a (codes "KB") (ground (arith)) in
    let s = num ++ codes "KB" in
    let foreign = skip (InSize b'K') s in
    e
    ∙ foreign (codes "TI") _ _ q (λ h. ground (arith, h.0))
    ∙ foreign (codes "TB") _ _ q (λ h. ground (arith, h.0))
    ∙ foreign (codes "GI") _ _ q (λ h. ground (arith, h.0))
    ∙ foreign (codes "GB") _ _ q (λ h. ground (arith, h.0))
    ∙ foreign (codes "MI") _ _ q (λ h. ground (arith, h.0))
    ∙ foreign (codes "MB") _ _ q (λ h. ground (arith, h.0))
    ∙ foreign (codes "KI") _ _ q (λ h. ground (arith, h.1.0))
    ∙ hit num (codes "KB") ((2 ^ 10)) _
    ∙ ap (λ t. scaled ((2 ^ 10)) (parse_int t)) (trim_space-Plain num (num_Plain num b'K' v n a))

pub parse_size-mega :
    (num : Text)
    → NonEmpty num
    → All (InSize b'M') num
    → parse_size (num ++ codes "MB") ≡ scaled (2 ^ 20) (parse_int num)
unfolding size_suffixes
parse_size-mega num n a =
    let v : IsUnit b'M' = ground arith in
    let (e, q) = try_size num b'M' v n a (codes "MB") (ground (arith)) in
    let s = num ++ codes "MB" in
    let foreign = skip (InSize b'M') s in
    e
    ∙ foreign (codes "TI") _ _ q (λ h. ground (arith, h.0))
    ∙ foreign (codes "TB") _ _ q (λ h. ground (arith, h.0))
    ∙ foreign (codes "GI") _ _ q (λ h. ground (arith, h.0))
    ∙ foreign (codes "GB") _ _ q (λ h. ground (arith, h.0))
    ∙ foreign (codes "MI") _ _ q (λ h. ground (arith, h.1.0))
    ∙ hit num (codes "MB") ((2 ^ 20)) _
    ∙ ap (λ t. scaled ((2 ^ 20)) (parse_int t)) (trim_space-Plain num (num_Plain num b'M' v n a))

pub parse_size-giga :
    (num : Text)
    → NonEmpty num
    → All (InSize b'G') num
    → parse_size (num ++ codes "GB") ≡ scaled (2 ^ 30) (parse_int num)
unfolding size_suffixes
parse_size-giga num n a =
    let v : IsUnit b'G' = ground arith in
    let (e, q) = try_size num b'G' v n a (codes "GB") (ground (arith)) in
    let s = num ++ codes "GB" in
    let foreign = skip (InSize b'G') s in
    e
    ∙ foreign (codes "TI") _ _ q (λ h. ground (arith, h.0))
    ∙ foreign (codes "TB") _ _ q (λ h. ground (arith, h.0))
    ∙ foreign (codes "GI") _ _ q (λ h. ground (arith, h.1.0))
    ∙ hit num (codes "GB") ((2 ^ 30)) _
    ∙ ap (λ t. scaled ((2 ^ 30)) (parse_int t)) (trim_space-Plain num (num_Plain num b'G' v n a))

pub parse_size-tera :
    (num : Text)
    → NonEmpty num
    → All (InSize b'T') num
    → parse_size (num ++ codes "TB") ≡ scaled (2 ^ 40) (parse_int num)
unfolding size_suffixes
parse_size-tera num n a =
    let v : IsUnit b'T' = ground arith in
    let (e, q) = try_size num b'T' v n a (codes "TB") (ground (arith)) in
    let s = num ++ codes "TB" in
    let foreign = skip (InSize b'T') s in
    e
    ∙ foreign (codes "TI") _ _ q (λ h. ground (arith, h.1.0))
    ∙ hit num (codes "TB") ((2 ^ 40)) _
    ∙ ap (λ t. scaled ((2 ^ 40)) (parse_int t)) (trim_space-Plain num (num_Plain num b'T' v n a))

print_nat-AreDigits : (n : ℕ) → AreDigits (print_nat n)
unfolding print_nat
print_nat-AreDigits n = print_from-AreDigits (suc n) n [] tt

digits-InSize : (u n : ℕ) → All (InSize u) (print_nat n)
digits-InSize u n =
    All-weaken (λ c. (b'0' ≤ c) × (c ≤ b'9')) (print_nat n) (λ c h. inl h) (print_nat-AreDigits n)

-- A number with one digit behind the point.
module _ (n unit : ℕ) where
  print_tenths-NonEmpty : NonEmpty (print_tenths n unit)
  unfolding print_tenths
  print_tenths-NonEmpty =
      longer (print_nat (tenths n unit / 10)) _ (print_nat-NonEmpty (tenths n unit / 10))
    where
      longer : (s t : Text) → NonEmpty s → NonEmpty (s ++ t)
      longer [] t p = elim p [ ]
      longer (c ∷ s) t p = tt

  print_tenths-InSize : (u : ℕ) → All (InSize u) (print_tenths n unit)
  unfolding print_tenths
  print_tenths-InSize u =
      let point : All (InSize u) (b'.' ∷ (b'0' + tenths n unit % 10) ∷ []) =
        (inr (inl refl), (inl (omega arith, omega arith), tt)) in
      All-append (InSize u) (print_nat (tenths n unit / 10)) _
        (digits-InSize u (tenths n unit / 10)) point

  parse_int-tenths : parse_int (print_tenths n unit) ≡ none
  unfolding print_tenths
  parse_int-tenths =
      let q = tenths n unit / 10 in
      parse_int-point (print_nat q) _ (print_nat-NonEmpty q) (print_nat-AreDigits q)

scaled-none : (mult : ℕ) (o : Option ℤ) → o ≡ none → scaled mult o ≡ err invalid_number
unfolding scaled
scaled-none mult o e = rw (e, scaled) refl

scaled-one : (n : ℕ) → n ≤ max_int64 → scaled 1 (some (pos n)) ≡ ok (pos n)
unfolding scaled
scaled-one n h = ground arith

bytes_again : (n : ℕ) → n ≤ max_int64 → parse_size (print_nat n ++ codes "B") ≡ ok (pos n)
bytes_again n h =
    parse_size-bytes (print_nat n) (print_nat-NonEmpty n) (digits-InSize b'B' n)
    ∙ ap (scaled 1) (parse_int-print n h)
    ∙ scaled-one n h

-- A size that is printed and read again: below 1024 it is the size that it was; from there on it is printed
-- with a tenth, which `ParseSize` refuses as no number.
pub format_size-parse :
    (n : ℕ)
    → n ≤ max_int64
    → ((n < 1024) × (parse_size (format_size (pos n)) ≡ ok (pos n)))
      ⊎ ((1024 ≤ n) × (parse_size (format_size (pos n)) ≡ err invalid_number))
format_size-parse n h = elim (size_cases n) [
  | inl (l, e) ↦ inl (l, ap parse_size e ∙ bytes_again n h)
  | inr (l, e) ↦ inr (
    l,
    elim e [
      | inl t ↦
          ap parse_size t
          ∙ parse_size-tera _ (print_tenths-NonEmpty n (2 ^ 40))
              (print_tenths-InSize n (2 ^ 40) b'T')
          ∙ scaled-none (2 ^ 40) _ (parse_int-tenths n (2 ^ 40))
      | inr (inl t) ↦
          ap parse_size t
          ∙ parse_size-giga _ (print_tenths-NonEmpty n (2 ^ 30))
              (print_tenths-InSize n (2 ^ 30) b'G')
          ∙ scaled-none (2 ^ 30) _ (parse_int-tenths n (2 ^ 30))
      | inr (inr (inl t)) ↦
          ap parse_size t
          ∙ parse_size-mega _ (print_tenths-NonEmpty n (2 ^ 20))
              (print_tenths-InSize n (2 ^ 20) b'M')
          ∙ scaled-none (2 ^ 20) _ (parse_int-tenths n (2 ^ 20))
      | inr (inr (inr t)) ↦
          ap parse_size t
          ∙ parse_size-kilo _ (print_tenths-NonEmpty n (2 ^ 10))
              (print_tenths-InSize n (2 ^ 10) b'K')
          ∙ scaled-none (2 ^ 10) _ (parse_int-tenths n (2 ^ 10))
    ],
  )
]
  where
    size_cases :
        (n : ℕ)
        → ((n < 1024) × (format_size (pos n) ≡ print_nat n ++ codes "B"))
          ⊎ ((1024 ≤ n)
              × ((format_size (pos n) ≡ print_tenths n (2 ^ 40) ++ codes "TB")
                  ⊎ (format_size (pos n) ≡ print_tenths n (2 ^ 30) ++ codes "GB")
                  ⊎ (format_size (pos n) ≡ print_tenths n (2 ^ 20) ++ codes "MB")
                  ⊎ (format_size (pos n) ≡ print_tenths n (2 ^ 10) ++ codes "KB")))
    size_cases n = unfold format_size in ground arith
