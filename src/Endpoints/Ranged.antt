-- ===== src/Endpoints/Ranged.antt =====
-- The parameters of internal/handlers that are numbers in a range: a count, the rate of
-- `/fault/error`, and the variance of `/work`.
use hotpod.Prelude.{
  ◌≡◌, refl, ◌⊎◌, inl, inr, true, false, Option, some, if◌then◌else◌, arith, Bool-cases,
  Option-cases,
}
use hotpod.Prelude.Int.{ℤ, ◌≤ℤ◌, ltb_ℤ}
use hotpod.Prelude.Text.{Text, codes}
use hotpod.Prelude.Float.{Float}
use hotpod.Config.Parse.{parse_int}
use hotpod.Config.DirName.{is_empty}
use hotpod.Handlers.Response.{Response, answer, failed, Query, count_param, given_count}
use hotpod.Endpoints.Faults.{rate_param, given_rate}
use hotpod.Endpoints.Work.{variance_param, given_variance}
use hotpod.Endpoints.Checked.{Accepted, Checked}

-- The number that is given, or the default, if it is in its range.
abbrev pub Ranged : Query → Text → ℤ → ℤ → ℤ → ℤ → Type 0
Ranged query key low high default n =
    (((is_empty (query key) ≡ true) × (n ≡ default))
      ⊎ ((is_empty (query key) ≡ false) × (parse_int (query key) ≡ some n)))
    × (low ≤ℤ n)
    × (n ≤ℤ high)

abbrev GivenRanged : Text → ℤ → ℤ → ℤ → Type 0
GivenRanged text low high n = (parse_int text ≡ some n) × (low ≤ℤ n) × (n ≤ℤ high)

given_count-Accepted :
    (text : Text) (low high : ℤ)
    → Accepted (GivenRanged text low high) (GivenRanged text low high) (given_count text low high)
unfolding given_count
given_count-Accepted text low high = elim (Option-cases (parse_int text)) [
  | inl e ↦ rw e (refl, refl, λ n a. cc)
  | inr (k, e) ↦ elim (Bool-cases (ltb_ℤ k low)) [
    | inl small ↦ rw (e, small) (refl, refl, λ n a. ground arith)
    | inr fits ↦ elim (Bool-cases (ltb_ℤ high k)) [
      | inl large ↦ rw (e, fits, large) (refl, refl, λ n a. ground arith)
      | inr fits2 ↦ rw (e, fits, fits2) (e, ground arith, ground arith)
    ]
  ]
]

Accepted-weaken :
    {A B : Type 0} {P P' : A → Type 0} {Q Q' : B → Type 0} (m : Response A)
    → ((a : A) → P a → P' a)
    → ((b : B) → Q' b → Q b)
    → Accepted P Q m
    → Accepted P' Q' m
Accepted-weaken (answer a) f g p = f a p
Accepted-weaken (failed status code) f g p = (p.0, p.1, λ b q. p.2 b (g b q))

pub count_param-Ranged :
    (query : Query) (key : Text) (low high default : ℤ)
    → low ≤ℤ default
    → default ≤ℤ high
    → Checked
        (Ranged query key low high default)
        (Ranged query key low high default)
        (count_param query key low high default)
unfolding count_param
count_param-Ranged query key low high default l u = record {
  passed = elim (Bool-cases (is_empty (query key))) [
    | inl e ↦ rw e (inl (e, refl), l, u)
    | inr e ↦ rw e (
        Accepted-weaken (given_count (query key) low high) (λ n a. (inr (e, a.0), a.1, a.2))
          (λ n a. (ground arith, a.1, a.2)) (given_count-Accepted (query key) low high))
  ];
}

module _ {F : Type 0} ⦃fl : Float F⦄ where
  open fl use {ltb_F, zero_F, one_F}

  -- The fraction that is given, neither below 0 nor above 1, or the default.
  abbrev pub IsFraction : (Text → Option F) → F → Text → F → Type 0
  IsFraction parse_float default text rate =
      ((is_empty text ≡ true) × (rate ≡ default))
      ⊎ ((is_empty text ≡ false)
          × (parse_float text ≡ some rate)
          × (ltb_F rate zero_F ≡ false)
          × (ltb_F one_F rate ≡ false))

  abbrev GivenRate : (Text → Option F) → Text → F → Type 0
  GivenRate parse_float text rate =
      (parse_float text ≡ some rate) × (ltb_F rate zero_F ≡ false) × (ltb_F one_F rate ≡ false)

  given_rate-Accepted :
      (parse_float : Text → Option F) (text : Text)
      → Accepted
          (GivenRate parse_float text)
          (GivenRate parse_float text)
          (given_rate parse_float text)
  unfolding given_rate
  given_rate-Accepted parse_float text = elim (Option-cases (parse_float text)) [
    | inl e ↦ rw e (refl, refl, λ r a. cc)
    | inr (r, e) ↦ elim (Bool-cases (ltb_F r zero_F)) [
      | inl low ↦ rw (e, low) (refl, refl, λ r' a. cc)
      | inr fits ↦ elim (Bool-cases (ltb_F one_F r)) [
        | inl high ↦ rw (e, fits, high) (refl, refl, λ r' a. cc)
        | inr fits2 ↦ rw (e, fits, fits2) (e, fits, fits2)
      ]
    ]
  ]

  given_or_default-Accepted :
      (parse_float : Text → Option F) (default : F) (text : Text)
      → Accepted
          (IsFraction parse_float default text)
          (IsFraction parse_float default text)
          (if is_empty text then answer default else given_rate parse_float text)
  given_or_default-Accepted parse_float default text = elim (Bool-cases (is_empty text)) [
    | inl e ↦ rw e (inl (e, refl))
    | inr e ↦ rw e (
        Accepted-weaken (given_rate parse_float text) (λ r a. inr (e, a.0, a.1, a.2))
          (λ r a. elim a [ inl (t, h) ↦ absurd (ground arith) | inr (n, b, l, u) ↦ (b, l, u) ])
          (given_rate-Accepted parse_float text))
  ]

  pub rate_param-Checked :
      (parse_float : Text → Option F) (half : F) (query : Query)
      → let IsRate = IsFraction parse_float half (query (codes "rate")) in
        Checked IsRate IsRate (rate_param parse_float half query)
  unfolding rate_param
  rate_param-Checked parse_float half query = record {
    passed = given_or_default-Accepted parse_float half (query (codes "rate"));
  }

  pub variance_param-Checked :
      (parse_float : Text → Option F) (query : Query)
      → let IsVariance = IsFraction parse_float zero_F (query (codes "variance")) in
        Checked IsVariance IsVariance (variance_param parse_float query)
  unfolding variance_param given_variance given_rate
  variance_param-Checked parse_float query = record {
    passed = given_or_default-Accepted parse_float zero_F (query (codes "variance"));
  }
