-- ===== src/Endpoints/Checked.antt =====
-- How the parameters of a request to internal/handlers are read and refused, step by step.
use hotpod.Prelude.{
  ◌≡◌, refl, ◌⊎◌, inl, inr, Bool, true, false, Option, none, some, List, [], ◌∷◌, if◌then◌else◌,
  arith, Bool-cases,
}
use hotpod.Prelude.Int.{ℤ, pos, negsuc, ◌≤ℤ◌, ◌<ℤ◌}
use hotpod.Prelude.Text.{Text, text_eq_iff}
use hotpod.Handlers.Response.{
  Response, answer, failed, Query, ◌>>=◌, ◌>>◌, reject, or_invalid, from_result, invalid_parameter,
  size_param, parse_duration,
}
use hotpod.Endpoints.Defs.{cap, is_in, choice_param, int_param}
use hotpod.Config.DirName.{is_empty}
use hotpod.Config.Result.{Result, ok, err}
use hotpod.Config.Size.{parse_size}
use hotpod.Config.Parse.{parse_int}

abbrev pub OneOf : Text → List Text → Type 0
OneOf s [] = ⊥
OneOf s (t ∷ ts) = (s ≡ t) ⊎ OneOf s ts

pub is_in-OneOf : (s : Text) (ts : List Text) → is_in s ts ≡ true → OneOf s ts
unfolding is_in
is_in-OneOf s [] e = cc
is_in-OneOf s (t ∷ ts) e = ground (arith, text_eq_iff s t, is_in-OneOf s ts)

OneOf-is_in : (s : Text) (ts : List Text) → OneOf s ts → is_in s ts ≡ true
unfolding is_in
OneOf-is_in s [] o = elim o [ ]
OneOf-is_in s (t ∷ ts) (inl e) = ground (arith, text_eq_iff s t)
OneOf-is_in s (t ∷ ts) (inr o) = ground (arith, OneOf-is_in s ts o)

-- A limit that is above 0 holds, and the flag says whether it was needed.
abbrev pub Capped : ℤ → ℤ → ℤ → Bool → Type 0
Capped maximum given x flag =
    ((flag ≡ true) × (pos 0 <ℤ maximum) × (maximum <ℤ given) × (x ≡ maximum))
    ⊎ ((flag ≡ false) × ((maximum ≤ℤ pos 0) ⊎ (given ≤ℤ maximum)) × (x ≡ given))

pub cap-Capped : (maximum x : ℤ) → Capped maximum x (cap maximum x).0 (cap maximum x).1
unfolding cap
cap-Capped (pos m) (pos n) = ground arith
cap-Capped (pos m) (negsuc n) = ground arith
cap-Capped (negsuc m) (pos n) = ground arith
cap-Capped (negsuc m) (negsuc n) = ground arith

-- A request that is refused is refused as invalid, and then no value is as it should be; and one that is
-- accepted is as it should be.
abbrev pub Accepted : {A B : Type 0} → (A → Type 0) → (B → Type 0) → Response A → Type 0
Accepted {B = B} P Q (failed status code) =
    (status ≡ 400) × (code ≡ invalid_parameter) × ((b : B) → Q b → ⊥)
Accepted P Q (answer a) = P a

pub record Checked {A B : Type 0} (P : A → Type 0) (Q : B → Type 0) (m : Response A) : Type 0 where
  pub passed : Accepted P Q m

-- One step after the other: where the first refuses, so does the whole.
pub Checked->>= :
    {A B : Type 0} {m : Response A} {next : A → Response B} {P P' : A → Type 0} {Q Q' : B → Type 0}
    → Checked P P' m
    → (((a : A) → P' a → ⊥) → (b : B) → Q' b → ⊥)
    → ((a : A) → P a → Checked Q Q' (next a))
    → Checked Q Q' (m >>= next)
Checked->>= {m = answer a} p n q = q a p.passed
Checked->>= {m = failed status code} p n q = record {
  passed = (p.passed.0, p.passed.1, n p.passed.2);
}

pub Checked-reject :
    {B : Type 0} {bad : Bool} {next : Response B} {Q Q' : B → Type 0}
    → ((bad ≡ true) → (b : B) → Q' b → ⊥)
    → ((bad ≡ false) → Checked Q Q' next)
    → Checked Q Q' (reject bad 400 invalid_parameter >> next)
Checked-reject {bad = true} n q = record { passed = (refl, refl, n refl) }
Checked-reject {bad = false} n q = q refl

pub Checked-answer :
    {A B : Type 0} {a : A} {P : A → Type 0} {Q : B → Type 0} → P a → Checked P Q (answer a)
Checked-answer p = record { passed = p }

-- What was read, if it could be.
abbrev pub IsRead : {A : Type 0} → Response A → A → Type 0
IsRead m a = m ≡ answer a

pub or_invalid-Accepted :
    {A : Type 0} (o : Option A)
    → Accepted (IsRead (or_invalid o)) (IsRead (or_invalid o)) (or_invalid o)
or_invalid-Accepted none = (refl, refl, λ b e. cc)
or_invalid-Accepted (some a) = refl

from_result-Accepted :
    (r : Result ℤ) → Accepted (IsRead (from_result r)) (IsRead (from_result r)) (from_result r)
from_result-Accepted (err e) = (refl, refl, λ b e. cc)
from_result-Accepted (ok n) = refl

-- A step that reads a parameter.
abbrev pub Read : {A : Type 0} → Response A → Type 0
Read m = Checked (IsRead m) (IsRead m) m

module _ (query : Query) (key : Text) where
  pub parse_duration-Read :
      (duration : Text → Option ℤ) (default : ℤ) → Read (parse_duration duration query key default)
  unfolding parse_duration
  parse_duration-Read duration default = record {
    passed = elim (Bool-cases (is_empty (query key))) [
      | inl e ↦ rw e refl
      | inr e ↦ rw e (or_invalid-Accepted (duration (query key)))
    ];
  }

  pub int_param-Read : (default : ℤ) → Read (int_param query key default)
  unfolding int_param
  int_param-Read default = record {
    passed = elim (Bool-cases (is_empty (query key))) [
      | inl e ↦ rw e refl
      | inr e ↦ rw e (or_invalid-Accepted (parse_int (query key)))
    ];
  }

  pub size_param-Read : (default : ℤ) → Read (size_param query key default)
  unfolding size_param
  size_param-Read default = record {
    passed = elim (Bool-cases (is_empty (query key))) [
      | inl e ↦ rw e refl
      | inr e ↦ rw e (from_result-Accepted (parse_size (query key)))
    ];
  }

  -- The word that is given, or the default.
  abbrev pub word : Text → Text
  word default = if is_empty (query key) then default else query key

  pub choice_param-Checked :
      (default : Text) (choices : List Text)
      → let IsChoice : Text → Type 0 = λ s. (s ≡ word default) × OneOf s choices in
        Checked IsChoice IsChoice (choice_param query key default choices)
  unfolding choice_param
  choice_param-Checked default choices = record {
    passed = elim (Bool-cases (is_in (word default) choices)) [
      | inl e ↦ rw e (refl, is_in-OneOf (word default) choices e)
      | inr e ↦ rw e (refl, refl, λ s o. ground (arith, OneOf-is_in (word default) choices, o.1))
    ];
  }
