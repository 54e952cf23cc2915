-- ===== src/Prelude/Float.antt =====
-- Go's float64 as far as the program uses it, which computes with floats by the language's own
-- arithmetic: a type with the comparisons and constants, and the value that is not a number.
use hotpod.Prelude.{ℕ, ◌+◌, ◌-◌, ◌*◌, ◌/◌, ◌≡◌, refl, Bool, false, Option, none, some, ltb, leb}
use hotpod.Prelude.Int.{ℤ, pos, negsuc, pos_part, max_int64}

pub record Float (F : Type 0) : Type 0 where
  pub ltb_F : F → F → Bool
  pub leb_F : F → F → Bool
  pub zero_F : F
  pub one_F : F
  pub nan : F
  -- IEEE 754: every comparison with it is false.
  pub ltb-nan_left : (x : F) → ltb_F nan x ≡ false
  pub ltb-nan_right : (x : F) → ltb_F x nan ≡ false
  pub leb-nan_left : (x : F) → leb_F nan x ≡ false
  pub leb-nan_right : (x : F) → leb_F x nan ≡ false

abbrev pub ltb_parts : Option ℕ → Option ℕ → Bool
ltb_parts none y = false
ltb_parts (some a) none = false
ltb_parts (some a) (some b) = ltb a b

abbrev pub leb_parts : Option ℕ → Option ℕ → Bool
leb_parts none y = false
leb_parts (some a) none = false
leb_parts (some a) (some b) = leb a b

pub ltb_parts-none : (x : Option ℕ) → ltb_parts x none ≡ false
ltb_parts-none none = refl
ltb_parts-none (some a) = refl

pub leb_parts-none : (x : Option ℕ) → leb_parts x none ≡ false
leb_parts-none none = refl
leb_parts-none (some a) = refl

-- An instance that runs: thousandths, and none for what is not a number.
instance abbrev pub thousandths : Float (Option ℕ)
thousandths = record {
  ltb_F = ltb_parts;
  leb_F = leb_parts;
  zero_F = some 0;
  one_F = some 1000;
  nan = none;
  ltb-nan_left = λ x. refl;
  ltb-nan_right = ltb_parts-none;
  leb-nan_left = λ x. refl;
  leb-nan_right = leb_parts-none;
}

-- The arithmetic, with conversions from and to int64. What `to_int` makes of a value that does not fit is
-- not specified, so it is left open.
pub record FloatArith (F : Type 0) (nan : F) : Type 0 where
  pub two_F : F
  pub add_F : F → F → F
  pub sub_F : F → F → F
  pub mul_F : F → F → F
  pub of_int : ℤ → F
  pub to_int : F → ℤ
  -- IEEE 754: what is computed with it is not a number either.
  pub add-nan_right : (x : F) → add_F x nan ≡ nan
  pub mul-nan_right : (x : F) → mul_F x nan ≡ nan

abbrev pub on_parts : (ℕ → ℕ → ℕ) → Option ℕ → Option ℕ → Option ℕ
on_parts op (some x) (some y) = some (op x y)
on_parts op none y = none
on_parts op (some x) none = none

pub on_parts-none : (op : ℕ → ℕ → ℕ) (x : Option ℕ) → on_parts op x none ≡ none
on_parts-none op none = refl
on_parts-none op (some x) = refl

abbrev pub to_whole : Option ℕ → ℤ
to_whole none = negsuc max_int64
to_whole (some x) = pos (x / 1000)

-- In thousandths, where a difference stops at 0.
instance abbrev pub thousandths_arith : FloatArith (Option ℕ) none
thousandths_arith = record {
  two_F = some 2000;
  add_F = on_parts (λ x y. x + y);
  sub_F = on_parts (λ x y. x - y);
  mul_F = on_parts (λ x y. x * y / 1000);
  of_int = λ z. some (1000 * pos_part z);
  to_int = to_whole;
  add-nan_right = on_parts-none (λ x y. x + y);
  mul-nan_right = on_parts-none (λ x y. x * y / 1000);
}
