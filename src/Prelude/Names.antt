-- ===== src/Prelude/Names.antt =====
-- Names that must not be taken twice, and the order in which they are taken.
use hotpod.Prelude.{◌≡◌, refl, Bool, true, false, not, ◌&&◌, ◌||◌, List, [], ◌∷◌, arith}
use hotpod.Prelude.Text.{Text, text_eq}

abbrev pub has : Text → List Text → Bool
has t [] = false
has t (u ∷ us) = text_eq t u || has t us

-- None of the first is among the second.
abbrev pub free : List Text → List Text → Bool
free [] held = true
free (t ∷ ts) held = not (has t held) && free ts held

abbrev pub differs : Text → List Text → Bool
differs u [] = true
differs u (t ∷ ts) = not (text_eq t u) && differs u ts

abbrev pub distinct : List Text → Bool
distinct [] = true
distinct (t ∷ ts) = differs t ts && distinct ts

-- Put before what is held, one after the other.
abbrev pub onto : {A : Type 0} → List A → List A → List A
onto [] held = held
onto (t ∷ ts) held = onto ts (t ∷ held)

pub both-true : {a b : Bool} → (a && b) ≡ true → (a ≡ true) × (b ≡ true)
both-true {a = true} e = (refl, e)
both-true {a = false} e = ground arith

pub both : {a b : Bool} → a ≡ true → b ≡ true → (a && b) ≡ true
both a b = ground arith

no_more : (a b : Bool) → not a ≡ true → not b ≡ true → not (a || b) ≡ true
no_more true b d f = d
no_more false b d f = f

pub free_more :
    (u : Text) (ts held : List Text)
    → differs u ts ≡ true
    → free ts held ≡ true
    → free ts (u ∷ held) ≡ true
free_more u [] held d f = refl
free_more u (t ∷ ts) held d f =
    let (d1, d2) = both-true d in
    let (f1, f2) = both-true f in
    both (no_more (text_eq t u) (has t held) d1 f1) (free_more u ts held d2 f2)
