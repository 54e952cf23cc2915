-- ===== src/Metrics/Registered.antt =====
-- That the collectors of internal/metrics/prometheus.go can be registered together.
use hotpod.Prelude.{
  ℕ, ◌≡◌, Bool, true, false, ◌&&◌, ◌||◌, Option, some, List, [], ◌∷◌, ◌++◌, map, leb, ◌==◌,
}
use hotpod.Prelude.Text.{Text}
use hotpod.Prelude.Names.{distinct}
use hotpod.Metrics.Defs.{Opts}

-- A lower-case letter or an underscore: that is a name to any version of prometheus.
abbrev is_name_char : ℕ → Bool
is_name_char c = (leb 97 c && leb c 122) || (c == 95)

abbrev all_chars : Text → Bool
all_chars [] = true
all_chars (c ∷ cs) = is_name_char c && all_chars cs

abbrev is_name : Text → Bool
is_name [] = false
is_name (c ∷ cs) = all_chars (c ∷ cs)

abbrev all_names : List Text → Bool
all_names [] = true
all_names (t ∷ ts) = is_name t && all_names ts

-- A collector's names: its own parts, and its labels, which differ.
abbrev pub is_named : Opts → Bool
is_named o =
    is_name o.namespace && is_name o.name && all_names o.label_names && distinct o.label_names

abbrev all_named : List Opts → Bool
all_named [] = true
all_named (o ∷ os) = is_named o && all_named os

abbrev pub full_names : (Text → Text → Text) → List Opts → List Text
full_names build = map (λ o. build o.namespace o.name)

abbrev pub Accepts :
    {R : Type 0} → (R → Opts → Option R) → (R → List Text) → R → Opts → Text → Type 0
Accepts {R} must_register held r o t =
    (next : R) × (must_register r o ≡ some next) × (held next ≡ t ∷ held r)

-- `BuildFQName` of two parts that are not empty.
abbrev pub joined : Text → Text → Text
joined namespace name = namespace ++ 95 ∷ name
