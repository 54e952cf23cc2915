-- ===== src/Config/DirName.antt =====
-- `validateIODirName` and `IOPath` of internal/config/config.go: which directory names are safe. Names
-- are ASCII text, so a rune is a byte.
use hotpod.Prelude.{
  ℕ, ◌≤◌, ◌≡◌, refl, ◌≢◌, ◌↔◌, ◌⊎◌, Bool, true, false, not, ◌&&◌, ◌||◌, [], ◌∷◌, ◌++◌, ◌==◌, leb,
  ltb, arith, length, All,
}
use hotpod.Prelude.Text.{Text, codes}
use hotpod.Config.Result.{
  Result, ok, ◌>>◌, refuse, dir_empty, dir_percent, dir_character, dir_hyphen, dir_too_long,
}

-- `strings.Contains(name, "%")`
unfoldable pub has_percent : Text → Bool
has_percent [] = false
has_percent (c ∷ s) = c == b'%' || has_percent s

unfoldable pub allowed : ℕ → Bool
allowed c = (leb b'a' c && leb c b'z') || (leb b'0' c && leb c b'9') || c == b'-'

-- The loop over the runes.
unfoldable pub all_allowed : Text → Bool
unfolding allowed
all_allowed [] = true
all_allowed (c ∷ s) = allowed c && all_allowed s

-- `strings.HasPrefix(name, "-")`, `strings.HasSuffix(name, "-")`
unfoldable pub starts_hyphen : Text → Bool
starts_hyphen [] = false
starts_hyphen (c ∷ s) = c == b'-'

unfoldable pub ends_hyphen : Text → Bool
ends_hyphen [] = false
ends_hyphen (c ∷ []) = c == b'-'
ends_hyphen (c ∷ d ∷ s) = ends_hyphen (d ∷ s)

unfoldable pub is_empty : Text → Bool
is_empty [] = true
is_empty (c ∷ s) = false

unfoldable pub validate_io_dir_name : Text → Result (Unit {0})
unfolding is_empty has_percent all_allowed starts_hyphen ends_hyphen
validate_io_dir_name name = do
  refuse (is_empty name) dir_empty
  refuse (has_percent name) dir_percent
  refuse (not (all_allowed name)) dir_character
  refuse (starts_hyphen name || ends_hyphen name) dir_hyphen
  refuse (ltb 64 (length name)) dir_too_long
  ok tt

-- `filepath.Join("/tmp", name)`, which puts a slash between the two and cleans the path; a name
-- that is accepted above has nothing to clean.
unfoldable pub io_path : Text → Text
io_path name = codes "/tmp" ++ (b'/' ∷ name)

-- A letter from a to z, a digit, or a hyphen.
abbrev pub NameChar : ℕ → Type 0
NameChar c = ((b'a' ≤ c) × (c ≤ b'z')) ⊎ ((b'0' ≤ c) × (c ≤ b'9')) ⊎ (c ≡ b'-')

abbrev pub StartsPlain : Text → Type 0
StartsPlain [] = ⊥
StartsPlain (c ∷ s) = c ≢ b'-'

abbrev pub EndsPlain : Text → Type 0
EndsPlain [] = ⊥
EndsPlain (c ∷ []) = c ≢ b'-'
EndsPlain (c ∷ d ∷ s) = EndsPlain (d ∷ s)

pub record IsSafeName (name : Text) : Type 0 where
  pub characters : All NameChar name
  pub starts_plain : StartsPlain name
  pub ends_plain : EndsPlain name
  pub short : length name ≤ 64

all_allowed_iff :
    (s : Text) → ((all_allowed s ≡ true) → All NameChar s) × (All NameChar s → all_allowed s ≡ true)
unfolding all_allowed
all_allowed_iff [] = (λ e. tt, λ a. refl)
all_allowed_iff (c ∷ s) =
    let (there, back) = all_allowed_iff s in
    (λ e. (ground arith, there (ground arith)), λ a. ground (arith, back a.1))

no_percent : (s : Text) → All NameChar s → has_percent s ≡ false
unfolding has_percent
no_percent [] a = refl
no_percent (c ∷ s) a = ground (arith, no_percent s a.1)

starts_iff :
    (s : Text)
    → ((is_empty s ≡ false) → (starts_hyphen s ≡ false) → StartsPlain s)
      × (StartsPlain s → (is_empty s ≡ false) × (starts_hyphen s ≡ false))
unfolding is_empty starts_hyphen
starts_iff [] = (λ e h. cc, λ p. elim p [ ])
starts_iff (c ∷ s) = (λ e h. ground arith, λ p. ground arith)

ends_iff :
    (s : Text)
    → ((is_empty s ≡ false) → (ends_hyphen s ≡ false) → EndsPlain s)
      × (EndsPlain s → ends_hyphen s ≡ false)
unfolding is_empty ends_hyphen
ends_iff [] = (λ e h. cc, λ p. elim p [ ])
ends_iff (c ∷ []) = (λ e h. ground arith, λ p. ground arith)
ends_iff (c ∷ d ∷ s) = (λ e h. (ends_iff (d ∷ s)).0 refl h, λ p. (ends_iff (d ∷ s)).1 p)

-- A name is accepted exactly if it is safe: 1 to 64 characters, each a lower-case letter, a digit or a
-- hyphen, with no hyphen at either end.
pub validate_io_dir_name_iff : (name : Text) → (validate_io_dir_name name ≡ ok tt) ↔ IsSafeName name
unfolding validate_io_dir_name
validate_io_dir_name_iff name = (accepted, safe)
  where
    tests :
        validate_io_dir_name name ≡ ok tt
        → (is_empty name ≡ false)
          × (all_allowed name ≡ true)
          × (starts_hyphen name ≡ false)
          × (ends_hyphen name ≡ false)
          × (length name ≤ 64)
    tests e = ground arith

    accepted : validate_io_dir_name name ≡ ok tt → IsSafeName name
    accepted e =
        let (some_text, chars, start, end, fits) = tests e in
        record {
          characters = (all_allowed_iff name).0 chars;
          starts_plain = (starts_iff name).0 some_text start;
          ends_plain = (ends_iff name).0 some_text end;
          short = fits;
        }

    safe : IsSafeName name → validate_io_dir_name name ≡ ok tt
    safe v =
        let (some_text, start) = (starts_iff name).1 v.starts_plain in
        ground (
          arith,
          some_text,
          start,
          (ends_iff name).1 v.ends_plain,
          (all_allowed_iff name).1 v.characters,
          no_percent name v.characters,
        )
