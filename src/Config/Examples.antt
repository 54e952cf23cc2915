-- ===== src/Config/Examples.antt =====
-- The settings of internal/config/config.go: witnesses and tests.
use hotpod.Prelude.{ℕ, ◌*◌, ◌≤◌, ◌≡◌, refl, ◌↔◌, Option, none, some, if◌then◌else◌}
use hotpod.Prelude.Int.{ℤ, pos, negsuc, wrap_int64, max_int64}
use hotpod.Prelude.Text.{codes, text_eq}
use hotpod.Prelude.Float.{thousandths}
use hotpod.Config.Result.{Result, ok, err, bad_sidecar_cpu_jitter}
use hotpod.Config.Result
use hotpod.Config.Parse.{trim_space, to_upper, strip_suffix, parse_int}
use hotpod.Config.Size.{Spells, size_suffixes, parse_size, parse_size-Means}
use hotpod.Config.Cpu.{Parsers, parse_cpu}
use hotpod.Config.DirName.{validate_io_dir_name, io_path}
use hotpod.Config.Validate.{Config, IsValid, validate, validate_iff, valid_level}
use hotpod.Config.Defs.{Env, default_config}

-- Numbers of seconds alone, read as thousandths of a core or of a second.
abbrev thousand_of : Option ℤ → Option (Option ℕ)
thousand_of (some (pos n)) = some (some (1000 * n))
thousand_of _ = none

abbrev duration_of : Option ℕ → ℤ
duration_of none = pos 0
duration_of (some n) = pos (1000000 * n)

abbrev parsers : Parsers (Option ℕ)
parsers = record {
  parse_float = λ s. thousand_of (parse_int s);
  of_seconds = duration_of;
  parse_duration = parse_int;
}

parse_size-Means_example :
    (n mult : ℕ) × Spells size_suffixes (to_upper (trim_space (codes " 12 Ki"))) n mult
    × (pos 12288 ≡ pos (n * mult))
    × (n * mult ≤ max_int64)
unfolding parse_size trim_space to_upper strip_suffix parse_int text_eq
parse_size-Means_example = parse_size-Means (codes " 12 Ki") (pos 12288) refl

size_overflow : parse_size (codes "8388608TB") ≡ err Result.overflow_value
unfolding parse_size trim_space to_upper strip_suffix parse_int text_eq
size_overflow = refl

size_negative : parse_size (codes "-1KB") ≡ err Result.negative_value
unfolding parse_size trim_space to_upper strip_suffix parse_int text_eq
size_negative = refl

size_of_spaces : parse_size (codes "   ") ≡ err Result.invalid_number
unfolding parse_size trim_space to_upper strip_suffix parse_int text_eq
size_of_spaces = refl

cpu_wraps_to_little : parse_cpu parsers (codes "18446744073710m") ≡ ok (pos 448384)
unfolding parse_cpu trim_space strip_suffix parse_int text_eq wrap_int64
cpu_wraps_to_little = refl

no_escape : validate_io_dir_name (codes "../etc") ≡ err Result.dir_character
unfolding validate_io_dir_name
no_escape = refl

path_of_default : io_path default_config.io_dir_name ≡ codes "/tmp/hotpod"
unfolding io_path default_config
path_of_default = refl

abbrev jittery : Config
jittery = record default_config { sidecar_cpu_jitter = negsuc 4 }

validate_iff_example : (validate jittery ≡ ok tt) ↔ IsValid jittery
validate_iff_example = validate_iff jittery

jitter_refused : validate jittery ≡ err bad_sidecar_cpu_jitter
unfolding validate validate_io_dir_name text_eq default_config valid_level
jitter_refused = refl

abbrev two_set : Env
two_set key =
    if text_eq key (codes "HOTPOD_PORT")
    then some (codes "9000")
    else if text_eq key (codes "HOTPOD_MAX_IO_SIZE")
    then some (codes "1KB")
    else none
