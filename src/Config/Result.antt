-- ===== src/Config/Result.antt =====
-- What a function of internal/config/config.go returns: a value, or an error by its cause.
use hotpod.Prelude.{◌≡◌, refl, Bool, true, false, Option, none, some}
use hotpod.Prelude.Text.{Text}

pub data Error : Type 0 where
  empty_string invalid_number negative_value overflow_value : Error
  -- `fmt.Errorf("invalid %s: %w", key, err)`
  invalid_env : Text → Error
  -- The refusals of `Validate`, by the setting.
  bad_port bad_startup_delay bad_startup_jitter bad_shutdown_delay bad_shutdown_timeout : Error
  bad_request_timeout bad_log_level bad_max_cpu_duration bad_max_memory_size bad_max_io_size : Error
  bad_mode bad_sidecar_cpu_baseline bad_sidecar_cpu_jitter bad_sidecar_memory_baseline : Error
  bad_sidecar_request_overhead : Error
  -- The refusals of `validateIODirName`.
  dir_empty dir_percent dir_character dir_hyphen dir_too_long : Error

pub data Result {ℓ} (A : Type ℓ) : Type ℓ where
  err : Error → Result A
  ok : A → Result A

abbrev pub or_fail : {A : Type 0} → Option A → Error → Result A
or_fail none e = err e
or_fail (some a) e = ok a

-- `if bad { return e }`
abbrev pub refuse : Bool → Error → Result (Unit {0})
refuse true e = err e
refuse false e = ok tt

infixl 5 ◌>>=◌ ◌>>◌
abbrev pub ◌>>=◌ {ℓ κ} : {A : Type ℓ} {B : Type κ} → Result A → (A → Result B) → Result B
err cause >>= next = err cause
ok value >>= next = next value

abbrev pub ◌>>◌ {ℓ} : {B : Type ℓ} → Result (Unit {0}) → Result B → Result B
first >> second = first >>= λ _. second

-- A chain of such tests passes exactly if each does.
pub refuse-ok :
    (bad : Bool) (e : Error) (k : Result (Unit {0}))
    → (refuse bad e >> k) ≡ ok tt
    → (bad ≡ false) × (k ≡ ok tt)
refuse-ok true e k h = cc
refuse-ok false e k h = (refl, h)

pub >>=-eq-ok {ℓ κ} :
    {A : Type ℓ} {B : Type κ} (first : Result A) (next : A → Result B) {result : B}
    → (first >>= next) ≡ ok result
    → (value : A) × (first ≡ ok value) × (next value ≡ ok result)
>>=-eq-ok (err cause) next passed = cc
>>=-eq-ok (ok value) next passed = (value, refl, passed)

pub checked-ok {ℓ} :
    {A : Type ℓ} (m : Result (Unit {0})) (a b : A) → (m >> ok a) ≡ ok b → (m ≡ ok tt) × (a ≡ b)
checked-ok (ok tt) a b h = (refl, cc)
checked-ok (err e) a b h = cc
