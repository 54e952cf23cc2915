-- ===== src/Fault/Injector.antt =====
-- internal/fault/injector.go, the data and the operations. The clock and the random numbers are
-- arguments: `u` is what `rand.Float64` returns, `i` what `rand.IntN` returns. Configurations are
-- pointers that nobody writes through once they are set, so they are values here.
use hotpod.Prelude.{
  ℕ, Bool, true, false, not, Option, none, some, List, [], ◌∷◌, ◌==◌, ltb, if◌then◌else◌, get_elem?,
}
use hotpod.Prelude.Int.{ℤ, pos}
use hotpod.Prelude.Text.{Text}
use hotpod.Prelude.Dict.{lookup, insert, delete, keep_values}
use hotpod.Prelude.Float.{Float}

pub record ErrorConfig (F : Type 0) : Type 0 where
  pub rate : F
  pub codes : List ℤ
  pub expires_at : ℕ

pub record Injector (F : Type 0) : Type 0 where
  pub configs : List (Text × ErrorConfig F)
  pub global_config : Option (ErrorConfig F)

-- The code of the first entry, for a list of one.
unfoldable pub select_code : {F : Type 0} → ℕ → ErrorConfig F → Option ℤ
select_code i c = elim c.codes [
  | [] ↦ some (pos 500)
  | code ∷ rest ↦ elim rest [ [] ↦ some code | _ ∷ _ ↦ get_elem? c.codes i ]
]

unfoldable pub is_expired : {F : Type 0} → ℕ → ErrorConfig F → Bool
is_expired now c = if c.expires_at == 0 then false else ltb c.expires_at now

unfoldable pub new_injector : {F : Type 0} → Injector F
new_injector = record { configs = []; global_config = none }

unfoldable pub set_global_config : {F : Type 0} → Option (ErrorConfig F) → Injector F → Injector F
set_global_config cfg inj = record inj { global_config = cfg }

-- `i.globalConfig != nil && !i.globalConfig.IsExpired()`
unfoldable pub live : {F : Type 0} → ℕ → Option (ErrorConfig F) → Option (ErrorConfig F)
unfolding is_expired
live now none = none
live now (some c) = if is_expired now c then none else some c

unfoldable pub or_else : {A : Type 0} → Option A → Option A → Option A
or_else none y = y
or_else (some x) y = some x

unfoldable pub get_config : {F : Type 0} → ℕ → Text → Injector F → Option (ErrorConfig F)
unfolding live or_else
get_config now endpoint inj =
    or_else (live now (lookup endpoint inj.configs)) (live now inj.global_config)

unfoldable pub reset : {F : Type 0} → Injector F → Injector F
reset inj = record { configs = []; global_config = none }

unfoldable pub get_global_config : {F : Type 0} → ℕ → Injector F → Option (ErrorConfig F)
unfolding live
get_global_config now inj = live now inj.global_config

unfoldable pub get_endpoint_configs : {F : Type 0} → ℕ → Injector F → List (Text × ErrorConfig F)
unfolding is_expired keep_values
get_endpoint_configs now inj = keep_values (λ c. not (is_expired now c)) inj.configs

module _ {F : Type 0} ⦃fl : Float F⦄ where
  open fl use {ltb_F, leb_F, zero_F, one_F}

  unfoldable pub should_inject : F → ErrorConfig F → Bool
  should_inject u c =
      if leb_F c.rate zero_F then false else if leb_F one_F c.rate then true else ltb_F u c.rate

  unfoldable pub set_endpoint_config : Text → Option (ErrorConfig F) → Injector F → Injector F
  set_endpoint_config endpoint none inj = record inj { configs = delete endpoint inj.configs }
  set_endpoint_config endpoint (some c) inj =
      if leb_F c.rate zero_F
      then record inj { configs = delete endpoint inj.configs }
      else record inj { configs = insert endpoint c inj.configs }

  -- What is injected by a configuration: 0 for nothing. `none` is an index out of range.
  unfoldable pub inject_by : F → ℕ → Option (ErrorConfig F) → Option ℤ
  unfolding should_inject select_code
  inject_by u i none = some (pos 0)
  inject_by u i (some c) = if should_inject u c then select_code i c else some (pos 0)

  unfoldable pub should_inject_error : ℕ → F → ℕ → Text → Injector F → Option ℤ
  unfolding get_config inject_by
  should_inject_error now u i endpoint inj = inject_by u i (get_config now endpoint inj)

  unfoldable pub rate_of : Option (ErrorConfig F) → F
  rate_of none = zero_F
  rate_of (some c) = c.rate

  unfoldable pub get_endpoint_rate : ℕ → Text → Injector F → F
  unfolding get_config rate_of
  get_endpoint_rate now endpoint inj = rate_of (get_config now endpoint inj)
