-- ===== src/Fault/Examples.antt =====
-- The injector and the simulations of internal/fault on small cases, with rates in thousandths:
-- witnesses and tests.
use hotpod.Prelude.{ℕ, ◌≡◌, refl, inr, Option, none, some, List, [], ◌∷◌, arith}
use hotpod.Prelude.Int.{pos}
use hotpod.Prelude.Text.{codes, text_eq}
use hotpod.Prelude.Dict.{lookup}
use hotpod.Prelude.Float.{thousandths}
use hotpod.Fault.Injector.{
  ErrorConfig, Injector, new_injector, live, or_else, get_config, get_global_config,
  get_endpoint_configs, should_inject_error,
}
use hotpod.Fault.Effective.{
  Op, sets, sets_global, run, last_for, last_global, Injects, get_config-run,
  should_inject_error-Injects,
}

abbrev half_for_cpu : ErrorConfig (Option ℕ)
half_for_cpu = record { rate = some 500; codes = pos 502 ∷ pos 503 ∷ []; expires_at = 40 }

abbrev all_fail : ErrorConfig (Option ℕ)
all_fail = record { rate = some 1000; codes = []; expires_at = 0 }

abbrev history : List (Op (Option ℕ))
history = sets (codes "/cpu") (some half_for_cpu) ∷ sets_global (some all_fail) ∷ []

get_config-run_example :
    let inj : Injector (Option ℕ) = run new_injector history in
    (get_config 30 (codes "/cpu") inj
      ≡ or_else
          (live 30 (last_for (codes "/cpu") none history))
          (live 30 (last_global none history)))
    × (lookup (codes "/cpu") (get_endpoint_configs 30 inj)
        ≡ live 30 (last_for (codes "/cpu") none history))
    × (get_global_config 30 inj ≡ live 30 (last_global none history))
get_config-run_example = get_config-run history 30 (codes "/cpu")

abbrev both : Injector (Option ℕ)
both = record { configs = (codes "/cpu", half_for_cpu) ∷ []; global_config = some all_fail }

should_inject_error-Injects_example :
    Injects
      (some 200)
      (some half_for_cpu)
      (should_inject_error 30 (some 200) 1 (codes "/cpu") (run new_injector history))
unfolding live or_else text_eq
should_inject_error-Injects_example =
    should_inject_error-Injects history 30 (some 200) 1 (codes "/cpu") (inr (omega arith))

second_code : should_inject_error 30 (some 200) 1 (codes "/cpu") both ≡ some (pos 503)
unfolding should_inject_error lookup text_eq
second_code = refl

global_after_expiry : should_inject_error 41 (some 900) 0 (codes "/cpu") both ≡ some (pos 500)
unfolding should_inject_error lookup text_eq
global_after_expiry = refl
