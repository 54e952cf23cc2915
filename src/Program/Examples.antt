-- ===== src/Program/Examples.antt =====
-- The routes of cmd/hotpod/main.go and how it ends: witnesses and tests.
use hotpod.Prelude.{
  ◌++◌, not, inl, inr, ◌⊎◌, Bool-cases, Option, none, some, List, map, if◌then◌else◌, ◌≡◌, refl,
  true, false, Bool, [], ◌∷◌, arith,
}
use hotpod.Prelude.Int.{ℤ}
use hotpod.Config.Result.{ok}
use hotpod.Config.DirName.{validate_io_dir_name}
use hotpod.Config.Validate.{IsValid, validate, validate_iff, valid_level}
use hotpod.Config.Defs.{default_config}
use hotpod.Server.Run.{fails_listening, signalled, run_server, is_error}
use hotpod.Program.Main.{
  main, init_logger, serves, sets_level, sets_sidecar_mode, registers, stops_workers, exits,
  level_info,
}
use hotpod.Program.Ending.{Ends, main-Ends}
use hotpod.Prelude.Text.{Text, text_eq, text_eq_iff}
use hotpod.Program.Routes.{Handler, Route, registered}
use hotpod.Program.Served.{pattern}
use hotpod.Prelude.Names.{has, differs, free, distinct, both-true, both}

unheld_differs : (u : Text) (ts : List Text) → not (has u ts) ≡ true → differs u ts ≡ true
unheld_differs u [] e = refl
unheld_differs u (t ∷ ts) e = elim (Bool-cases (text_eq u t)) [
  | inl h ↦ absurd (ground (arith, e, h))
  | inr h ↦
      both (ground (arith, h, text_eq_iff u t, text_eq_iff t u))
        (unheld_differs u ts (ground (arith, e, h)))
]

-- A mux that is the list of its routes, whose patterns differ.
abbrev RouteList : Type 0
RouteList = (rs : List Route) × (distinct (map pattern rs) ≡ true)

abbrev is_new : List Route → Route → Bool
is_new rs r = free (pattern r ∷ []) (map pattern rs)

abbrev add_new :
    (m : RouteList) (r : Route) → (is_new m.0 r ≡ true) ⊎ (is_new m.0 r ≡ false) → Option RouteList
add_new (rs, d) r (inl f) =
    some (r ∷ rs, both (unheld_differs (pattern r) (map pattern rs) (both-true f).0) d)
add_new m r (inr f) = none

abbrev add_route : RouteList → Route → Option RouteList
add_route m r = add_new m r (Bool-cases (is_new m.0 r))

abbrev routes_of : RouteList → List Route
routes_of (rs, d) = rs

abbrev find_route : List Route → Text → Option Handler
find_route [] t = none
find_route (r ∷ rs) t = if text_eq (pattern r) t then some r.handler else find_route rs t

abbrev serve_route : RouteList → Text → Text → Option Handler
serve_route (rs, d) method path = find_route rs (method ++ 32 ∷ path)

abbrev empty : RouteList
empty = ([], refl)

defaults-IsValid : IsValid default_config
unfolding validate validate_io_dir_name text_eq default_config valid_level
defaults-IsValid = (validate_iff default_config).0 refl

abbrev always_closes : ℤ → Bool
always_closes limit = true

main-Ends_example :
    Ends always_closes signalled default_config (main always_closes signalled (ok default_config))
unfolding default_config
main-Ends_example = main-Ends always_closes signalled default_config defaults-IsValid (omega arith)

ends_in_app_mode :
    main always_closes signalled (ok default_config)
    ≡ sets_level level_info
      ∷ sets_sidecar_mode false
      ∷ registers (registered false)
      ∷ serves
      ∷ stops_workers
      ∷ []
unfolding main init_logger run_server is_error text_eq default_config
ends_in_app_mode = refl

port_taken :
    main always_closes fails_listening (ok default_config)
    ≡ sets_level level_info
      ∷ sets_sidecar_mode false
      ∷ registers (registered false)
      ∷ serves
      ∷ exits 1
      ∷ []
unfolding main init_logger run_server is_error text_eq default_config
port_taken = refl
