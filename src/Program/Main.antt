-- ===== src/Program/Main.antt =====
-- `main` and `initLogger` of cmd/hotpod/main.go, as what they do, one thing after the other. What
-- `config.Load` returned is an argument, and the goroutines run on beside what follows.
use hotpod.Prelude.{Bool, List, [], ◌∷◌, ◌++◌, if◌then◌else◌, ℕ}
use hotpod.Prelude.Int.{ℤ}
use hotpod.Prelude.Text.{Text, codes, text_eq}
use hotpod.Config.Result.{Result, ok, err}
use hotpod.Config.Validate.{Config}
use hotpod.Server.Run.{Awaited, run_server, is_error}
use hotpod.Program.Routes.{Route, registered}

pub data Level : Type 0 where
  level_debug level_info level_warn level_error : Level

unfoldable pub init_logger : Text → Level
unfolding text_eq
init_logger level =
    if text_eq level (codes "debug")
    then level_debug
    else if text_eq level (codes "info")
    then level_info
    else if text_eq level (codes "warn")
    then level_warn
    else if text_eq level (codes "error")
    then level_error
    else level_info

pub data Act : Type 0 where
  sets_level : Level → Act
  -- The gauge `SidecarMode`.
  sets_sidecar_mode : Bool → Act
  registers : List Route → Act
  -- The goroutines.
  starts_pprof starts_runner : Act
  -- `srv.Run`, which returns after a signal, or with an error.
  serves : Act
  stops_runner stops_workers : Act
  exits : ℕ → Act

-- `closes` and `awaited` are those of `run_server`.
unfoldable pub main : (ℤ → Bool) → Awaited → Result Config → List Act
unfolding init_logger registered run_server is_error
main closes awaited (err e) = exits 1 ∷ []
main closes awaited (ok cfg) =
    let sidecar = text_eq cfg.mode (codes "sidecar") in
    (sets_level (init_logger cfg.log_level)
      ∷ sets_sidecar_mode sidecar
      ∷ registers (registered sidecar)
      ∷ [])
    ++ (if cfg.enable_pprof then starts_pprof ∷ [] else [])
    ++ (if sidecar then starts_runner ∷ [] else [])
    ++ (serves
        ∷ (if is_error (run_server closes awaited cfg)
            then exits 1 ∷ []
            else if sidecar
            then stops_runner ∷ []
            else stops_workers ∷ []))
