-- ===== src/Server/Examples.antt =====
-- Tests of internal/server/middleware.go, and the theorems about it at concrete requests.
use hotpod.Prelude.{
  ℕ, ◌≡◌, refl, ◌⊎◌, ◌≢◌, true, false, Option, some, List, [], ◌∷◌, ◌++◌, length, ◌+◌, arith,
}
use hotpod.Prelude.Int.{ℤ, pos}
use hotpod.Prelude.Text.{Text, codes, text_eq}
use hotpod.Prelude.Dict.{lookup}
use hotpod.Prelude.Float.{thousandths}
use hotpod.Lifecycle.Defs.{Lifecycle, new_lifecycle, should_reject_request}
use hotpod.Fault.Injector.{ErrorConfig, new_injector, set_global_config}
use hotpod.Server.Routes.{normalize_endpoint}
use hotpod.Server.Middleware.{
  Call, header, write_header, write, Request, World, Handler, server_handler,
}
use hotpod.Server.Writer.{first_code}
use hotpod.Server.Serve.{drawn, entered, Answers, Serves, server_handler_cases}
use hotpod.Server.Lockout.{Arrival, serve_all, Locked, serve_all-Locked, drains, serve_all-counts}

abbrev http_error : Text → ℤ → List Call
http_error t c =
    header (codes "Content-Type") (codes "text/plain; charset=utf-8")
    ∷ write_header c
    ∷ write t
    ∷ []

says : (t : Text) (c : ℤ) → first_code (http_error t c) ≡ some c
says t c = refl

abbrev fault_body : ℤ → Text
fault_body c = codes "{}"

-- Routes that panic on `/cpu`, answer `/work` with 404, and write a body otherwise.
abbrev routes : Handler (Option ℕ)
routes r w = record {
  calls = write_header (pos 404) ∷ write_header (pos 500) ∷ [];
  world = w;
  panicked = true;
}

abbrev cpu : Request
cpu = record { method = codes "GET"; path = codes "/cpu" }

abbrev reset_request : Request
reset_request = record { method = codes "POST"; path = codes "/admin/reset" }

abbrev failing : ErrorConfig (Option ℕ)
failing = record { rate = some 1000; codes = pos 503 ∷ []; expires_at = 0 }

abbrev fresh : Lifecycle
fresh = (new_lifecycle 0 (pos 0) (pos 0) (pos 0) (pos 0) (pos 30) true).0

abbrev idle : World (Option ℕ)
idle = record {
  lifecycle = fresh;
  injector = some new_injector;
  in_flight_requests = pos 0;
  requests_total = [];
  faults_injected = [];
  log = [];
}

abbrev locked : World (Option ℕ)
locked = record idle { injector = some (set_global_config (some failing) new_injector) }

test_admin : normalize_endpoint (codes "/admin/reset") ≡ codes "/admin/*"
unfolding normalize_endpoint text_eq
test_admin = refl

test_unknown : normalize_endpoint (codes "/cpu/") ≡ codes "unknown"
unfolding normalize_endpoint text_eq
test_unknown = refl

test_panic :
    (server_handler http_error fault_body 0 (some 5) 0 routes cpu idle).world.requests_total
    ≡ (codes "/cpu", pos 404) ∷ []
unfolding server_handler normalize_endpoint new_injector new_lifecycle lookup text_eq
test_panic = refl

idle_draw : drawn 0 (some 5) 0 cpu idle ≡ some (pos 0)
unfolding drawn normalize_endpoint new_injector lookup
idle_draw = refl

server_handler_cases_example :
    let reply = server_handler http_error fault_body 0 (some 5) 0 routes cpu idle in
    ((should_reject_request fresh ≡ true) × Answers reply (pos 503) idle)
    ⊎ ((should_reject_request fresh ≡ false)
        × (pos 0 ≢ pos 0)
        × Answers reply
            (pos 0)
            (record idle { faults_injected = [] ++ ((normalize_endpoint cpu.path, pos 0) ∷ []) }))
    ⊎ ((should_reject_request fresh ≡ false)
        × (pos 0 ≡ pos 0)
        × Serves reply (routes cpu (entered idle)) cpu idle)
server_handler_cases_example =
    server_handler_cases http_error says fault_body 0 (some 5) 0 routes cpu idle (pos 0) idle_draw

abbrev resets : List (Arrival (Option ℕ))
resets = record { request = reset_request; now = 9; u = some 7; i = 0 } ∷ []

is_locked : Locked (pos 503) locked
unfolding set_global_config new_injector
is_locked = (
  set_global_config (some failing) new_injector,
  refl,
  refl,
  failing,
  refl,
  refl,
  refl,
  refl,
  refl,
)

serve_all-Locked_example :
    ((serve_all http_error fault_body routes locked resets).injector ≡ locked.injector)
    × ((serve_all http_error fault_body routes locked resets).lifecycle ≡ locked.lifecycle)
    × ((serve_all http_error fault_body routes locked resets).requests_total
        ≡ locked.requests_total)
serve_all-Locked_example =
    serve_all-Locked http_error fault_body says (pos 503) routes locked resets is_locked
      (ground arith)

abbrev visits : List (Arrival (Option ℕ))
visits = record { request = cpu; now = 0; u = some 5; i = 0 } ∷ []

serve_all-counts_example :
    ((serve_all http_error fault_body routes idle visits).in_flight_requests ≡ pos 0)
    × (length (serve_all http_error fault_body routes idle visits).requests_total
          + length (serve_all http_error fault_body routes idle visits).faults_injected
          + drains http_error fault_body routes idle visits
        ≡ 0 + 0 + 1)
serve_all-counts_example =
    serve_all-counts http_error fault_body says routes idle visits (λ r w. (refl, refl, refl))
      ((pos 0, idle_draw), tt)
