-- ===== src/Program/Served.antt =====
-- Which requests the program serves, and under which names it counts them: `Register` of internal/handlers,
-- `main` of cmd/hotpod/main.go, and `normalizeEndpoint` of internal/server/middleware.go.
use mathlib.Core.List.{Memᴰ}
use hotpod.Prelude.{◌≡◌, Bool, true, false, Option, some, List, [], ◌∷◌, ◌++◌, map, ◌&&◌, ◌||◌}
use hotpod.Prelude.Text.{Text, codes, text_eq}
use hotpod.Prelude.Names.{free}
use hotpod.Server.Routes.{exact_cases, normalize_endpoint}
use hotpod.Program.Routes.{Handler, Route}

-- The pattern of a route, as in "GET /cpu".
abbrev pub pattern : Route → Text
pattern r = r.method ++ 32 ∷ r.path

-- What net/http says of a mux whose patterns are a method and a whole path: it takes each pattern that it does
-- not have, and a request with the method and the path of one that it has goes to that one's handler.
pub record IsMux {M : Type 0} (handle : M → Route → Option M) (routes : M → List Route)
    (serve : M → Text → Text → Option Handler) : Type 0 where
  pub takes :
      (m : M) (r : Route)
      → free (pattern r ∷ []) (map pattern (routes m)) ≡ true
      → (m' : M) × (handle m r ≡ some m') × (routes m' ≡ r ∷ routes m)
  pub serves : (m : M) (r : Route) → Memᴰ r (routes m) → serve m r.method r.path ≡ some r.handler

-- The names under which the requests of a mode are counted.
abbrev pub served_names : Bool → List Text
served_names false = codes "/fault/*" ∷ codes "/admin/*" ∷ exact_cases
served_names true =
    codes "/healthz"
    ∷ codes "/readyz"
    ∷ codes "/startupz"
    ∷ codes "/metrics"
    ∷ codes "/info"
    ∷ codes "/admin/*"
    ∷ []

abbrev is_name_of : Text → Route → Bool
is_name_of name r = text_eq (normalize_endpoint r.path) name

abbrev some_route : Text → List Route → Bool
some_route name [] = false
some_route name (r ∷ rs) = is_name_of name r || some_route name rs

abbrev some_routes : List Text → List Route → Bool
some_routes [] rs = true
some_routes (n ∷ ns) rs = some_route n rs && some_routes ns rs

abbrev pub HasRoute : List Route → Text → Type 0
HasRoute rs name = (r : Route) × Memᴰ r rs × (normalize_endpoint r.path ≡ name)

abbrev is_among : Text → List Text → Bool
is_among t [] = false
is_among t (n ∷ ns) = text_eq t n || is_among t ns

abbrev all_among : List Route → List Text → Bool
all_among [] ns = true
all_among (r ∷ rs) ns = is_among (normalize_endpoint r.path) ns && all_among rs ns
