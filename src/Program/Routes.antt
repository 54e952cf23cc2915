-- ===== src/Program/Routes.antt =====
-- The routes of the program: the `Register` methods of internal/handlers, in the order in which `main` of
-- cmd/hotpod/main.go calls them. The mux of net/http is an argument.
use hotpod.Prelude.{Bool, Option, none, some, List, [], ◌∷◌, ◌++◌, if◌then◌else◌}
use hotpod.Prelude.Text.{Text, codes}

pub data Handler : Type 0 where
  healthz readyz startupz metrics info latency cpu memory io work : Handler
  crash hang oom error enqueue process status clear : Handler
  ready gc config reset error_rate queue_pause queue_resume : Handler

pub record Route : Type 0 where
  pub method : Text
  pub path : Text
  pub handler : Handler

abbrev get : Text → Handler → Route
get path handler = record { method = codes "GET"; path = path; handler = handler }

abbrev post : Text → Handler → Route
post path handler = record { method = codes "POST"; path = path; handler = handler }

unfoldable pub register_health : List Route
register_health =
    get (codes "/healthz") healthz
    ∷ get (codes "/readyz") readyz
    ∷ get (codes "/startupz") startupz
    ∷ []

unfoldable pub register_metrics : List Route
register_metrics = get (codes "/metrics") metrics ∷ []

unfoldable pub register_info : List Route
register_info = get (codes "/info") info ∷ []

unfoldable pub register_latency : List Route
register_latency = get (codes "/latency") latency ∷ []

unfoldable pub register_cpu : List Route
register_cpu = get (codes "/cpu") cpu ∷ []

unfoldable pub register_memory : List Route
register_memory = get (codes "/memory") memory ∷ []

unfoldable pub register_io : List Route
register_io = get (codes "/io") io ∷ []

unfoldable pub register_work : List Route
register_work = get (codes "/work") work ∷ []

unfoldable pub register_fault : List Route
register_fault =
    post (codes "/fault/crash") crash
    ∷ post (codes "/fault/hang") hang
    ∷ post (codes "/fault/oom") oom
    ∷ get (codes "/fault/error") error
    ∷ []

unfoldable pub register_queue : List Route
register_queue =
    post (codes "/queue/enqueue") enqueue
    ∷ post (codes "/queue/process") process
    ∷ get (codes "/queue/status") status
    ∷ post (codes "/queue/clear") clear
    ∷ []

unfoldable pub register_admin : List Route
register_admin =
    post (codes "/admin/ready") ready
    ∷ post (codes "/admin/gc") gc
    ∷ get (codes "/admin/config") config
    ∷ post (codes "/admin/reset") reset
    ∷ post (codes "/admin/error-rate") error_rate
    ∷ post (codes "/admin/queue/pause") queue_pause
    ∷ post (codes "/admin/queue/resume") queue_resume
    ∷ []

-- What `main` registers, by whether the mode is "sidecar".
unfoldable pub registered : Bool → List Route
unfolding register_health register_metrics register_info register_latency register_cpu
    register_memory register_io register_work register_fault register_queue register_admin
registered sidecar =
    register_health
    ++ register_metrics
    ++ register_info
    ++ (if sidecar
        then []
        else register_latency ++ register_cpu ++ register_memory ++ register_io ++ register_work
          ++ register_fault ++ register_queue)
    ++ register_admin

-- The calls of `Register` on a mux: `handle` is its `HandleFunc`, and `none` a panic.
unfoldable pub mount : {M : Type 0} → (M → Route → Option M) → List Route → M → Option M
mount handle [] m = some m
mount handle (r ∷ rs) m = elim (handle m r) [ none ↦ none | some m' ↦ mount handle rs m' ]
