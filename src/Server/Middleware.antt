-- ===== src/Server/Middleware.antt =====
-- internal/server/middleware.go. A handler is a function of the request and of the state that handlers
-- share; it results in the calls that it made on its response writer, the state that it left, and
-- whether it panicked. A request runs without a break here. Durations, the histogram of them, and the
-- warnings about failed writes are left out.
use hotpod.Prelude.{
  ℕ, zero, suc, Bool, true, false, Option, none, some, List, [], ◌∷◌, ◌++◌, length, get_elem?,
  if◌then◌else◌,
}
use hotpod.Prelude.Int.{ℤ, pos, negsuc, ◌+ℤ◌}
use hotpod.Prelude.Text.{Text, codes}
use hotpod.Prelude.Float.{Float}
use hotpod.Lifecycle.Defs.{Lifecycle, track_request, request_done, should_reject_request}
use hotpod.Fault.Injector.{Injector, should_inject_error}
use hotpod.Server.Routes.{normalize_endpoint}

-- The methods of `http.ResponseWriter`, as calls.
pub data Call : Type 0 where
  header : Text → Text → Call
  write_header : ℤ → Call
  write : Text → Call

pub record Request : Type 0 where
  pub method : Text
  pub path : Text

-- The lines of the log: a request that was served, and a panic that was recovered.
pub data Line : Type 0 where
  request : Text → Text → ℤ → Line
  panic_recovered : Text → Line

pub record World (F : Type 0) : Type 0 where
  pub lifecycle : Lifecycle
  -- `none` is the nil injector.
  pub injector : Option (Injector F)
  -- The gauge `InFlightRequests`, and the counters by their labels, oldest first.
  pub in_flight_requests : ℤ
  pub requests_total : List (Text × ℤ)
  pub faults_injected : List (Text × ℤ)
  pub log : List Line

pub record Reply (F : Type 0) : Type 0 where
  pub calls : List Call
  pub world : World F
  pub panicked : Bool

abbrev pub Handler : Type 0 → Type 0
Handler F = Request → World F → Reply F

-- `responseWriter`, beside the writer that it embeds.
pub record ResponseWriter : Type 0 where
  pub status_code : ℤ
  pub wrote_header : Bool

abbrev pub status_ok : ℤ
status_ok = pos 200

unfoldable pub new_response_writer : ResponseWriter
new_response_writer = record { status_code = status_ok; wrote_header = false }

-- What `WriteHeader` passes on.
unfoldable pub rw_write_header : ResponseWriter → ℤ → ResponseWriter × List Call
rw_write_header writer code =
    if writer.wrote_header
    then (writer, [])
    else (record { status_code = code; wrote_header = true }, write_header code ∷ [])

-- A handler's calls on the wrapper. The embedded writer gets `Header` and `Write` at once.
unfoldable pub pass : ResponseWriter → List Call → ResponseWriter × List Call
unfolding rw_write_header
pass writer [] = (writer, [])
pass writer (write_header code ∷ cs) =
    let (after, own) = rw_write_header writer code in
    let (done, rest) = pass after cs in (done, own ++ rest)
pass writer (header k v ∷ cs) = let (after, rest) = pass writer cs in (after, header k v ∷ rest)
pass writer (write b ∷ cs) = let (after, rest) = pass writer cs in (after, write b ∷ rest)

module _ {F : Type 0} where
  -- A panic leaves the function before the line is logged.
  unfoldable pub logging : Handler F → Handler F
  unfolding pass new_response_writer
  logging next r w =
      let reply = next r w in
      let (writer, out) = pass new_response_writer reply.calls in
      if reply.panicked then record reply { calls = out } else record reply {
        calls = out;
        world = record reply.world {
          log = reply.world.log ++ (request r.method r.path writer.status_code ∷ []);
        };
      }

  -- `http_error` is what `http.Error` calls.
  unfoldable pub recovery : (Text → ℤ → List Call) → Handler F → Handler F
  recovery http_error next r w =
      let reply = next r w in
      if reply.panicked
      then record {
        calls =
            reply.calls
            ++ http_error
                (codes "{\"error\":\"internal server error\",\"code\":\"INTERNAL_ERROR\"}")
                (pos 500);
        world = record reply.world { log = reply.world.log ++ (panic_recovered r.path ∷ []) };
        panicked = false;
      }
      else reply

  -- The deferred call runs after a panic too.
  unfoldable pub request_tracking : Handler F → Handler F
  unfolding track_request request_done
  request_tracking next r w =
      let reply = next r (record w { lifecycle = track_request w.lifecycle }) in
      record reply { world = record reply.world { lifecycle = request_done reply.world.lifecycle } }

  unfoldable pub drain_check : Handler F → Handler F
  unfolding should_reject_request
  drain_check next r w =
      if should_reject_request w.lifecycle
      then record {
        calls =
            header (codes "Content-Type") (codes "application/json")
            ∷ write_header (pos 503)
            ∷ write (codes "{\"error\":\"server is shutting down\",\"code\":\"OPERATION_TIMEOUT\"}")
            ∷ [];
        world = w;
        panicked = false;
      }
      else next r w

  -- What `Metrics` records after the handler, which a panic skips.
  unfoldable pub count_request : Request → ℤ → World F → World F
  unfolding normalize_endpoint
  count_request r status w = record w {
    requests_total = w.requests_total ++ ((normalize_endpoint r.path, status) ∷ []);
  }

  unfoldable pub leave_gauge : World F → World F
  leave_gauge w = record w { in_flight_requests = w.in_flight_requests +ℤ negsuc 0 }

  unfoldable pub metrics : Handler F → Handler F
  unfolding pass new_response_writer count_request leave_gauge
  metrics next r w =
      let reply = next r (record w { in_flight_requests = w.in_flight_requests +ℤ pos 1 }) in
      let (writer, out) = pass new_response_writer reply.calls in
      record {
        calls = out;
        world = leave_gauge (
            if reply.panicked then reply.world else count_request r writer.status_code reply.world);
        panicked = reply.panicked;
      }

  module _ ⦃fl : Float F⦄ where
    -- `fault_body` is what `fmt.Sprintf` makes of the status. The panic is an index out of range.
    unfoldable pub inject : (ℤ → Text) → Option ℤ → Handler F → Handler F
    unfolding normalize_endpoint
    inject fault_body none next r w = record { calls = []; world = w; panicked = true }
    inject fault_body (some (pos zero)) next r w = next r w
    inject fault_body (some status_code) next r w = record {
      calls =
          header (codes "Content-Type") (codes "application/json")
          ∷ write_header status_code
          ∷ write (fault_body status_code)
          ∷ [];
      world = record w {
        faults_injected = w.faults_injected ++ ((normalize_endpoint r.path, status_code) ∷ []);
      };
      panicked = false;
    }

    -- `now`, `u` and `i` are the clock and the random numbers that the injector draws.
    unfoldable pub error_injection : (ℤ → Text) → ℕ → F → ℕ → Handler F → Handler F
    unfolding should_inject_error inject
    error_injection fault_body now u i next r w = elim w.injector [
      | none ↦ next r w
      | some inj ↦
          inject fault_body (should_inject_error now u i (normalize_endpoint r.path) inj) next r w
    ]

-- The loop of `Chain`, with `i` middlewares left to apply.
unfoldable pub chain_loop {ℓ} : {H : Type ℓ} → List (H → H) → ℕ → H → H
chain_loop middlewares zero h = h
chain_loop middlewares (suc i) h = elim (get_elem? middlewares i) [
  | none ↦ h
  | some m ↦ chain_loop middlewares i (m h)
]

unfoldable pub chain {ℓ} : {H : Type ℓ} → H → List (H → H) → H
unfolding chain_loop
chain h middlewares = chain_loop middlewares (length middlewares) h

-- The handler of `Run`, without the timeout that net/http puts around it.
unfoldable pub server_handler :
    {F : Type 0} ⦃fl : Float F⦄
    → (Text → ℤ → List Call)
    → (ℤ → Text)
    → ℕ
    → F
    → ℕ
    → Handler F
    → Handler F
unfolding chain drain_check error_injection request_tracking metrics recovery logging
server_handler http_error fault_body now u i mux = chain mux (
    drain_check
    ∷ error_injection fault_body now u i
    ∷ request_tracking
    ∷ metrics
    ∷ recovery http_error
    ∷ logging
    ∷ [])
