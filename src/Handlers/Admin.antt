-- ===== src/Handlers/Admin.antt =====
-- internal/handlers/admin.go: the handlers that change state, as functions of the state that they share.
-- `GC` and `Config`, which only report, are in Report.
use hotpod.Prelude.{
  ◌==◌, ℕ, suc, Bool, true, false, ◌||◌, Option, none, some, List, [], ◌∷◌, if◌then◌else◌,
}
use hotpod.Prelude.Int.{ℤ, pos, ltb_ℤ}
use hotpod.Prelude.Text.{Text, codes, text_eq}
use hotpod.Prelude.Float.{Float}
use hotpod.Config.DirName.{is_empty}
use hotpod.Config.Parse.{parse_int, trim_space}
use hotpod.Queue.Defs.{Queue, clear, pause, resume}
use hotpod.Lifecycle.Defs.{
  Lifecycle, set_ready_override, get_ready_override, is_ready, state_string, add_duration,
}
use hotpod.Fault.Injector.{Injector, ErrorConfig, reset, set_global_config, set_endpoint_config}
use hotpod.Handlers.Response.{
  Response, answer, failed, ◌>>=◌, ◌>>◌, reject, Query, invalid_parameter, or_invalid,
}

-- The objects that `AdminHandlers` points to. `none` is the nil queue of the sidecar mode, in which the
-- worker pool is nil too; `stops` counts the calls of the pool's `Stop`.
pub record Admin (F : Type 0) : Type 0 where
  pub lifecycle : Lifecycle
  pub injector : Injector F
  pub queue : Option Queue
  pub stops : ℕ

-- `given` is the header `X-Admin-Token`.
unfoldable pub authenticate : Text → Text → Response (Unit {0})
unfolding is_empty text_eq
authenticate token given =
    if is_empty token
    then answer tt
    else if text_eq given token
    then answer tt
    else failed 401 (codes "UNAUTHORIZED")

-- What a handler does once the token is accepted.
unfoldable pub guarded {ℓ} :
    {S : Type ℓ} {A : Type ℓ} → Text → Text → (S → S × Response A) → S → S × Response A
guarded token given body s = elim (authenticate token given) [
  | failed status code ↦ (s, failed status code)
  | answer _ ↦ body s
]

pub record AdminReadyResponse : Type 0 where
  pub ready : Bool
  pub override : Option Bool
  pub state : Text

-- The override that `Ready` sets, by its parameter.
unfoldable pub chosen_override : Text → Lifecycle → Response (Option Bool)
unfolding text_eq get_ready_override
chosen_override param lc =
    if text_eq param (codes "true")
    then answer (some true)
    else if text_eq param (codes "false")
    then answer (some false)
    else if text_eq param []
    then elim (get_ready_override lc) [ some _ ↦ answer none | none ↦ answer (some false) ]
    else failed 400 invalid_parameter

unfoldable pub ready_report : Lifecycle → AdminReadyResponse
unfolding is_ready get_ready_override state_string
ready_report lc = record {
  ready = is_ready lc;
  override = get_ready_override lc;
  state = state_string lc.state;
}

module _ {F : Type 0} where
  unfoldable pub set_ready : Query → Admin F → Admin F × Response AdminReadyResponse
  set_ready query a = elim (chosen_override (query (codes "state")) a.lifecycle) [
    | failed status code ↦ (a, failed status code)
    | answer override ↦
        let lc = set_ready_override override a.lifecycle in
        (record a { lifecycle = lc }, answer (ready_report lc))
  ]

  -- `Ready`
  unfoldable pub ready : Text → Text → Query → Admin F → Admin F × Response AdminReadyResponse
  unfolding guarded set_ready
  ready token given query = guarded token given (set_ready query)

pub record AdminResetResponse : Type 0 where
  pub fault_reset : Bool
  pub queue_cleared : ℕ
  pub workers_stopped : Bool
  pub ready_override_cleared : Bool

module _ {F : Type 0} where
  unfoldable pub reset_all : ℕ → Admin F → Admin F × Response AdminResetResponse
  reset_all now a = elim a.queue [
    | none ↦ (
      record a { injector = reset a.injector; lifecycle = set_ready_override none a.lifecycle },
      answer (record {
        fault_reset = true;
        queue_cleared = 0;
        workers_stopped = false;
        ready_override_cleared = true;
      }),
    )
    | some q ↦ (
      record a {
        injector = reset a.injector;
        queue = some (clear now q).0;
        stops = suc a.stops;
        lifecycle = set_ready_override none a.lifecycle;
      },
      answer (record {
        fault_reset = true;
        queue_cleared = (clear now q).1;
        workers_stopped = true;
        ready_override_cleared = true;
      }),
    )
  ]

  -- `Reset`
  unfoldable pub reset_handler : Text → Text → ℕ → Admin F → Admin F × Response AdminResetResponse
  unfolding guarded reset_all
  reset_handler token given now = guarded token given (reset_all now)

  unfoldable pub on_queue : (Queue → Queue) → Bool → Admin F → Admin F × Response Bool
  on_queue f paused a = elim a.queue [
    | none ↦ (a, failed 404 (codes "QUEUE_NOT_AVAILABLE"))
    | some q ↦ (record a { queue = some (f q) }, answer paused)
  ]

  unfoldable pub queue_pause : Text → Text → Admin F → Admin F × Response Bool
  unfolding guarded on_queue pause
  queue_pause token given = guarded token given (on_queue pause true)

  unfoldable pub queue_resume : Text → Text → Admin F → Admin F × Response Bool
  unfolding guarded on_queue resume
  queue_resume token given = guarded token given (on_queue resume false)

-- `strings.Split(s, ",")`
unfoldable pub split_commas : Text → List Text
split_commas [] = [] ∷ []
split_commas (c ∷ s) = elim (split_commas s) [
  | [] ↦ (c ∷ []) ∷ []
  | t ∷ ts ↦ if c == b',' then [] ∷ t ∷ ts else (c ∷ t) ∷ ts
]

unfoldable pub read_codes : List Text → Response (List ℤ)
unfolding parse_int trim_space
read_codes [] = answer []
read_codes (s ∷ ss) = do
  code ← or_invalid (parse_int (trim_space s))
  reject (ltb_ℤ code (pos 100) || ltb_ℤ (pos 599) code) 400 invalid_parameter
  rest ← read_codes ss
  answer (code ∷ rest)

unfoldable pub codes_param : Text → Response (List ℤ)
unfolding is_empty split_commas read_codes
codes_param s = if is_empty s then answer (pos 500 ∷ []) else read_codes (split_commas s)

unfoldable pub read_expiry : (Text → Option ℤ) → ℕ → Text → Response ℕ
unfolding is_empty add_duration
read_expiry duration now s =
    if is_empty s then answer 0 else do d ← or_invalid (duration s); answer (add_duration now d)

pub record AdminErrorRateResponse (F : Type 0) : Type 0 where
  pub endpoint : Text
  pub rate : F
  pub codes : List ℤ

module _ {F : Type 0} ⦃fl : Float F⦄ where
  open fl use {ltb_F, zero_F, one_F}

  -- `parse_float` is `strconv.ParseFloat`, `duration` is `time.ParseDuration`.
  unfoldable pub read_rate : (Text → Option F) → Text → Response F
  unfolding is_empty
  read_rate parse_float s = do
    reject (is_empty s) 400 invalid_parameter
    rate ← or_invalid (parse_float s)
    reject (ltb_F rate zero_F || ltb_F one_F rate) 400 invalid_parameter
    answer rate

  unfoldable pub read_fault :
      (Text → Option F) → (Text → Option ℤ) → ℕ → Query → Response (ErrorConfig F)
  unfolding read_rate codes_param read_expiry
  read_fault parse_float duration now query = do
    rate ← read_rate parse_float (query (codes "rate"))
    statuses ← codes_param (query (codes "codes"))
    expires_at ← read_expiry duration now (query (codes "duration"))
    answer (record { rate = rate; codes = statuses; expires_at = expires_at })

  unfoldable pub set_rate : Text → ErrorConfig F → Injector F → Injector F
  unfolding is_empty set_global_config set_endpoint_config
  set_rate endpoint cfg inj =
      if is_empty endpoint
      then set_global_config (some cfg) inj
      else set_endpoint_config endpoint (some cfg) inj

  unfoldable pub change_rate :
      (Text → Option F)
      → (Text → Option ℤ)
      → ℕ
      → Query
      → Admin F
      → Admin F × Response (AdminErrorRateResponse F)
  unfolding read_fault set_rate
  change_rate parse_float duration now query a = elim (read_fault parse_float duration now query) [
    | failed status code ↦ (a, failed status code)
    | answer cfg ↦ (
      record a { injector = set_rate (query (codes "endpoint")) cfg a.injector },
      answer (record { endpoint = query (codes "endpoint"); rate = cfg.rate; codes = cfg.codes }),
    )
  ]

  -- `ErrorRate`
  unfoldable pub error_rate :
      Text
      → Text
      → (Text → Option F)
      → (Text → Option ℤ)
      → ℕ
      → Query
      → Admin F
      → Admin F × Response (AdminErrorRateResponse F)
  unfolding guarded change_rate
  error_rate token given parse_float duration now query =
      guarded token given (change_rate parse_float duration now query)
