-- ===== src/Endpoints/Faults.antt =====
-- internal/handlers/fault.go: `Crash`, `Hang`, `OOM` and `Error`. What a handler starts in the background is
-- the second part of its result, and its effects are those of the module `Fault.Chaos`.
use hotpod.Prelude.{
  ℕ, Bool, true, false, not, ◌||◌, Option, none, some, List, [], ◌∷◌, if◌then◌else◌,
}
use hotpod.Prelude.Int.{ℤ, pos, is_pos}
use hotpod.Prelude.Text.{Text, codes, text_eq}
use hotpod.Prelude.Float.{Float}
use hotpod.Config.DirName.{is_empty}
use hotpod.Fault.Chaos.{Effect, crash, hang, Hoard, oom}
use hotpod.Handlers.Response.{
  Response, answer, failed, ◌>>=◌, ◌>>◌, reject, or_invalid, Query, invalid_parameter, count_param,
  parse_duration, size_param,
}

abbrev pub chaos_disabled : Text
chaos_disabled = codes "CHAOS_DISABLED"

pub record CrashOrder : Type 0 where
  pub delay : ℤ
  pub exit_code : ℤ

unfoldable pub read_crash : (Text → Option ℤ) → Bool → Query → Response CrashOrder
unfolding parse_duration count_param
read_crash duration enabled query = do
  reject (not enabled) 403 chaos_disabled
  delay ← parse_duration duration query (codes "delay") (pos 0)
  exit_code ← count_param query (codes "exit_code") (pos 0) (pos 255) (pos 1)
  answer (record { delay = delay; exit_code = exit_code })

-- `Crash`: the answer, and `go fault.Crash(delay, exitCode)`.
unfoldable pub crash_handler : (Text → Option ℤ) → Bool → Query → Response CrashOrder × List Effect
unfolding read_crash crash
crash_handler duration enabled query = elim (read_crash duration enabled query) [
  | failed status code ↦ (failed status code, [])
  | answer order ↦ (answer order, crash order.delay order.exit_code)
]

pub record HangOrder : Type 0 where
  pub duration : ℤ
  pub is_partial : Bool

unfoldable pub read_hang : (Text → Option ℤ) → Bool → Query → Response HangOrder
unfolding parse_duration text_eq
read_hang duration enabled query = do
  reject (not enabled) 403 chaos_disabled
  time ← parse_duration duration query (codes "duration") (pos 0)
  answer (record { duration = time; is_partial = text_eq (query (codes "partial")) (codes "true") })

-- What goes to the client: the head with the first part of a body, the rest of it, or a whole answer.
pub data Piece : Type 0 where
  opening : Piece
  closing : Bool → Piece
  whole : Bool → Piece

-- The pieces that are sent, by whether the first write fails, and by when the context ends; `false` means
-- that the handler never returns.
unfoldable pub send_hang : Bool → Option ℕ → Bool → HangOrder → List Piece × Bool
unfolding hang
send_hang write_fails at tie order =
    if order.is_partial
    then (if write_fails then ([], true) else elim (hang order.duration at tie) [
      | none ↦ (opening ∷ [], false)
      | some cancelled ↦ (opening ∷ closing cancelled ∷ [], true)
    ])
    else elim (hang order.duration at tie) [
      | none ↦ ([], false)
      | some cancelled ↦ (whole cancelled ∷ [], true)
    ]

-- `Hang`
unfoldable pub hang_handler :
    (Text → Option ℤ) → Bool → Bool → Option ℕ → Bool → Query → Response (List Piece × Bool)
unfolding read_hang send_hang
hang_handler duration write_fails enabled at tie query = do
  order ← read_hang duration enabled query
  answer (send_hang write_fails at tie order)

unfoldable pub read_oom : Bool → Query → Response ℤ
unfolding size_param
read_oom enabled query = do
  reject (not enabled) 403 chaos_disabled
  rate ← size_param query (codes "rate") (pos 104857600)
  reject (not (is_pos rate)) 400 invalid_parameter
  answer rate

-- `OOM`: the answer, and what `go fault.OOM(context.Background(), rate)` holds after some ticks, if it was
-- started.
unfoldable pub oom_handler : Bool → Query → Response ℤ × Option (ℕ → Hoard)
unfolding read_oom oom
oom_handler enabled query = elim (read_oom enabled query) [
  | failed status code ↦ (failed status code, none)
  | answer rate ↦ (answer rate, some (oom rate))
]

pub record ErrorResponse : Type 0 where
  pub injected : Bool
  pub status : ℤ

module _ {F : Type 0} ⦃fl : Float F⦄ where
  open fl use {ltb_F, zero_F, one_F}

  unfoldable pub given_rate : (Text → Option F) → Text → Response F
  given_rate parse_float text = do
    rate ← or_invalid (parse_float text)
    reject (ltb_F rate zero_F || ltb_F one_F rate) 400 invalid_parameter
    answer rate

  -- `parse_float` is `strconv.ParseFloat`, and `half` is 0.5.
  unfoldable pub rate_param : (Text → Option F) → F → Query → Response F
  unfolding is_empty given_rate
  rate_param parse_float half query =
      let given = query (codes "rate") in
      if is_empty given then answer half else given_rate parse_float given

  -- `Error`; `u` is what `rand.Float64` returns. Without an error the answer has status 200.
  unfoldable pub error_handler : (Text → Option F) → F → F → Bool → Query → Response ErrorResponse
  unfolding rate_param count_param
  error_handler parse_float half u enabled query = do
    reject (not enabled) 403 chaos_disabled
    rate ← rate_param parse_float half query
    status ← count_param query (codes "status") (pos 400) (pos 599) (pos 500)
    answer (
        if ltb_F u rate
        then record { injected = true; status = status }
        else record { injected = false; status = pos 200 })
