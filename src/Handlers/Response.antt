-- ===== src/Handlers/Response.antt =====
-- What an endpoint of internal/handlers answers, and how it reads its parameters: `writeError` and
-- `parseDuration` of internal/handlers/latency.go, `parseSize` of internal/handlers/memory.go. The text of
-- an error is left out, its status and code are kept.
use hotpod.Prelude.{ℕ, Bool, true, false, Option, none, some, if◌then◌else◌}
use hotpod.Prelude.Int.{ℤ, ltb_ℤ}
use hotpod.Prelude.Text.{Text, codes}
use hotpod.Config.Result.{Result, ok, err}
use hotpod.Config.Parse.{parse_int}
use hotpod.Config.Size.{parse_size}
use hotpod.Config.DirName.{is_empty}

pub data Response {ℓ} (A : Type ℓ) : Type ℓ where
  answer : A → Response A
  failed : ℕ → Text → Response A

infixl 5 ◌>>=◌ ◌>>◌
abbrev pub ◌>>=◌ {ℓ κ} : {A : Type ℓ} {B : Type κ} → Response A → (A → Response B) → Response B
answer a >>= f = f a
failed status code >>= f = failed status code

abbrev pub ◌>>◌ {ℓ} : {B : Type ℓ} → Response (Unit {0}) → Response B → Response B
m >> k = m >>= λ _. k

-- `if bad { writeError(w, status, code, …); return }`
abbrev pub reject : Bool → ℕ → Text → Response (Unit {0})
reject true status code = failed status code
reject false status code = answer tt

-- `r.URL.Query().Get`: the empty text for a missing parameter.
abbrev pub Query : Type 0
Query = Text → Text

abbrev pub invalid_parameter : Text
invalid_parameter = codes "INVALID_PARAMETER"

abbrev pub or_invalid : {A : Type 0} → Option A → Response A
or_invalid none = failed 400 invalid_parameter
or_invalid (some a) = answer a

-- The tests of a number that is given.
unfoldable pub given_count : Text → ℤ → ℤ → Response ℤ
unfolding parse_int
given_count text low high = do
  n ← or_invalid (parse_int text)
  reject (ltb_ℤ n low) 400 invalid_parameter
  reject (ltb_ℤ high n) 400 invalid_parameter
  answer n

-- A parameter that is a number from `low` to `high`.
unfoldable pub count_param : Query → Text → ℤ → ℤ → ℤ → Response ℤ
unfolding is_empty given_count
count_param query key low high default =
    if is_empty (query key) then answer default else given_count (query key) low high

-- `duration` is `time.ParseDuration`.
unfoldable pub parse_duration : (Text → Option ℤ) → Query → Text → ℤ → Response ℤ
unfolding is_empty
parse_duration duration query key default =
    if is_empty (query key) then answer default else or_invalid (duration (query key))

abbrev pub from_result : Result ℤ → Response ℤ
from_result (ok n) = answer n
from_result (err e) = failed 400 invalid_parameter

unfoldable pub size_param : Query → Text → ℤ → Response ℤ
unfolding is_empty parse_size
size_param query key default =
    if is_empty (query key) then answer default else from_result (parse_size (query key))
