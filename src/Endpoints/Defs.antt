-- ===== src/Endpoints/Defs.antt =====
-- What the load endpoints share: `parseInt` of internal/handlers/latency.go, the check of a parameter with
-- a few values, the safety limit, and the operation between `Acquire` and its release function.
use hotpod.Prelude.{Bool, true, false, ◌&&◌, Option, none, some, List, [], ◌∷◌, if◌then◌else◌}
use mathlib.Core.Option
use hotpod.Prelude.Int.{ℤ, ltb_ℤ, is_pos}
use hotpod.Prelude.Text.{Text, codes, text_eq}
use hotpod.Config.Parse.{parse_int}
use hotpod.Config.DirName.{is_empty}
use hotpod.Load.Defs.{Tracker, OpType, acquire, release, acquired, too_many_ops, panic}
use hotpod.Handlers.Response.{Response, answer, failed, Query, invalid_parameter, or_invalid}

-- `parseInt`
unfoldable pub int_param : Query → Text → ℤ → Response ℤ
unfolding is_empty parse_int
int_param query key default =
    if is_empty (query key) then answer default else or_invalid (parse_int (query key))

unfoldable pub is_in : Text → List Text → Bool
is_in s [] = false
is_in s (t ∷ ts) = if text_eq s t then true else is_in s ts

-- A parameter that must be one of a few words.
unfoldable pub choice_param : Query → Text → Text → List Text → Response Text
unfolding is_empty is_in
choice_param query key default choices =
    let given = query key in
    let chosen = if is_empty given then default else given in
    if is_in chosen choices then answer chosen else failed 400 invalid_parameter

-- A value under the safety limit, and whether that was applied.
unfoldable pub cap : ℤ → ℤ → ℤ × Bool
cap maximum x = if is_pos maximum && ltb_ℤ maximum x then (maximum, true) else (x, false)

-- A handler from `Acquire` on. `a` is what the operation and the answer come to, and `others` what all
-- other requests do to the tracker in the meantime. `none` is a panic: of the operation, which still
-- releases, or of `Acquire` at a type that has no counter.
unfoldable pub operate :
    {A : Type 0} → OpType → (Tracker → Tracker) → Option A → Tracker → Tracker × Option (Response A)
operate op others a t =
    let (t', r) = acquire t op in
    elim r [
      | panic ↦ (t', none)
      | too_many_ops ↦ (t', some (failed 429 (codes "TOO_MANY_REQUESTS")))
      | acquired ↦ (release (others t') op, Option.map (λ v. answer v) a)
    ]

-- A handler: it reads its parameters, and then operates.
unfoldable pub handle :
    {P A : Type 0}
    → OpType
    → Response P
    → (P → Option A)
    → (Tracker → Tracker)
    → Tracker
    → Tracker × Option (Response A)
handle op request run others t = elim request [
  | failed status code ↦ (t, some (failed status code))
  | answer p ↦ operate op others (run p) t
]
