-- ===== src/Endpoints/Chaos.antt =====
-- The fault endpoints of internal/handlers/fault.go: when they refuse, and what they start.
use hotpod.Prelude.{
  ℕ, zero, suc, ◌≡◌, refl, ap, ◌⊎◌, inl, inr, Bool, true, false, not, Option, none, some, List, [],
  ◌∷◌, arith, subst, sym, Bool-cases, length,
}
use hotpod.Prelude.Int.{ℤ, pos, negsuc, ◌≤ℤ◌, ◌<ℤ◌, is_pos}
use hotpod.Prelude.Text.{Text, codes}
use hotpod.Prelude.Float.{Float}
use hotpod.Fault.Chaos.{Effect, sleeps, exits, crash, Hoard, oom, oom_tick}
use hotpod.Handlers.Response.{Response, answer, failed, Query, parse_duration, size_param}
use hotpod.Endpoints.Faults.{
  CrashOrder, read_crash, crash_handler, read_hang, hang_handler, read_oom, oom_handler,
  ErrorResponse, error_handler, chaos_disabled,
}
use hotpod.Endpoints.Checked.{
  Accepted, Checked, Checked->>=, Checked-reject, Checked-answer, IsRead, parse_duration-Read,
  size_param-Read,
}
use hotpod.Endpoints.Hanging.{Hangs, hang_handler-Hangs}
use hotpod.Endpoints.Ranged.{Ranged, count_param-Ranged, IsFraction, rate_param-Checked}

abbrev pub CrashAccepts : (Text → Option ℤ) → Query → CrashOrder → Type 0
CrashAccepts duration query o =
    IsRead (parse_duration duration query (codes "delay") (pos 0)) o.delay
    × Ranged query (codes "exit_code") (pos 0) (pos 255) (pos 1) o.exit_code

read_crash-Checked :
    (duration : Text → Option ℤ) (query : Query)
    → Checked
        (CrashAccepts duration query)
        (CrashAccepts duration query)
        (read_crash duration true query)
unfolding read_crash
read_crash-Checked duration query =
    Checked->>= (parse_duration-Read query (codes "delay") duration (pos 0))
      (λ no o a. no o.delay a.0)
      λ delay e.
        Checked->>=
          (count_param-Ranged query (codes "exit_code") (pos 0) (pos 255) (pos 1) (omega arith)
            (omega arith))
          (λ no o a. no o.exit_code a.1) λ code r. Checked-answer (e, r)

-- What is started: nothing for a request that is refused; else the process exits with the code that was
-- accepted, after the delay if that is above 0.
abbrev pub Starts : Response CrashOrder × List Effect → Type 0
Starts (failed status code, effects) = effects ≡ []
Starts (answer o, effects) =
    ((pos 0 <ℤ o.delay) × (effects ≡ sleeps o.delay ∷ exits o.exit_code ∷ []))
    ⊎ ((o.delay ≤ℤ pos 0) × (effects ≡ exits o.exit_code ∷ []))

crash-cases :
    (delay code : ℤ)
    → ((pos 0 <ℤ delay) × (crash delay code ≡ sleeps delay ∷ exits code ∷ []))
      ⊎ ((delay ≤ℤ pos 0) × (crash delay code ≡ exits code ∷ []))
unfolding crash
crash-cases (pos d) code = ground arith
crash-cases (negsuc d) code = ground arith

crash_handler-Starts :
    (duration : Text → Option ℤ) (enabled : Bool) (query : Query)
    → ((crash_handler duration enabled query).0 ≡ read_crash duration enabled query)
      × Starts (crash_handler duration enabled query)
unfolding crash_handler
crash_handler-Starts duration enabled query = go (read_crash duration enabled query) refl
  where
    go :
        (r : Response CrashOrder)
        → read_crash duration enabled query ≡ r
        → ((crash_handler duration enabled query).0 ≡ read_crash duration enabled query)
          × Starts (crash_handler duration enabled query)
    go (failed status code) e = rw (e, crash_handler) (refl, refl)
    go (answer o) e = rw (e, crash_handler) (refl, crash-cases o.delay o.exit_code)

abbrev pub OomAccepts : Query → ℤ → Type 0
OomAccepts query rate =
    IsRead (size_param query (codes "rate") (pos 104857600)) rate × (pos 0 <ℤ rate)

is_pos-le : (z : ℤ) → not (is_pos z) ≡ true → z ≤ℤ pos 0
is_pos-le (pos n) e = ground arith
is_pos-le (negsuc n) e = omega arith

positive_rate :
    (m : Response ℤ) (given rate : ℤ)
    → not (is_pos given) ≡ true
    → m ≡ answer given
    → m ≡ answer rate
    → pos 0 <ℤ rate
    → ⊥
positive_rate m given rate b e e' l =
    let same : given ≡ rate = cc in
    omega (arith, l, is_pos-le rate (subst (λ z. not (is_pos z) ≡ true) same b))

is_pos-lt : (z : ℤ) → not (is_pos z) ≡ false → pos 0 <ℤ z
is_pos-lt (pos n) e = ground arith
is_pos-lt (negsuc n) e = cc

read_oom-Checked :
    (query : Query) → Checked (OomAccepts query) (OomAccepts query) (read_oom true query)
unfolding read_oom
read_oom-Checked query =
    Checked->>= (size_param-Read query (codes "rate") (pos 104857600)) (λ no o a. no o a.0)
      λ rate e.
        Checked-reject (λ b o a. positive_rate _ rate o b e a.0 a.1)
          λ (n : not (is_pos rate) ≡ false). Checked-answer (e, is_pos-lt rate n)

-- What `OOM` starts: nothing for a request that is refused, else one buffer more with every tick.
abbrev pub Hoards : Response ℤ × Option (ℕ → Hoard) → Type 0
Hoards (failed status code, none) = Unit
Hoards (answer rate, some hoard) = (n : ℕ) → length (hoard n).buffers ≡ n
Hoards _ = ⊥

oom-length : (rate : ℤ) (n : ℕ) → length (oom rate n).buffers ≡ n
unfolding oom oom_tick
oom-length rate zero = refl
oom-length rate (suc n) = ap suc (oom-length rate n)

oom_handler-Hoards :
    (enabled : Bool) (query : Query)
    → ((oom_handler enabled query).0 ≡ read_oom enabled query) × Hoards (oom_handler enabled query)
unfolding oom_handler
oom_handler-Hoards enabled query = go (read_oom enabled query) refl
  where
    go :
        (r : Response ℤ)
        → read_oom enabled query ≡ r
        → ((oom_handler enabled query).0 ≡ read_oom enabled query)
          × Hoards (oom_handler enabled query)
    go (failed status code) e = rw (e, oom_handler) (refl, tt)
    go (answer rate) e = rw (e, oom_handler) (refl, oom-length rate)

module _ {F : Type 0} ⦃fl : Float F⦄ where
  open fl use {ltb_F, zero_F, one_F}

  -- The rate and the status that were accepted, and what came of the rate.
  abbrev pub ErrorAccepts : (Text → Option F) → F → F → Query → ErrorResponse → Type 0
  ErrorAccepts parse_float half u query r =
      (rate : F) × IsFraction parse_float half (query (codes "rate")) rate
      × ((status : ℤ) × Ranged query (codes "status") (pos 400) (pos 599) (pos 500) status
          × (((ltb_F u rate ≡ true) × (r ≡ record { injected = true; status = status }))
              ⊎ ((ltb_F u rate ≡ false) × (r ≡ record { injected = false; status = pos 200 }))))

  error_handler-Checked :
      (parse_float : Text → Option F) (half u : F) (query : Query)
      → Checked
          (ErrorAccepts parse_float half u query)
          (ErrorAccepts parse_float half u query)
          (error_handler parse_float half u true query)
  unfolding error_handler
  error_handler-Checked parse_float half u query =
      Checked->>= (rate_param-Checked parse_float half query) (λ no r a. no a.0 a.1)
        λ rate e.
          Checked->>=
            (count_param-Ranged query (codes "status") (pos 400) (pos 599) (pos 500) (omega arith)
              (omega arith))
            (λ no r a. no a.2.0 a.2.1)
            λ status q. Checked-answer (
              rate,
              e,
              (
                status,
                q,
                elim (Bool-cases (ltb_F u rate)) [
                  | inl below ↦ inl (below, rw below refl)
                  | inr above ↦ inr (above, rw above refl)
                ],
              ),
            )

  -- With the chaos endpoints disabled each of the four answers 403, and nothing is started or sent. With
  -- them enabled, the parameters of a crash are accepted exactly if its delay can be read and its exit code
  -- is from 0 to 255, a rate of memory exactly if it is above 0, and those of an error exactly if its rate
  -- is not below 0 nor above 1 and its status is from 400 to 599; else they are refused with 400.
  pub faults-Accepted :
      (duration : Text → Option ℤ) (parse_float : Text → Option F) (half u : F) (write_fails : Bool)
      (at : Option ℕ) (tie : Bool) (query : Query)
      → ((crash_handler duration false query ≡ (failed 403 chaos_disabled, []))
          × (hang_handler duration write_fails false at tie query ≡ failed 403 chaos_disabled)
          × (oom_handler false query ≡ (failed 403 chaos_disabled, none))
          × (error_handler parse_float half u false query ≡ failed 403 chaos_disabled))
        × Accepted
            (CrashAccepts duration query)
            (CrashAccepts duration query)
            (crash_handler duration true query).0
        × Accepted (OomAccepts query) (OomAccepts query) (oom_handler true query).0
        × Accepted
            (ErrorAccepts parse_float half u query)
            (ErrorAccepts parse_float half u query)
            (error_handler parse_float half u true query)
  unfolding crash_handler oom_handler hang_handler error_handler read_crash read_oom read_hang
  faults-Accepted duration parse_float half u write_fails at tie query = (
    (refl, refl, refl, refl),
    subst (Accepted _ _) (sym (crash_handler-Starts duration true query).0)
        (read_crash-Checked duration query).passed,
    subst (Accepted _ _) (sym (oom_handler-Hoards true query).0) (read_oom-Checked query).passed,
    (error_handler-Checked parse_float half u query).passed,
  )

-- What a fault endpoint does, whether it is enabled or not. `Crash` starts nothing for a request that is
-- refused, and else the exit of the process with the accepted code, after the delay if that is above 0.
-- `OOM` starts nothing for a request that is refused, and else holds one buffer more with every tick.
-- `Hang` refuses a request whose parameters cannot be read; else it never returns exactly if it has no time
-- limit above 0, the context never ends, and the first part of its answer, if it has one, could be sent;
-- and if it returns, it has sent its answer whole, except where its first write failed. That answer says
-- that it was interrupted, which it is only by the end of a context that is not after a limit above 0;
-- or that it was not, which is so only at a limit above 0 that is not after the end of the context.
pub faults-start :
    (duration : Text → Option ℤ) (enabled write_fails : Bool) (at : Option ℕ) (tie : Bool)
    (query : Query)
    → Starts (crash_handler duration enabled query)
      × Hoards (oom_handler enabled query)
      × Hangs write_fails at
          (read_hang duration enabled query)
          (hang_handler duration write_fails enabled at tie query)
faults-start duration enabled write_fails at tie query = (
  (crash_handler-Starts duration enabled query).1,
  (oom_handler-Hoards enabled query).1,
  hang_handler-Hangs duration write_fails enabled at tie query,
)
