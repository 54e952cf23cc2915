-- ===== src/Endpoints/NotNumber.antt =====
-- A variance that is not a number, in `/work` (internal/handlers/work.go).
use hotpod.Prelude.{◌≡◌, refl, false, Option, none, some, arith}
use hotpod.Prelude.Int.{ℤ, pos, negsuc, ◌<ℤ◌}
use hotpod.Prelude.Text.{Text, codes}
use hotpod.Prelude.Float.{Float, FloatArith}
use hotpod.Config.DirName.{is_empty}
use hotpod.Handlers.Response.{answer, Query}
use hotpod.Endpoints.Defs.{cap}
use hotpod.Endpoints.Work.{
  Profile, WorkLimits, WorkOrder, WorkResponse, Surroundings, run_work, apply_variance, new_order,
  read_work, read_profile, variance_param, given_variance,
}
use hotpod.Endpoints.Varied.{Runs, run_work-Runs}

cap_neg : (maximum x : ℤ) → x <ℤ pos 0 → (cap maximum x).0 <ℤ pos 0
unfolding cap
cap_neg (pos m) (pos n) h = absurd (omega (arith, h))
cap_neg (pos m) (negsuc n) h = ground arith
cap_neg (negsuc m) x h = h

module _ {F : Type 0} ⦃fl : Float F⦄ where
  open fl use {nan}

  module _ ⦃fa : FloatArith F nan⦄ where
    open fa use {to_int}

    apply_variance-nan : (u : F) (n : ℤ) → apply_variance u n nan ≡ to_int nan
    unfolding apply_variance
    apply_variance-nan u n =
        rw
          (
            fl.leb-nan_left fl.zero_F,
            fa.mul-nan_right (fa.sub_F (fa.mul_F u fa.two_F) fl.one_F),
            fa.add-nan_right fl.one_F,
            fa.mul-nan_right (fa.of_int n),
          )
          refl

    given_variance-nan :
        (parse_float : Text → Option F) (text : Text)
        → parse_float text ≡ some nan
        → given_variance parse_float text ≡ answer nan
    unfolding given_variance
    given_variance-nan parse_float text e =
        rw (e, fl.ltb-nan_left fl.zero_F, fl.ltb-nan_right fl.one_F) refl

    -- A variance that is not a number passes the check that it is from 0 to 1. Where the conversion of such
    -- a float to an int64 gives a number below 0, the size of the memory is below 0 then, whatever limits
    -- are set, and the request ends the process.
    pub read_work-nan :
        (limits : WorkLimits) (parse_float : Text → Option F) (u v w : F) (query : Query)
        (s : Surroundings) (name : Text) (profile : Profile)
        → read_profile query ≡ answer (name, profile)
        → is_empty (query (codes "variance")) ≡ false
        → parse_float (query (codes "variance")) ≡ some nan
        → to_int nan <ℤ pos 0
        → let o = new_order limits u v w name profile nan in
          (read_work limits parse_float u v w query ≡ answer o)
          × (o.memory_size <ℤ pos 0)
          × (run_work s o ≡ none)
    unfolding read_work variance_param new_order
    read_work-nan limits parse_float u v w query s name profile p n e h =
        let o = new_order limits u v w name profile nan in
        let below : o.memory_size <ℤ pos 0 =
          rw (apply_variance-nan v profile.memory_size, new_order)
            (cap_neg limits.max_memory_size (to_int nan) h) in
        (
          rw (p, n, given_variance-nan parse_float (query (codes "variance")) e) refl,
          below,
          panics s o below (run_work s o) (run_work-Runs s o),
        )
      where
        panics :
            (s : Surroundings) (o : WorkOrder F)
            → o.memory_size <ℤ pos 0
            → (r : Option (WorkResponse F)) → Runs s o r
            → r ≡ none
        panics s o below none f = refl
        panics s o below (some r) f = absurd (omega (arith, below, f.0))
