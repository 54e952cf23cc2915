-- ===== src/Handlers/Report.antt =====
-- The handlers of internal/handlers/admin.go that only report: `GC` and `Config`. What the runtime counts is
-- an argument; instants and durations are in nanoseconds, not printed.
use mathlib.Core.Option
use hotpod.Prelude.{
  ℕ, ◌≡◌, refl, sym, ap, ◌∙◌, Bool, true, false, Option, none, some, List, [], ◌∷◌, ◌==◌,
  if◌then◌else◌, Bool-cases, inl, inr, ◌⊎◌, ◌≢◌, subst, arith,
}
use hotpod.Prelude.Int.{ℤ, pos}
use hotpod.Prelude.Text.{Text, codes, text_eq}
use hotpod.Prelude.Dict.{lookup}
use hotpod.Prelude.Float.{Float}
use hotpod.Config.Validate.{Config}
use hotpod.Queue.Defs.{Queue, depth}
use hotpod.Fault.Injector.{
  ErrorConfig, Injector, new_injector, get_config, get_global_config, get_endpoint_configs, or_else,
}
use hotpod.Fault.Effective.{Op, run, get_config-run}
use hotpod.Handlers.Response.{Response, answer, ◌>>=◌}
use hotpod.Handlers.Admin.{authenticate}
use hotpod.Endpoints.SizeText.{format_size}

pub record AdminGcMemStats : Type 0 where
  pub alloc : ℕ
  pub sys : ℕ
  pub num_gc : ℕ

pub record AdminGcResponse : Type 0 where
  pub before : AdminGcMemStats
  pub after : AdminGcMemStats

-- `GC`, by what the runtime counts before and after its collection.
unfoldable pub collect_garbage :
    Text → Text → AdminGcMemStats → AdminGcMemStats → Response AdminGcResponse
unfolding authenticate
collect_garbage token given before after = do
  _ ← authenticate token given
  answer (record { before = before; after = after })

pub record AdminConfigFaultEndpoint (F : Type 0) : Type 0 where
  pub rate : F
  pub codes : List ℤ
  pub expires_at : Option ℕ

pub record AdminConfigFault (F : Type 0) : Type 0 where
  pub global : Option (AdminConfigFaultEndpoint F)
  pub endpoints : List (Text × AdminConfigFaultEndpoint F)

-- What is not set is left out of the answer.
pub record AdminConfigQueue : Type 0 where
  pub available : Bool
  pub depth : ℕ
  pub paused : Bool
  pub workers : ℤ

pub record AdminConfigLimits : Type 0 where
  pub max_cpu_duration : ℤ
  pub max_memory_size : Text
  pub max_io_size : Text
  pub max_concurrent_ops : ℤ
  pub request_timeout : ℤ

pub record AdminConfigSidecar : Type 0 where
  pub cpu_baseline : ℤ
  pub cpu_jitter : ℤ
  pub memory_baseline : Text
  pub request_overhead : ℤ

pub record AdminConfigResponse (F : Type 0) : Type 0 where
  pub mode : Text
  pub limits : AdminConfigLimits
  pub fault : AdminConfigFault F
  pub queue : AdminConfigQueue
  -- `none` for a server that is not a sidecar.
  pub sidecar : Option AdminConfigSidecar

unfoldable pub queue_report : Option Queue → ℤ → AdminConfigQueue
unfolding depth
queue_report none workers = record { available = false; depth = 0; paused = false; workers = pos 0 }
queue_report (some q) workers = record {
  available = true;
  depth = depth q;
  paused = q.paused;
  workers = workers;
}

unfoldable pub limits_report : Config → AdminConfigLimits
unfolding format_size
limits_report c = record {
  max_cpu_duration = c.max_cpu_duration;
  max_memory_size = format_size c.max_memory_size;
  max_io_size = format_size c.max_io_size;
  max_concurrent_ops = c.max_concurrent_ops;
  request_timeout = c.request_timeout;
}

unfoldable pub sidecar_report : Config → Option AdminConfigSidecar
unfolding text_eq format_size
sidecar_report c =
    if text_eq c.mode (codes "sidecar")
    then some (record {
      cpu_baseline = c.sidecar_cpu_baseline;
      cpu_jitter = c.sidecar_cpu_jitter;
      memory_baseline = format_size c.sidecar_memory_baseline;
      request_overhead = c.sidecar_request_overhead;
    })
    else none

module _ {F : Type 0} where
  unfoldable pub shown : ErrorConfig F → AdminConfigFaultEndpoint F
  shown c = record {
    rate = c.rate;
    codes = c.codes;
    expires_at = if c.expires_at == 0 then none else some c.expires_at;
  }

  unfoldable pub shown_each : List (Text × ErrorConfig F) → List (Text × AdminConfigFaultEndpoint F)
  unfolding shown
  shown_each [] = []
  shown_each ((endpoint, c) ∷ rest) = (endpoint, shown c) ∷ shown_each rest

  unfoldable pub fault_report : ℕ → Injector F → AdminConfigFault F
  unfolding get_global_config get_endpoint_configs shown_each
  fault_report now inj = record {
    global = Option.map (λ c. shown c) (get_global_config now inj);
    endpoints = shown_each (get_endpoint_configs now inj);
  }

  -- `Config`
  unfoldable pub config_report :
      Text → Text → ℕ → Config → Injector F → Option Queue → ℤ → Response (AdminConfigResponse F)
  unfolding authenticate fault_report queue_report limits_report sidecar_report
  config_report token given now c inj q workers = do
    _ ← authenticate token given
    answer (record {
      mode = c.mode;
      limits = limits_report c;
      fault = fault_report now inj;
      queue = queue_report q workers;
      sidecar = sidecar_report c;
    })

  -- What the report says of a configuration: its rate, its codes, and its end if it has one.
  abbrev pub Tells : Option (ErrorConfig F) → Option (AdminConfigFaultEndpoint F) → Type 0
  Tells none none = Unit
  Tells (some c) (some e) =
      (e.rate ≡ c.rate)
      × (e.codes ≡ c.codes)
      × (((c.expires_at ≡ 0) × (e.expires_at ≡ none))
          ⊎ ((c.expires_at ≢ 0) × (e.expires_at ≡ some c.expires_at)))
  Tells _ _ = ⊥

  shown-Tells : (c : Option (ErrorConfig F)) → Tells c (Option.map (λ d. shown d) c)
  unfolding shown
  shown-Tells none = tt
  shown-Tells (some c) = elim (Bool-cases (c.expires_at == 0)) [
    | inl e ↦ (refl, refl, rw e (inl (ground arith, refl)))
    | inr e ↦ (refl, refl, rw e (inr (ground arith, refl)))
  ]

  shown_each-Tells :
      (endpoint : Text) (m : List (Text × ErrorConfig F))
      → Tells (lookup endpoint m) (lookup endpoint (shown_each m))
  unfolding shown_each lookup
  shown_each-Tells endpoint [] = tt
  shown_each-Tells endpoint ((k, c) ∷ m) = elim (Bool-cases (text_eq k endpoint)) [
    | inl e ↦ rw e (shown-Tells (some c))
    | inr e ↦ rw e (shown_each-Tells endpoint m)
  ]

  or_else-Tells :
      (x y : Option (ErrorConfig F)) (a b : Option (AdminConfigFaultEndpoint F))
      → Tells x a
      → Tells y b
      → Tells (or_else x y) (or_else a b)
  unfolding or_else
  or_else-Tells none y none b h k = k
  or_else-Tells (some c) y (some e) b h k = h
  or_else-Tells none y (some e) b h k = elim h [ ]
  or_else-Tells (some c) y none b h k = elim h [ ]

module _ {F : Type 0} ⦃fl : Float F⦄ where
  -- After any history of settings on a new injector, the report of the configuration tells what fails
  -- requests: its entry for an endpoint, or its global entry if it has none for that, has the rate, the codes
  -- and the end, if any, of the configuration that is in effect for the endpoint at that instant; and
  -- it has neither if none is in effect.
  pub fault_report-get_config :
      (os : List (Op F)) (now : ℕ) (endpoint : Text)
      → let inj = run new_injector os in
        Tells
          (get_config now endpoint inj)
          (or_else (lookup endpoint (fault_report now inj).endpoints) (fault_report now inj).global)
  unfolding fault_report
  fault_report-get_config os now endpoint =
      let inj = run new_injector os in
      let (met, own, all) = get_config-run os now endpoint in
      let listed = shown_each-Tells endpoint (get_endpoint_configs now inj) in
      let global = shown-Tells (get_global_config now inj) in
      subst
        (λ c. Tells c (
          or_else (lookup endpoint (fault_report now inj).endpoints) (fault_report now inj).global))
        (ap (λ x. or_else x (get_global_config now inj)) own ∙ ap (or_else _) all ∙ sym met)
        (or_else-Tells _ _ _ _ listed global)
