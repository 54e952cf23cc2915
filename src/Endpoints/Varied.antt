-- ===== src/Endpoints/Varied.antt =====
-- The orders of `/work` (internal/handlers/work.go), and when holding memory panics.
use hotpod.Prelude.{
  ℕ, ◌≡◌, refl, subst, ◌⊎◌, inl, inr, Bool, true, false, ◌||◌, Option, none, some, arith,
  Option-cases,
}
use hotpod.Prelude.Int.{ℤ, pos, negsuc, ◌≤ℤ◌, ◌<ℤ◌}
use hotpod.Prelude.Text.{Text, codes}
use hotpod.Prelude.Dict.{lookup}
use hotpod.Prelude.Float.{Float, FloatArith}
use hotpod.Handlers.Response.{answer, failed, Query, invalid_parameter}
use hotpod.Endpoints.Cpu.{burn_cpu, is_canceled}
use hotpod.Endpoints.Memory.{hold_memory, fill_memory}
use hotpod.Endpoints.Fill.{Filled, random_bytes, fill_memory-Filled}
use hotpod.Endpoints.Work.{
  Profile, work_profiles, read_profile, WorkLimits, WorkOrder, WorkResponse, Surroundings,
  run_workload, run_work, apply_variance, new_order, read_work,
}
use hotpod.Endpoints.Checked.{
  Capped, cap-Capped, Accepted, Checked, Checked->>=, Checked-answer, word,
}
use hotpod.Endpoints.Ranged.{IsFraction, variance_param-Checked}

-- Random memory is held exactly if `make` gives it.
abbrev pub Held : ℤ → Bool → Bool → Option Bool → Type 0
Held size too_large cancelled none = (size <ℤ pos 0) ⊎ (too_large ≡ true)
Held size too_large cancelled (some cut) = (pos 0 ≤ℤ size) × (too_large ≡ false) × (cut ≡ cancelled)

hold_memory-Held :
    (words halves : ℕ → ℕ) (too_large cancelled : Bool) (size : ℤ)
    → Held size too_large cancelled
        (hold_memory words halves too_large cancelled size (codes "random"))
unfolding hold_memory
hold_memory-Held words halves too_large cancelled (negsuc n) = inl (omega arith)
hold_memory-Held words halves true cancelled (pos n) = inr refl
hold_memory-Held words halves false cancelled (pos n) =
    elim (Option-cases (fill_memory words halves (codes "random") n (λ i. 0))) [
      | inl e ↦ absurd (
          subst (Filled n (random_bytes words halves n)) e
            (fill_memory-Filled words halves n (λ i. 0)).2)
      | inr (b, e) ↦ rw e (omega arith, refl, refl)
    ]

module _ (query : Query) where
  abbrev pub IsProfile : Text × Profile → Type 0
  IsProfile (name, profile) =
      (name ≡ word query (codes "profile") (codes "web"))
      × (lookup name work_profiles ≡ some profile)

  looked_up :
      (name : Text) (found : Option Profile)
      → lookup name work_profiles ≡ found
      → name ≡ word query (codes "profile") (codes "web")
      → Accepted IsProfile IsProfile (elim found [
        | none ↦ failed 400 invalid_parameter
        | some profile ↦ answer (name, profile)
      ])
  looked_up name none e w = (refl, refl, λ p a. cc)
  looked_up name (some profile) e w = (w, e)

  read_profile-Checked : Checked IsProfile IsProfile (read_profile query)
  unfolding read_profile
  read_profile-Checked = record { passed = looked_up _ _ refl refl }

module _ {F : Type 0} ⦃fl : Float F⦄ where
  open fl use {zero_F, nan}

  module _ ⦃fa : FloatArith F nan⦄ where
    -- What is accepted as the order of a request, given the three random numbers.
    abbrev pub WorkAccepts :
        WorkLimits → (Text → Option F) → F → F → F → Query → WorkOrder F → Type 0
    WorkAccepts limits parse_float u v w query o =
        IsProfile query (o.profile_name, o.profile)
        × IsFraction parse_float zero_F (query (codes "variance")) o.variance
        × ((cpu_capped memory_capped : Bool) × Capped limits.max_cpu_duration
              (apply_variance u o.profile.cpu_duration o.variance) o.cpu_duration cpu_capped
            × Capped limits.max_memory_size (apply_variance v o.profile.memory_size o.variance)
                o.memory_size memory_capped
            × (o.limits_applied ≡ (cpu_capped || memory_capped)))
        × (o.latency ≡ apply_variance w o.profile.latency o.variance)

    read_work-Checked :
        (limits : WorkLimits) (parse_float : Text → Option F) (u v w : F) (query : Query)
        → Checked
            (WorkAccepts limits parse_float u v w query)
            (WorkAccepts limits parse_float u v w query)
            (read_work limits parse_float u v w query)
    unfolding read_work new_order
    read_work-Checked limits parse_float u v w query =
        Checked->>= (read_profile-Checked query) (λ no o a. no (o.profile_name, o.profile) a.0)
          λ chosen e.
            Checked->>= (variance_param-Checked parse_float query) (λ no o a. no o.variance a.1)
              λ variance q.
                Checked-answer ((e.0, e.1), q, (_, _, cap-Capped _ _, cap-Capped _ _, refl), refl)

    abbrev pub Runs : Surroundings → WorkOrder F → Option (WorkResponse F) → Type 0
    Runs s o none = (o.memory_size <ℤ pos 0) ⊎ (s.too_large ≡ true)
    Runs s o (some r) =
        (pos 0 ≤ℤ o.memory_size)
        × (s.too_large ≡ false)
        × (r.order ≡ o)
        × (r.cancelled ≡ (is_canceled s.ended || s.memory_cancelled || s.sleep_cancelled))

    pub run_work-Runs : (s : Surroundings) (o : WorkOrder F) → Runs s o (run_work s o)
    unfolding run_work run_workload burn_cpu
    run_work-Runs s o =
        let held =
          hold_memory s.words s.halves s.too_large s.memory_cancelled o.memory_size
            (codes "random") in
        let fact = hold_memory-Held s.words s.halves s.too_large s.memory_cancelled o.memory_size in
        elim (Option-cases held) [
          | inl e ↦
              rw (e, run_workload, run_work)
                (subst (Held o.memory_size s.too_large s.memory_cancelled) e fact)
          | inr (cut, e) ↦
              let (size, room, same) =
                subst (Held o.memory_size s.too_large s.memory_cancelled) e fact in
              rw (e, run_workload, run_work) (size, room, refl, rw same refl)
        ]

    -- A request to `/work` is accepted exactly if some order is acceptable for it, and is then that order;
    -- else it is refused with 400 INVALID_PARAMETER. Acceptable is a profile of the table, and a variance
    -- that is not below 0 nor above 1; the duration and the size are those of the profile, varied, and
    -- limited where the limit is above 0. Such an order, once it runs, ends the process exactly if its size
    -- is below 0 or `make` cannot give that much.
    pub work-Runs :
        (limits : WorkLimits) (parse_float : Text → Option F) (u v w : F) (query : Query)
        (s : Surroundings) (o : WorkOrder F)
        → Accepted
            (WorkAccepts limits parse_float u v w query)
            (WorkAccepts limits parse_float u v w query)
            (read_work limits parse_float u v w query)
          × Runs s o (run_work s o)
    work-Runs limits parse_float u v w query s o =
        ((read_work-Checked limits parse_float u v w query).passed, run_work-Runs s o)
