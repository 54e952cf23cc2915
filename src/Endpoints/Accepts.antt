-- ===== src/Endpoints/Accepts.antt =====
-- Which parameters the load endpoints of internal/handlers accept, and what their orders come to.
use hotpod.Prelude.{◌≡◌, refl, inl, inr, true, false, Option, arith, Bool-cases, ◌||◌}
use hotpod.Prelude.Int.{ℤ, pos, negsuc, ◌≤ℤ◌, ltb_ℤ, is_neg}
use hotpod.Prelude.Text.{Text, codes}
use hotpod.Config.DirName.{is_empty}
use hotpod.Config.Parse.{parse_bool}
use hotpod.Handlers.Response.{Response, answer, Query, size_param, parse_duration}
use hotpod.Endpoints.Defs.{int_param}
use hotpod.Endpoints.Cpu.{CpuOrder, read_cpu, intensities}
use hotpod.Endpoints.Memory.{MemoryOrder, read_memory, patterns}
use hotpod.Endpoints.Io.{IoOrder, read_io, operations, bool_param}
use hotpod.Endpoints.Latency.{LatencyOrder, read_latency}
use hotpod.Endpoints.Checked.{
  OneOf, Capped, cap-Capped, Accepted, Checked, Checked->>=, Checked-reject, Checked-answer,
  or_invalid-Accepted, Read, parse_duration-Read, int_param-Read, size_param-Read,
  choice_param-Checked, word,
}

negative_given :
    {m : Response ℤ} (given other : ℤ)
    → is_neg given ≡ true
    → m ≡ answer given
    → m ≡ answer other
    → pos 0 ≤ℤ other
    → ⊥
negative_given (pos n) other b e e' l = cc
negative_given (negsuc n) (pos k) b e e' l = cc
negative_given (negsuc n) (negsuc k) b e e' l = omega (arith, l)

abbrev pub CpuAccepts : (Text → Option ℤ) → ℤ → Query → CpuOrder → Type 0
CpuAccepts duration maximum query o =
    ((given : ℤ) × (parse_duration duration query (codes "duration") (pos 1000000000)
        ≡ answer given)
      × (pos 0 ≤ℤ given)
      × Capped maximum given o.duration o.limit_applied)
    × (int_param query (codes "cores") (pos 1) ≡ answer o.cores)
    × (pos 1 ≤ℤ o.cores)
    × (o.intensity ≡ word query (codes "intensity") (codes "medium"))
    × OneOf o.intensity intensities

read_cpu-Checked :
    (duration : Text → Option ℤ) (maximum : ℤ) (query : Query)
    → Checked
        (CpuAccepts duration maximum query)
        (CpuAccepts duration maximum query)
        (read_cpu duration maximum query)
unfolding read_cpu
read_cpu-Checked duration maximum query =
    Checked->>= (parse_duration-Read query (codes "duration") duration (pos 1000000000))
      (λ no o a. no a.0.0 a.0.1)
      λ given e.
        Checked-reject (λ b o a. negative_given given a.0.0 b e a.0.1 a.0.2)
          λ (n : is_neg given ≡ false).
            Checked->>= (int_param-Read query (codes "cores") (pos 1)) (λ no o a. no o.cores a.1)
              λ cores e2.
                Checked-reject (λ b o a. ground arith)
                  λ (n2 : ltb_ℤ cores (pos 1) ≡ false).
                    Checked->>=
                      (choice_param-Checked query (codes "intensity") (codes "medium") intensities)
                      (λ no o a. no o.intensity (a.3, a.4))
                      λ intensity c. Checked-answer (
                        (given, e, ground arith, cap-Capped maximum given),
                        e2,
                        ground arith,
                        c.0,
                        c.1,
                      )

abbrev pub MemoryAccepts : (Text → Option ℤ) → ℤ → Query → MemoryOrder → Type 0
MemoryAccepts duration maximum query o =
    ((given : ℤ) × (size_param query (codes "size") (pos 10485760) ≡ answer given)
      × (pos 0 ≤ℤ given)
      × Capped maximum given o.size o.limit_applied)
    × (parse_duration duration query (codes "duration") (pos 10000000000) ≡ answer o.duration)
    × (pos 0 ≤ℤ o.duration)
    × (o.pattern ≡ word query (codes "pattern") (codes "random"))
    × OneOf o.pattern patterns

read_memory-Checked :
    (duration : Text → Option ℤ) (maximum : ℤ) (query : Query)
    → Checked
        (MemoryAccepts duration maximum query)
        (MemoryAccepts duration maximum query)
        (read_memory duration maximum query)
unfolding read_memory
read_memory-Checked duration maximum query =
    Checked->>= (size_param-Read query (codes "size") (pos 10485760)) (λ no o a. no a.0.0 a.0.1)
      λ given e.
        Checked-reject (λ b o a. negative_given given a.0.0 b e a.0.1 a.0.2)
          λ (n : is_neg given ≡ false).
            Checked->>= (parse_duration-Read query (codes "duration") duration (pos 10000000000))
              (λ no o a. no o.duration a.1)
              λ time e2.
                Checked-reject (λ b o a. negative_given time o.duration b e2 a.1 a.2)
                  λ (n2 : is_neg time ≡ false).
                    Checked->>=
                      (choice_param-Checked query (codes "pattern") (codes "random") patterns)
                      (λ no o a. no o.pattern (a.3, a.4))
                      λ pattern c. Checked-answer (
                        (given, e, ground arith, cap-Capped maximum given),
                        e2,
                        ground arith,
                        c.0,
                        c.1,
                      )

abbrev pub LatencyAccepts : (Text → Option ℤ) → Query → LatencyOrder → Type 0
LatencyAccepts duration query o =
    (parse_duration duration query (codes "duration") (pos 100000000) ≡ answer o.duration)
    × (parse_duration duration query (codes "jitter") (pos 0) ≡ answer o.jitter)
    × (int_param query (codes "status") (pos 200) ≡ answer o.status)
    × (pos 100 ≤ℤ o.status)
    × (o.status ≤ℤ pos 599)

read_latency-Checked :
    (duration : Text → Option ℤ) (query : Query)
    → Checked
        (LatencyAccepts duration query)
        (LatencyAccepts duration query)
        (read_latency duration query)
unfolding read_latency
read_latency-Checked duration query =
    Checked->>= (parse_duration-Read query (codes "duration") duration (pos 100000000))
      (λ no o a. no o.duration a.0)
      λ time e.
        Checked->>= (parse_duration-Read query (codes "jitter") duration (pos 0))
          (λ no o a. no o.jitter a.1)
          λ jitter e2.
            Checked->>= (int_param-Read query (codes "status") (pos 200))
              (λ no o a. no o.status a.2)
              λ status e3.
                Checked-reject (λ b o a. ground arith)
                  λ (n : (ltb_ℤ status (pos 100) || ltb_ℤ (pos 599) status) ≡ false).
                    Checked-answer (e, e2, e3, ground arith, ground arith)

abbrev pub IoAccepts : ℤ → Query → IoOrder → Type 0
IoAccepts maximum query o =
    ((given : ℤ) × (size_param query (codes "size") (pos 10485760) ≡ answer given)
      × (pos 0 ≤ℤ given)
      × Capped maximum given o.size o.limit_applied)
    × (o.operation ≡ word query (codes "operation") (codes "write"))
    × OneOf o.operation operations
    × (bool_param query (codes "sync") ≡ answer o.do_sync)

bool_param-Read : (query : Query) (key : Text) → Read (bool_param query key)
unfolding bool_param
bool_param-Read query key = record {
  passed = elim (Bool-cases (is_empty (query key))) [
    | inl e ↦ rw e refl
    | inr e ↦ rw e (or_invalid-Accepted (parse_bool (query key)))
  ];
}

read_io-Checked :
    (maximum : ℤ) (query : Query)
    → Checked (IoAccepts maximum query) (IoAccepts maximum query) (read_io maximum query)
unfolding read_io
read_io-Checked maximum query =
    Checked->>= (size_param-Read query (codes "size") (pos 10485760)) (λ no o a. no a.0.0 a.0.1)
      λ given e.
        Checked-reject (λ b o a. negative_given given a.0.0 b e a.0.1 a.0.2)
          λ (n : is_neg given ≡ false).
            Checked->>= (choice_param-Checked query (codes "operation") (codes "write") operations)
              (λ no o a. no o.operation (a.1, a.2))
              λ operation c.
                Checked->>= (bool_param-Read query (codes "sync")) (λ no o a. no o.do_sync a.3)
                  λ do_sync e2.
                    Checked-answer
                      ((given, e, ground arith, cap-Capped maximum given), c.0, c.1, e2)

-- A request to one of the four endpoints is accepted exactly if some order is acceptable for it, and is
-- then that order; else it is refused with 400 INVALID_PARAMETER. Acceptable is what was read as it
-- stands or by default, where no time of `/cpu` and `/memory` and no size is below 0, `/cpu` has at least
-- one core, the status of `/latency` is from 100 to 599, and words are among those that are known. A limit
-- that is above 0 is kept, and the flag says exactly whether it changed the value that was given.
pub requests-Accepted :
    (duration : Text → Option ℤ) (max_cpu max_memory max_io : ℤ) (query : Query)
    → Accepted
        (CpuAccepts duration max_cpu query)
        (CpuAccepts duration max_cpu query)
        (read_cpu duration max_cpu query)
      × Accepted
          (MemoryAccepts duration max_memory query)
          (MemoryAccepts duration max_memory query)
          (read_memory duration max_memory query)
      × Accepted
          (LatencyAccepts duration query)
          (LatencyAccepts duration query)
          (read_latency duration query)
      × Accepted (IoAccepts max_io query) (IoAccepts max_io query) (read_io max_io query)
requests-Accepted duration max_cpu max_memory max_io query = (
  (read_cpu-Checked duration max_cpu query).passed,
  (read_memory-Checked duration max_memory query).passed,
  (read_latency-Checked duration query).passed,
  (read_io-Checked max_io query).passed,
)
