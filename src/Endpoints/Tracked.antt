-- ===== src/Endpoints/Tracked.antt =====
-- The load endpoints of internal/handlers and the tracker: what a request leaves in it.
use mathlib.Core.Option
use hotpod.Prelude.{ℕ, ◌+◌, ◌<◌, ◌≡◌, refl, ◌⊎◌, inl, inr, Option, some}
use hotpod.Prelude.Int.{ℤ, pos, ◌≤ℤ◌, ◌<ℤ◌, max_int64}
use hotpod.Prelude.Text.{Text, codes}
use hotpod.Prelude.Float.{Float, FloatArith}
use hotpod.Load.Defs.{Tracker, OpType, cpu, memory, io, latency, work, count, acquire, release}
use hotpod.Load.Limits.{IsKnown, acquire_cases, down-pos, counter_known, counter-set_self}
use hotpod.Files.Defs.{Disk}
use hotpod.Handlers.Response.{Response, answer, failed, Query}
use hotpod.Endpoints.Defs.{operate, handle}
use hotpod.Endpoints.Cpu.{read_cpu, run_cpu, cpu_handler}
use hotpod.Endpoints.Memory.{read_memory, run_memory, memory_handler}
use hotpod.Endpoints.Latency.{read_latency, run_latency, latency_handler}
use hotpod.Endpoints.Io.{read_io, run_io, io_handler}
use hotpod.Endpoints.Work.{Surroundings, WorkLimits, read_work, run_work, work_handler}

-- What a request comes to, where `n` operations of its type were running when it came, and `m` others are
-- when it ends.
abbrev pub Tracks :
    {P A : Type 0}
    → OpType
    → Tracker
    → ℕ
    → ℕ
    → Response P
    → (P → Option A)
    → Tracker × Option (Response A)
    → Type 0
Tracks op t n m request run (t', r) =
    ((status : ℕ) × (code : Text) × (request ≡ failed status code)
      × (r ≡ some (failed status code))
      × (t' ≡ t))
    ⊎ ((p : _) × (request ≡ answer p)
        × (((pos 0 <ℤ t.max_ops)
              × (t.max_ops ≤ℤ pos n)
              × (r ≡ some (failed 429 (codes "TOO_MANY_REQUESTS")))
              × (t' ≡ t))
            ⊎ (((t.max_ops ≤ℤ pos 0) ⊎ (pos n <ℤ t.max_ops))
                × (r ≡ Option.map (λ v. answer v) (run p))
                × (count t' op ≡ pos m))))

count-release :
    (t : Tracker) (op : OpType) (m : ℕ)
    → IsKnown op
    → count t op ≡ pos (m + 1)
    → m < max_int64
    → count (release t op) op ≡ pos m
unfolding release count
count-release t op m k e h =
    rw (counter_known t op (pos (m + 1)) k e, down-pos m h, release)
      (rw (counter-set_self t op (pos m) k, count) refl)

-- The tracker while the operation runs has one operation of its type more, and in the end `m` others.
abbrev pub Leaves : OpType → (Tracker → Tracker) → ℕ → ℕ → Type 0
Leaves op others n m = (t : Tracker) → count t op ≡ pos (n + 1) → count (others t) op ≡ pos (m + 1)

pub handle-Tracks :
    {P A : Type 0} (op : OpType) (t : Tracker) (n m : ℕ) (request : Response P) (run : P → Option A)
    (others : Tracker → Tracker)
    → IsKnown op
    → count t op ≡ pos n
    → n < max_int64
    → m < max_int64
    → Leaves op others n m
    → Tracks op t n m request run (handle op request run others t)
unfolding handle operate
handle-Tracks op t n m (failed status code) run others k e h h' l =
    inl (status, code, refl, refl, refl)
handle-Tracks op t n m (answer p) run others k e h h' l = inr (
  p,
  refl,
  elim (acquire_cases t op op n k e h) [
    | inl (limited, full, r, same) ↦ inl (limited, full, rw (r, operate) refl, rw (r, operate) same)
    | inr (free, r, more, back, same) ↦ inr (
      free,
      rw (r, operate) refl,
      rw (r, operate) (count-release (others (acquire t op).0) op m k (l (acquire t op).0 more) h'),
    )
  ],
)

-- The five handlers, with what each is given.
module _ {F : Type 0} ⦃fl : Float F⦄ where
  open fl use {nan}

  module _ ⦃fa : FloatArith F nan⦄ where
    -- Every request of the five load endpoints, whatever its parameters are and however its operation
    -- ends: refused parameters are answered as such and leave the tracker as it was; at the limit the
    -- answer is 429, exactly if the limit is above 0 and reached, and the tracker is left as it was; else
    -- the operation is answered, or panics, and in the end the tracker counts the operations of other
    -- requests and not this one, however those change it in between.
    pub handlers-Tracks :
        (duration : Text → Option ℤ) (parse_float : Text → Option F) (limits : WorkLimits)
        (max_io_size : ℤ) (d : Disk) (s : Surroundings) (random : ℕ) (u v w : F) (query : Query)
        (others : Tracker → Tracker) (t : Tracker) (n m : OpType → ℕ)
        → ((op : OpType)
            → IsKnown op
            → (count t op ≡ pos (n op))
              × (n op < max_int64)
              × (m op < max_int64)
              × Leaves op others (n op) (m op))
        → let cpu_request = read_cpu duration limits.max_cpu_duration query in
          let memory_request = read_memory duration limits.max_memory_size query in
          let latency_request = read_latency duration query in
          let io_request = read_io max_io_size query in
          let work_request = read_work limits parse_float u v w query in
          let run_memory' = run_memory s.words s.halves s.too_large s.memory_cancelled in
          Tracks cpu t
            (n cpu)
            (m cpu)
            cpu_request
            (run_cpu s.looks s.ended)
            (cpu_handler duration limits.max_cpu_duration s.looks s.ended query others t)
          × Tracks memory t (n memory) (m memory) memory_request run_memory' (
              memory_handler duration limits.max_memory_size s.words s.halves s.too_large
                s.memory_cancelled query others t)
          × Tracks latency t
              (n latency)
              (m latency)
              latency_request
              (run_latency random s.sleep_cancelled)
              (latency_handler duration random s.sleep_cancelled query others t)
          × Tracks io t
              (n io)
              (m io)
              io_request
              (run_io d)
              (io_handler max_io_size d query others t)
          × Tracks work t
              (n work)
              (m work)
              work_request
              (run_work s)
              (work_handler limits parse_float u v w s query others t)
    unfolding cpu_handler memory_handler latency_handler io_handler work_handler
    handlers-Tracks duration parse_float limits max_io_size d s random u v w query others t n m h =
        (
          tracks cpu tt _ _,
          tracks memory tt _ _,
          tracks latency tt _ _,
          tracks io tt _ _,
          tracks work tt _ _,
        )
      where
        tracks :
            {P A : Type 0} (op : OpType)
            → IsKnown op
            → (request : Response P) (run : P → Option A)
            → Tracks op t (n op) (m op) request run (handle op request run others t)
        tracks op k request run =
            let (e, l, l', leaves) = h op k in
            handle-Tracks op t (n op) (m op) request run others k e l l' leaves
