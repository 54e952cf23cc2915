-- ===== src/Workers/Defs.antt =====
-- internal/queue/worker.go: `WorkerPool` and its workers, cut at the points where a worker waits, reads its
-- context or calls the queue. A context is a number. `wg.Wait` of `Stop` returns once every worker is
-- gone. The memory and the CPU time that an item costs are kept as settings only.
use hotpod.Prelude.{
  ℕ, zero, suc, ◌+◌, ◌%◌, Bool, false, ◌||◌, Option, none, some, List, [], ◌∷◌, ◌++◌, if◌then◌else◌,
  ◌==◌,
}
use hotpod.Prelude.Int.{ℤ, pos, pos_part}
use hotpod.Queue.Defs.{Queue, Item, enqueue, dequeue, mark_processed, mark_failed}

-- Where a worker stands: before the test of its context, before `Dequeue`, in the pause after an empty
-- or paused queue, in `processItem`, or returned.
pub data Phase : Type 0 where
  polling choosing waiting : Phase
  working : Item → Phase
  gone : Phase

pub record Worker : Type 0 where
  pub context : ℕ
  pub phase : Phase

pub record WorkerPool : Type 0 where
  pub queue : Queue
  -- The bits of the int32.
  pub active_workers : ℕ
  -- The context that `cancel` ends, and `none` for nil.
  pub cancel : Option ℕ
  pub cpu_per_item : ℤ
  pub memory_per_item : ℤ
  pub workers : List Worker
  -- The contexts that are done, and the next one.
  pub ended : List ℕ
  pub contexts : ℕ

abbrev pub u32 : ℕ → ℕ
u32 n = n % 4294967296

unfoldable pub new_worker_pool : Queue → WorkerPool
new_worker_pool q = record {
  queue = q;
  active_workers = 0;
  cancel = none;
  cpu_per_item = pos 0;
  memory_per_item = pos 0;
  workers = [];
  ended = [];
  contexts = 0;
}

unfoldable pub is_done : ℕ → List ℕ → Bool
is_done c [] = false
is_done c (d ∷ ds) = c == d || is_done c ds

-- The result of `Dequeue`.
unfoldable pub took : ℕ → Queue × Option Item → Queue × ℕ × Phase
took active (q, none) = (q, active, waiting)
took active (q, some x) = (q, u32 (active + 1), working x)

-- One step of `worker`. `timer` tells which channel a `select` takes where both the timer and the context
-- are ready; where the context is not done, it is the timer.
unfoldable pub advance_worker : ℕ → Bool → Bool → Queue → ℕ → Phase → Queue × ℕ × Phase
unfolding took
advance_worker now timer done q active polling = (q, active, if done then gone else choosing)
advance_worker now timer done q active choosing = took active (dequeue now q)
advance_worker now timer done q active waiting =
    (q, active, if done then (if timer then polling else gone) else polling)
advance_worker now timer done q active (working x) = (
  (if done then (if timer then mark_processed q else mark_failed q) else mark_processed q),
  u32 (active + 4294967295),
  polling,
)
advance_worker now timer done q active gone = (q, active, gone)

unfoldable pub turn_of : List ℕ → ℕ → Bool → ℕ → Queue → ℕ → List Worker → Queue × ℕ × List Worker
unfolding advance_worker is_done
turn_of ended now timer i q active [] = (q, active, [])
turn_of ended now timer zero q active (w ∷ ws) =
    let (q', active', p) = advance_worker now timer (is_done w.context ended) q active w.phase in
    (q', active', record w { phase = p } ∷ ws)
turn_of ended now timer (suc i) q active (w ∷ ws) =
    let (q', active', ws') = turn_of ended now timer i q active ws in (q', active', w ∷ ws')

-- The part of `Stop` under the mutex.
unfoldable pub cancel_workers : WorkerPool → WorkerPool
cancel_workers p = elim p.cancel [
  | none ↦ p
  | some c ↦ record p { cancel = none; ended = c ∷ p.ended }
]

unfoldable pub spawn : ℕ → ℕ → List Worker
spawn c zero = []
spawn c (suc n) = record { context = c; phase = polling } ∷ spawn c n

-- The part of `Start` under the mutex, after its call of `Stop`.
unfoldable pub launch : ℤ → ℤ → ℤ → WorkerPool → WorkerPool
unfolding spawn
launch worker_count cpu memory p = record p {
  cpu_per_item = cpu;
  memory_per_item = memory;
  cancel = some p.contexts;
  contexts = suc p.contexts;
  workers = p.workers ++ spawn p.contexts (pos_part worker_count);
}

-- What happens to a pool: a step of a worker, the two halves of `Start` and `Stop`, and a call of the
-- queue's `Enqueue`.
pub data Event : Type 0 where
  turns : ℕ → ℕ → Bool → Event
  cancels : Event
  launches : ℤ → ℤ → ℤ → Event
  enqueues : ℕ → Item → Event

unfoldable pub handle_event : WorkerPool → Event → WorkerPool
unfolding turn_of cancel_workers launch
handle_event p (turns i now timer) =
    let (q, active, ws) = turn_of p.ended now timer i p.queue p.active_workers p.workers in
    record p { queue = q; active_workers = active; workers = ws }
handle_event p cancels = cancel_workers p
handle_event p (launches n cpu memory) = launch n cpu memory p
handle_event p (enqueues now x) = record p { queue = (enqueue now p.queue x).0 }

unfoldable pub run_events : WorkerPool → List Event → WorkerPool
unfolding handle_event
run_events p [] = p
run_events p (e ∷ es) = run_events (handle_event p e) es
