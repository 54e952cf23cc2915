-- ===== src/Workers/Accounts.antt =====
-- The accounting of the worker pool of internal/queue/worker.go.
use hotpod.Prelude.{
  ℕ, zero, suc, ◌+◌, ◌≡◌, refl, Bool, true, false, List, [], ◌∷◌, ◌++◌, arith, Option-cases,
  if◌then◌else◌, Bool-cases, inl, inr,
}
use hotpod.Prelude.Int.{ℤ, leb_ℤ, pos, pos_part}
use hotpod.Queue.Defs.{
  append_item, Queue, Item, new, depth, enqueue, dequeue, mark_processed, mark_failed,
  update_metrics,
}
use hotpod.Handlers.Enqueue.{append_item-depth}
use hotpod.Workers.Defs.{
  Phase, polling, choosing, waiting, working, gone, Worker, WorkerPool, u32, new_worker_pool,
  is_done, took, advance_worker, turn_of, cancel_workers, spawn, launch, Event, turns, cancels,
  launches, enqueues, handle_event, run_events,
}

-- The items that workers hold.
abbrev pub held : Phase → ℕ
held (working x) = 1
held polling = 0
held choosing = 0
held waiting = 0
held gone = 0

abbrev pub in_hand : List Worker → ℕ
in_hand [] = 0
in_hand (w ∷ ws) = held w.phase + in_hand ws

-- What became of the items that left a queue, and what came in and is not there.
abbrev pub settled : Queue → ℕ
settled q = depth q + q.metrics.items_processed + q.metrics.items_failed

abbrev came : Queue → ℕ
came q = q.metrics.items_enqueued

dequeue-settled :
    (now : ℕ) (q : Queue) (active rest : ℕ)
    → active ≡ u32 (rest + 0)
    → let (q', active', p) = took active (dequeue now q) in
      (settled q + 0 ≡ settled q' + held p) × (came q' ≡ came q) × (active' ≡ u32 (rest + held p))
unfolding dequeue depth update_metrics took
dequeue-settled now q active rest h = ground arith

mark-settled :
    (done timer : Bool) (q : Queue)
    → let q' =
        (if done then (if timer then mark_processed q else mark_failed q) else mark_processed q) in
      (settled q' ≡ suc (settled q)) × (came q' ≡ came q)
unfolding mark_processed mark_failed depth
mark-settled true true q = (omega arith, refl)
mark-settled true false q = (omega arith, refl)
mark-settled false timer q = (omega arith, refl)

-- One worker's step moves an item between the queue, the worker and the two totals.
advance-settled :
    (now : ℕ) (timer done : Bool) (q : Queue) (active rest : ℕ) (p : Phase)
    → active ≡ u32 (rest + held p)
    → let (q', active', p') = advance_worker now timer done q active p in
      (settled q + held p ≡ settled q' + held p')
      × (came q' ≡ came q)
      × (active' ≡ u32 (rest + held p'))
unfolding advance_worker
advance-settled now timer true q active rest polling h = (refl, refl, h)
advance-settled now timer false q active rest polling h = (refl, refl, h)
advance-settled now timer done q active rest choosing h = dequeue-settled now q active rest h
advance-settled now true true q active rest waiting h = (refl, refl, h)
advance-settled now false true q active rest waiting h = (refl, refl, h)
advance-settled now timer false q active rest waiting h = (refl, refl, h)
advance-settled now timer done q active rest (working x) h =
    let (s, c) = mark-settled done timer q in (omega (arith, s), c, omega (arith, h))
advance-settled now timer done q active rest gone h = (refl, refl, h)

turn-settled :
    (ended : List ℕ) (now : ℕ) (timer : Bool) (i : ℕ) (q : Queue) (active rest : ℕ)
    (ws : List Worker)
    → active ≡ u32 (rest + in_hand ws)
    → let (q', active', ws') = turn_of ended now timer i q active ws in
      (settled q + in_hand ws ≡ settled q' + in_hand ws')
      × (came q' ≡ came q)
      × (active' ≡ u32 (rest + in_hand ws'))
unfolding turn_of
turn-settled ended now timer i q active rest [] h = (refl, refl, h)
turn-settled ended now timer zero q active rest (w ∷ ws) h =
    let (s, c, a) =
      advance-settled now timer (is_done w.context ended) q active (rest + in_hand ws) w.phase
        (omega (arith, h)) in
    (omega (arith, s), c, omega (arith, a))
turn-settled ended now timer (suc i) q active rest (w ∷ ws) h =
    let (s, c, a) =
      turn-settled ended now timer i q active (rest + held w.phase) ws (omega (arith, h)) in
    (omega (arith, s), c, omega (arith, a))

append_item-metrics : (q : Queue) (x : Item) → (append_item q x).metrics ≡ q.metrics
unfolding append_item
append_item-metrics q x = ground arith

enqueue-settled :
    (now : ℕ) (q : Queue) (x : Item) (n : ℕ)
    → came q ≡ settled q + n
    → came (enqueue now q x).0 ≡ settled (enqueue now q x).0 + n
unfolding enqueue update_metrics
enqueue-settled now q x n h = elim (Bool-cases (leb_ℤ q.max_depth (pos (depth q)))) [
  | inl full ↦ rw full h
  | inr room ↦
      let d = append_item-depth q x in
      let m = append_item-metrics q x in rw (room, m) (omega (arith, h, d))
]

spawn-in_hand : (c n : ℕ) → in_hand (spawn c n) ≡ 0
unfolding spawn
spawn-in_hand c zero = refl
spawn-in_hand c (suc n) = omega (arith, spawn-in_hand c n)

in_hand-append : (xs ys : List Worker) → in_hand (xs ++ ys) ≡ in_hand xs + in_hand ys
in_hand-append [] ys = omega arith
in_hand-append (x ∷ xs) ys = omega (arith, in_hand-append xs ys)

-- Every item that came in is in the queue, in a worker's hand, or counted as processed or failed; and the
-- number of active workers is the number of items in hand, modulo 2^32.
abbrev pub Balanced : WorkerPool → Type 0
Balanced p =
    (p.queue.metrics.items_enqueued
      ≡ depth p.queue
        + p.queue.metrics.items_processed
        + p.queue.metrics.items_failed
        + in_hand p.workers)
    × (p.active_workers ≡ u32 (in_hand p.workers))

handle-Balanced : (p : WorkerPool) (e : Event) → Balanced p → Balanced (handle_event p e)
unfolding handle_event cancel_workers launch
handle-Balanced p (turns i now timer) (b, a) =
    let (s, c, a') =
      turn-settled p.ended now timer i p.queue p.active_workers 0 p.workers (omega (arith, a)) in
    (omega (arith, s, c, b), omega (arith, a'))
handle-Balanced p cancels b = elim (Option-cases p.cancel) [ inl e ↦ rw e b | inr (c, e) ↦ rw e b ]
handle-Balanced p (launches n cpu memory) (b, a) =
    let fresh = spawn p.contexts (pos_part n) in
    let e : in_hand (p.workers ++ fresh) ≡ in_hand p.workers =
      omega (arith, in_hand-append p.workers fresh, spawn-in_hand p.contexts (pos_part n)) in
    (omega (arith, b, e), omega (arith, a, e))
handle-Balanced p (enqueues now x) (b, a) = (enqueue-settled now p.queue x (in_hand p.workers) b, a)

run_from-Balanced : (p : WorkerPool) (es : List Event) → Balanced p → Balanced (run_events p es)
unfolding run_events
run_from-Balanced p [] b = b
run_from-Balanced p (e ∷ es) b = run_from-Balanced (handle_event p e) es (handle-Balanced p e b)

-- After any sequence of steps of the workers, of the halves of `Start` and `Stop`, and of calls of
-- `Enqueue` on a new queue and a new pool, every item that was let in is in the queue, in the hand of one
-- worker, or counted once as processed or failed; and the number of active workers is the number of items
-- in hand, modulo 2^32.
pub run_events-Balanced :
    (max_depth : ℤ) (es : List Event) → Balanced (run_events (new_worker_pool (new max_depth)) es)
unfolding new_worker_pool new depth
run_events-Balanced max_depth es =
    run_from-Balanced (new_worker_pool (new max_depth)) es (refl, refl)
