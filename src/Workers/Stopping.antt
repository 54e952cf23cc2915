-- ===== src/Workers/Stopping.antt =====
-- What becomes of workers of internal/queue/worker.go where calls of `Start` overlap.
use hotpod.Prelude.{
  ℕ, zero, suc, ◌+◌, ◌<◌, ◌≤◌, ◌≡◌, ◌≢◌, refl, ap, ◌∙◌, sym, subst, Bool, true, false, Option, none,
  some, List, [], ◌∷◌, ◌++◌, arith, if◌then◌else◌, Bool-cases, Option-cases, inl, inr, ◌==◌,
}
use hotpod.Prelude.Int.{ℤ, pos_part}
use hotpod.Queue.Defs.{Queue, Item, dequeue}
use hotpod.Workers.Defs.{
  new_worker_pool, Phase, polling, choosing, waiting, working, gone, Worker, WorkerPool, is_done,
  took, advance_worker, turn_of, cancel_workers, spawn, launch, Event, turns, cancels, launches,
  enqueues, handle_event, run_events,
}

-- The workers of a context that have not returned.
abbrev pub stays : Phase → ℕ
stays gone = 0
stays polling = 1
stays choosing = 1
stays waiting = 1
stays (working x) = 1

abbrev pub alive : ℕ → List Worker → ℕ
alive c [] = 0
alive c (w ∷ ws) = (if w.context == c then stays w.phase else 0) + alive c ws

took-stays : (active : ℕ) (r : Queue × Option Item) → stays (took active r).2 ≡ 1
unfolding took
took-stays active (q, none) = refl
took-stays active (q, some x) = refl

advance-stays :
    (now : ℕ) (timer : Bool) (q : Queue) (active : ℕ) (p : Phase)
    → stays (advance_worker now timer false q active p).2 ≡ stays p
unfolding advance_worker
advance-stays now timer q active polling = refl
advance-stays now timer q active choosing = took-stays active (dequeue now q)
advance-stays now timer q active waiting = refl
advance-stays now timer q active (working x) = refl
advance-stays now timer q active gone = refl

-- A context that nothing can end any more: it is not done, and `cancel` is about another one.
abbrev pub Lost : ℕ → WorkerPool → Type 0
Lost c p = (is_done c p.ended ≡ false) × (p.cancel ≢ some c) × (c < p.contexts)

turn-alive :
    (c : ℕ) (ended : List ℕ) (now : ℕ) (timer : Bool) (i : ℕ) (q : Queue) (active : ℕ)
    (ws : List Worker)
    → is_done c ended ≡ false
    → alive c (turn_of ended now timer i q active ws).2 ≡ alive c ws
unfolding turn_of
turn-alive c ended now timer i q active [] h = refl
turn-alive c ended now timer (suc i) q active (w ∷ ws) h =
    omega (arith, turn-alive c ended now timer i q active ws h)
turn-alive c ended now timer zero q active (w ∷ ws) h = elim (Bool-cases (w.context == c)) [
  | inr e ↦ rw e refl
  | inl e ↦
      let same : w.context ≡ c = ground (arith, e) in
      let open' : is_done w.context ended ≡ false =
        subst (λ x. is_done x ended ≡ false) (sym same) h in
      ap (λ n. n + alive c ws) (rw (e, open') (advance-stays now timer q active w.phase))
]

alive-append : (c : ℕ) (xs ys : List Worker) → alive c (xs ++ ys) ≡ alive c xs + alive c ys
alive-append c [] ys = omega arith
alive-append c (x ∷ xs) ys = omega (arith, alive-append c xs ys)

spawn-alive_own : (c n : ℕ) → alive c (spawn c n) ≡ n
unfolding spawn
spawn-alive_own c zero = refl
spawn-alive_own c (suc n) =
    let e : (c == c) ≡ true = ground arith in rw e (omega (arith, spawn-alive_own c n))

cancel-Lost :
    (c : ℕ) (p : WorkerPool)
    → Lost c p
    → Lost c (cancel_workers p) × (alive c p.workers ≤ alive c (cancel_workers p).workers)
unfolding cancel_workers is_done
cancel-Lost c p (d, n, l) = elim (Option-cases p.cancel) [
  | inl e ↦ rw (e, cancel_workers) ((d, ground arith, l), omega arith)
  | inr (k, e) ↦
      let apart : c ≢ k = λ same. n (e ∙ ap some (sym same)) in
      let test : (c == k) ≡ false = ground (arith, apart) in
      rw (e, cancel_workers) ((rw test d, ground arith, l), omega arith)
]

handle-Lost :
    (c : ℕ) (p : WorkerPool) (e : Event)
    → Lost c p
    → Lost c (handle_event p e) × (alive c p.workers ≤ alive c (handle_event p e).workers)
unfolding handle_event launch
handle-Lost c p (turns i now timer) (d, n, l) = (
  (d, n, l),
  omega (arith, turn-alive c p.ended now timer i p.queue p.active_workers p.workers d),
)
handle-Lost c p cancels lost = cancel-Lost c p lost
handle-Lost c p (launches m cpu memory) (d, n, l) = (
  (d, ground arith, omega arith),
  omega (arith, alive-append c p.workers (spawn p.contexts (pos_part m))),
)
handle-Lost c p (enqueues now x) (d, n, l) = ((d, n, l), omega arith)

run-Lost :
    (c : ℕ) (p : WorkerPool) (es : List Event)
    → Lost c p
    → Lost c (run_events p es) × (alive c p.workers ≤ alive c (run_events p es).workers)
unfolding run_events
run-Lost c p [] lost = (lost, omega arith)
run-Lost c p (e ∷ es) lost =
    let (next, kept) = handle-Lost c p e lost in
    let (last, kept') = run-Lost c (handle_event p e) es next in (last, omega (arith, kept, kept'))

-- Two calls of `Start` on a new pool that overlap, so that both end their call of `Stop` before either
-- takes the mutex again: then no later event makes a worker of the first call return, so that a `Stop`
-- waits for ever.
pub overlap-orphans :
    (q : Queue) (n n' cpu cpu' memory memory' : ℤ) (es : List Event)
    → pos_part n
      ≤ alive 0
          (run_events
            (new_worker_pool q)
            (cancels ∷ cancels ∷ launches n cpu memory ∷ launches n' cpu' memory' ∷ es)).workers
unfolding run_events handle_event new_worker_pool cancel_workers launch is_done
overlap-orphans q n n' cpu cpu' memory memory' es =
    let p =
      run_events (new_worker_pool q)
        (cancels ∷ cancels ∷ launches n cpu memory ∷ launches n' cpu' memory' ∷ []) in
    let (_, kept) = run-Lost 0 p es (refl, ground arith, omega arith) in
    omega (
      arith,
      kept,
      spawn-alive_own 0 (pos_part n),
      alive-append 0 (spawn 0 (pos_part n)) (spawn 1 (pos_part n')),
    )
