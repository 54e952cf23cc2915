-- ===== src/Queue/Refine.antt =====
-- The methods of internal/queue/queue.go refine the abstract queue, call by call and over histories.
use hotpod.Prelude.{ℕ, ◌≡◌, refl, false, List, [], ◌∷◌, ◌++◌, arith, length, length-append}
use hotpod.Prelude.Int.{ℤ}
use hotpod.Queue.Defs.{
  Item, Queue, new, depth, update_metrics, append_item, enqueue, dequeue, clear, pause, resume,
  mark_processed, mark_failed,
}
use hotpod.Queue.Spec.{
  Line, Op, enqueues, dequeues, clears, pauses, resumes, marks_processed, marks_failed, served,
  view, IsSorted, spec_enqueue, spec_dequeue, step, spec_step, run, spec_run,
}
use hotpod.Queue.Insert.{append_item-served, append_item-IsSorted}

pub depth-served : (q : Queue) → depth q ≡ length (served q)
unfolding depth
depth-served q =
    omega (arith, length-append q.high (q.normal ++ q.low), length-append q.normal q.low)

-- What `append_item` leaves alone.
append_item-rest :
    (q : Queue) (x : Item)
    → ((append_item q x).max_depth ≡ q.max_depth) × ((append_item q x).paused ≡ q.paused)
unfolding append_item
append_item-rest q x = ground arith

enqueue-refines :
    (now : ℕ) (q : Queue) (x : Item)
    → IsSorted q
    → (view (enqueue now q x).0 ≡ (spec_enqueue (view q) x).0)
      × ((enqueue now q x).1 ≡ (spec_enqueue (view q) x).1)
      × IsSorted (enqueue now q x).0
unfolding enqueue spec_enqueue view update_metrics
enqueue-refines now q x v = ground (
  arith,
  depth-served q,
  append_item-served q x v,
  append_item-rest q x,
  append_item-IsSorted q x v,
)

-- `view` of a queue is its service order and its switches, whatever the counters and gauges.
dequeue-refines :
    (now : ℕ) (q : Queue)
    → IsSorted q
    → (view (dequeue now q).0 ≡ (spec_dequeue (view q)).0)
      × ((dequeue now q).1 ≡ (spec_dequeue (view q)).1)
      × IsSorted (dequeue now q).0
unfolding dequeue spec_dequeue view update_metrics
dequeue-refines now q v = ground arith

clear-refines :
    (now : ℕ) (q : Queue)
    → (view (clear now q).0 ≡ record (view q) { items = [] })
      × ((clear now q).1 ≡ length (served q))
      × IsSorted (clear now q).0
unfolding clear view update_metrics
clear-refines now q = ground (arith, depth-served q)

step-refines :
    (q : Queue) (o : Op)
    → IsSorted q
    → (view (step q o).0 ≡ (spec_step (view q) o).0)
      × ((step q o).1 ≡ (spec_step (view q) o).1)
      × IsSorted (step q o).0
unfolding step spec_step
step-refines q (enqueues now x) v = ground (arith, enqueue-refines now q x v)
step-refines q (dequeues now) v = ground (arith, dequeue-refines now q v)
step-refines q (clears now) v = unfold view in ground (arith, clear-refines now q)
step-refines q pauses v = unfold pause view in ground arith
step-refines q resumes v = unfold resume view in ground arith
step-refines q marks_processed v = unfold mark_processed view in ground arith
step-refines q marks_failed v = unfold mark_failed view in ground arith

run_from-refines :
    (q : Queue) (os : List Op)
    → IsSorted q
    → (view (run q os).0 ≡ (spec_run (view q) os).0)
      × ((run q os).1 ≡ (spec_run (view q) os).1)
      × IsSorted (run q os).0
unfolding run spec_run
run_from-refines q [] v = (refl, refl, v)
run_from-refines q (o ∷ os) v =
    let (same, told, sorted) = step-refines q o v in
    let (same', told', sorted') = run_from-refines (step q o).0 os sorted in (cc, cc, sorted')

-- In every history of calls on a new queue, each call replies what the abstract queue replies, and
-- the queue ends with the same items in the same service order, and paused or not alike.
pub run-refines :
    (max_depth : ℤ) (os : List Op)
    → let l : Line = record { max_depth = max_depth; items = []; paused = false } in
      ((run (new max_depth) os).1 ≡ (spec_run l os).1)
      × (view (run (new max_depth) os).0 ≡ (spec_run l os).0)
unfolding new view
run-refines max_depth os =
    let (same, told, _) =
      run_from-refines (new max_depth) os
        (record { high_only = tt; normal_only = tt; low_only = tt }) in
    (told, same)

pub run-IsSorted : (max_depth : ℤ) (os : List Op) → IsSorted (run (new max_depth) os).0
unfolding new
run-IsSorted max_depth os =
    (run_from-refines (new max_depth) os
      (record { high_only = tt; normal_only = tt; low_only = tt })).2
