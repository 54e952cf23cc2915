-- ===== src/Queue/Totals.antt =====
-- The bounds and the books of internal/queue/queue.go: the depth stays within the limit, the gauges
-- show the depth, and no item gets lost between the counters.
use hotpod.Prelude.{ℕ, ◌+◌, ◌≡◌, ◌⊎◌, none, some, List, [], ◌∷◌, arith, length, length-append}
use hotpod.Prelude.Int.{ℤ, pos, ◌≤ℤ◌}
use hotpod.Queue.Defs
use hotpod.Queue.Defs.{
  Item, Queue, u64, new, depth, update_metrics, append_item, enqueue, dequeue, clear, pause, resume,
  mark_processed, mark_failed,
}
use hotpod.Queue.Spec.{
  Op, enqueues, dequeues, clears, pauses, resumes, marks_processed, marks_failed, Reply, stored,
  taken, cleared, step, run,
}

-- What the replies of a history say: items stored, items handed out, items thrown away.
abbrev pub stored_of : Reply → ℕ
stored_of (stored none) = 1
stored_of _ = 0

abbrev pub out_of : Reply → ℕ
out_of (taken (some x)) = 1
out_of (cleared n) = n
out_of _ = 0

abbrev pub total : (Reply → ℕ) → List Reply → ℕ
total f [] = 0
total f (r ∷ rs) = f r + total f rs

-- What holds of a queue between calls, over the counts of a history before it.
pub record Books (q : Queue) (came went : ℕ) : Type 0 where
  pub balanced : came ≡ depth q + went
  pub counted : q.enqueued_total ≡ u64 came
  pub exported : q.metrics.items_enqueued ≡ came
  pub within : (depth q ≡ 0) ⊎ (pos (depth q) ≤ℤ q.max_depth)
  pub depth_shown : q.metrics.depth_gauge ≡ depth q
  pub high_shown : q.metrics.high_gauge ≡ length q.high
  pub normal_shown : q.metrics.normal_gauge ≡ length q.normal
  pub low_shown : q.metrics.low_gauge ≡ length q.low

depth-append_item : (q : Queue) (x : Item) → depth (append_item q x) ≡ depth q + 1
unfolding depth append_item
depth-append_item q x = ground (
  arith,
  length-append q.high (x ∷ []),
  length-append q.low (x ∷ []),
  length-append q.normal (record x { priority = Defs.priority_normal } ∷ []),
)

enqueue-Books :
    (now : ℕ) (q : Queue) (x : Item) (came went : ℕ)
    → Books q came went
    → let (q', e) = enqueue now q x in Books q' (came + stored_of (stored e)) (went + 0)
unfolding enqueue update_metrics append_item
enqueue-Books now q x came went b =
    unfold depth in
    ground (
      arith,
      length-append q.high (x ∷ []),
      length-append q.low (x ∷ []),
      length-append q.normal (record x { priority = Defs.priority_normal } ∷ []),
    )

dequeue-Books :
    (now : ℕ) (q : Queue) (came went : ℕ)
    → Books q came went
    → let (q', x) = dequeue now q in Books q' (came + 0) (went + out_of (taken x))
unfolding dequeue update_metrics depth
dequeue-Books now q came went b = ground arith

step-Books :
    (q : Queue) (o : Op) (came went : ℕ)
    → Books q came went
    → let (q', r) = step q o in Books q' (came + stored_of r) (went + out_of r)
unfolding step
step-Books q (enqueues now x) came went b = enqueue-Books now q x came went b
step-Books q (dequeues now) came went b = dequeue-Books now q came went b
step-Books q (clears now) came went b = unfold clear update_metrics depth in ground arith
step-Books q pauses came went b = unfold pause depth in ground arith
step-Books q resumes came went b = unfold resume depth in ground arith
step-Books q marks_processed came went b = unfold mark_processed depth in ground arith
step-Books q marks_failed came went b = unfold mark_failed depth in ground arith

run_from-Books :
    (q : Queue) (os : List Op) (came went came' went' : ℕ)
    → came + total stored_of (run q os).1 ≡ came'
    → went + total out_of (run q os).1 ≡ went'
    → Books q came went
    → Books (run q os).0 came' went'
unfolding run
run_from-Books q [] came went came' went' c w b =
    let c' : came ≡ came' = omega arith in let w' : went ≡ went' = omega arith in rw (← c', ← w') b
run_from-Books q (o ∷ os) came went came' went' c w b =
    run_from-Books (step q o).0 os _ _ came' went' (omega arith) (omega arith)
      (step-Books q o came went b)

-- After any history of calls on a new queue: the items stored are those that wait, were handed out or
-- were cleared; the counter of enqueued items is their number modulo 2^64, and the exported one their
-- number; the depth is at most the limit (or 0, for a limit below 0); and the four depth gauges show
-- the depths of the queue and of its three lists.
pub run-Books :
    (max_depth : ℤ) (os : List Op)
    → let (q, rs) = run (new max_depth) os in Books q (total stored_of rs) (total out_of rs)
unfolding new
run-Books max_depth os =
    run_from-Books (new max_depth) os 0 0 _ _ (omega arith) (omega arith)
      (unfold depth in ground arith)
