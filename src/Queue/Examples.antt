-- ===== src/Queue/Examples.antt =====
-- The queue of internal/queue/queue.go on a small history: witnesses and tests.
use hotpod.Prelude.{ℕ, ◌≡◌, refl, none, some, List, [], ◌∷◌, ◌≢◌, arith, Bool}
use hotpod.Prelude.Int
use hotpod.Prelude.Int.{pos, negsuc}
use hotpod.Prelude.Text.{Text, codes, text_eq}
use hotpod.Queue.Defs
use hotpod.Queue.Defs.{
  Item, Queue, new, depth, oldest, stats, enqueue, dequeue, clear, append_item, update_metrics,
  priority_high, priority_low, priority_normal,
}
use hotpod.Queue.Spec.{
  Line, Op, enqueues, dequeues, marks_processed, Reply, stored, taken, served, view, spec_run, run,
  step,
}
use hotpod.Queue.Order.{Serves, dequeue-run-Serves}
use hotpod.Queue.Refine.{run-refines}
use hotpod.Queue.Totals.{Books, total, stored_of, out_of, run-Books}
use hotpod.Queue.Oldest.{FindsOldest, oldest-run}

abbrev item : Text → Text → ℕ → Item
item id priority t = record {
  id = id;
  priority = priority;
  processing_time = pos 5;
  enqueued_at = t;
}

-- A low, an unknown and two high items; the limit of three turns the last one away.
abbrev history : List Op
history =
    enqueues 10 (item (codes "a") priority_low 10)
    ∷ enqueues 11 (item (codes "b") (codes "urgent") 11)
    ∷ enqueues 12 (item (codes "c") priority_high 12)
    ∷ enqueues 13 (item (codes "d") priority_high 13)
    ∷ dequeues 14
    ∷ marks_processed
    ∷ []

abbrev empty_line : Line
empty_line = record { max_depth = pos 3; items = []; paused = Bool.false }

run-refines_example :
    ((run (new (pos 3)) history).1 ≡ (spec_run empty_line history).1)
    × (view (run (new (pos 3)) history).0 ≡ (spec_run empty_line history).0)
run-refines_example = run-refines (pos 3) history

dequeue-run-Serves_example :
    Serves (run (new (pos 3)) history).0 (dequeue 20 (run (new (pos 3)) history).0)
dequeue-run-Serves_example = dequeue-run-Serves (pos 3) history 20

run-Books_example :
    let (q, rs) = run (new (pos 3)) history in Books q (total stored_of rs) (total out_of rs)
run-Books_example = run-Books (pos 3) history

oldest-run_example :
    let q = (run (new (pos 3)) history).0 in
    FindsOldest (oldest q) (served q)
    × ((served q ≡ []) → (stats 30 q).oldest_item_age ≡ pos 0)
    × ((served q ≢ []) → (stats 30 q).oldest_item_age ≡ Int.time_sub 30 (oldest q))
oldest-run_example = oldest-run (pos 3) history 30 (omega arith)

high_first :
    (run (new (pos 3)) history).1
    ≡ stored none
      ∷ stored none
      ∷ stored none
      ∷ stored (some Defs.queue_full)
      ∷ taken (some (item (codes "c") priority_high 12))
      ∷ Reply.done
      ∷ []
unfolding run step new enqueue dequeue depth append_item text_eq update_metrics
high_first = refl

oldest_is_the_low_item : (stats 30 (run (new (pos 3)) history).0).oldest_item_age ≡ pos 20
unfolding run step new enqueue dequeue depth append_item text_eq stats update_metrics oldest
    Int.time_sub Defs.mark_processed
oldest_is_the_low_item = refl

unknown_priority_is_normal :
    (run (new (pos 3)) history).0.normal ≡ item (codes "b") priority_normal 11 ∷ []
unfolding run step new enqueue dequeue depth append_item text_eq update_metrics Defs.mark_processed
unknown_priority_is_normal = refl

negative_limit_refuses :
    (enqueue 1 (new (negsuc 0)) (item (codes "a") priority_low 1)).1 ≡ some Defs.queue_full
unfolding new enqueue depth
negative_limit_refuses = refl
