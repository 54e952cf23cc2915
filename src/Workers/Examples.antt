-- ===== src/Workers/Examples.antt =====
-- Tests of internal/queue/worker.go, and the theorems about it at concrete pools.
use hotpod.Prelude.{◌+◌, ◌*◌, arith, ◌≤◌, ◌≡◌, refl, true, false, List, [], ◌∷◌}
use hotpod.Prelude.Int.{pos}
use hotpod.Prelude.Text.{codes, text_eq}
use hotpod.Queue.Defs.{Queue, depth, Item, new, update_metrics, dequeue, enqueue, mark_failed}
use hotpod.Workers.Defs.{
  polling, choosing, gone, new_worker_pool, Event, turns, cancels, launches, enqueues, run_events,
}
use hotpod.Workers.Accounts.{held, Balanced, run_events-Balanced}
use hotpod.Workers.Alone.{alone, WorkedOff, alone-WorkedOff}
use hotpod.Workers.Leaving.{Found, phase_after, taken, marked, worker_ends}
use hotpod.Workers.Stopping.{alive, overlap-orphans}

abbrev job : Item
job = record { id = codes "1"; priority = codes "high"; processing_time = pos 5; enqueued_at = 3 }

-- One worker takes the item and is stopped while it works.
abbrev day : List Event
day =
    enqueues 3 job
    ∷ launches (pos 1) (pos 0) (pos 0)
    ∷ turns 0 4 true
    ∷ turns 0 5 true
    ∷ cancels
    ∷ turns 0 6 false
    ∷ []

test_failed : (run_events (new_worker_pool (new (pos 9))) day).queue.metrics.items_failed ≡ 1
unfolding run_events new_worker_pool new dequeue enqueue update_metrics text_eq mark_failed
test_failed = refl

run_events-Balanced_example : Balanced (run_events (new_worker_pool (new (pos 9))) day)
run_events-Balanced_example = run_events-Balanced (pos 9) day

abbrev found : Found
found = record { now = 4; timer = true; queue = new (pos 9); active = 0 }

worker_ends_example :
    (phase_after (found ∷ found ∷ found ∷ []) choosing ≡ gone)
    × (phase_after (found ∷ found ∷ found ∷ found ∷ []) choosing ≡ gone)
    × (taken (found ∷ found ∷ found ∷ found ∷ []) choosing ≤ 1)
    × (marked (found ∷ found ∷ found ∷ found ∷ []) choosing
        ≡ held choosing + taken (found ∷ found ∷ found ∷ found ∷ []) choosing)
worker_ends_example = worker_ends found found found (found ∷ []) choosing

overlap-orphans_example :
    2
    ≤ alive 0
        (run_events (new_worker_pool (new (pos 9))) (
          cancels
          ∷ cancels
          ∷ launches (pos 2) (pos 0) (pos 0)
          ∷ launches (pos 1) (pos 0) (pos 0)
          ∷ cancels
          ∷ turns 0 4 false
          ∷ [])).workers
overlap-orphans_example =
    overlap-orphans (new (pos 9)) (pos 2) (pos 1) (pos 0) (pos 0) (pos 0) (pos 0)
      (cancels ∷ turns 0 4 false ∷ [])

-- A queue that holds one item.
abbrev one_job : Queue
one_job = record (new (pos 9)) { high = job ∷ [] }

alone-WorkedOff_example :
    WorkedOff one_job 0 (alone (λ i. i + 3) (λ i. true) (3 * 1) 0 (one_job, 0, polling))
alone-WorkedOff_example =
    alone-WorkedOff (λ i. i + 3) (λ i. true) 1 0 one_job 0 (unfold depth new in refl)
      (unfold new in refl) (omega arith) (unfold new in omega arith)
