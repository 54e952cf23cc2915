-- ===== src/Handlers/Examples.antt =====
-- Tests of internal/handlers, and the theorems about them at concrete calls.
use hotpod.Prelude.{
  ℕ, ◌≤◌, ◌≡◌, refl, ◌⊎◌, inr, true, false, Option, none, some, List, [], ◌∷◌, arith, if◌then◌else◌,
}
use hotpod.Prelude.Int.{ℤ, pos, pos_part, wrap_int64}
use hotpod.Prelude.Text.{Text, codes, text_eq}
use hotpod.Prelude.Float.{thousandths}
use hotpod.Queue.Defs.{update_metrics, Queue, new}
use hotpod.Lifecycle.Defs.{Lifecycle, new_lifecycle, is_ready, state_ready}
use hotpod.Fault.Injector.{new_injector, set_global_config, Injector, get_config, or_else}
use hotpod.Handlers.Response.{answer, failed, Query, given_count}
use hotpod.Handlers.QueueEndpoints.{Order, EnqueueResponse, enqueue_items}
use hotpod.Handlers.Enqueue.{Enqueues, enqueue_items_cases}
use hotpod.Handlers.Orders.{OrderAccepts}
use hotpod.Handlers.Admin.{
  Admin, ready, ready_report, reset_handler, queue_pause, queue_resume, error_rate, split_commas,
}
use hotpod.Handlers.Access.{Cleared, unauthorized, handlers-guarded, reset_handler-Cleared}
use hotpod.Prelude.Dict.{lookup}
use hotpod.Handlers.Health.{readyz, ready-unseen}
use hotpod.Fault.Effective.{Op, sets, sets_global, run}
use hotpod.Config.Defs.{default_config}
use hotpod.Handlers.Report.{
  AdminGcMemStats, collect_garbage, config_report, Tells, fault_report, fault_report-get_config,
}

abbrev duration : Text → Option ℤ
duration s = none

abbrev parse_float : Text → Option (Option ℕ)
parse_float s = none

abbrev query : Query
query key = if text_eq key (codes "count") then codes "3" else []

abbrev small : Queue
small = new (pos 2)

abbrev name : ℕ → ℕ → Text
name now i = now ∷ i ∷ []

test_count :
    given_count (codes "10001") (pos 1) (pos 10000) ≡ failed 400 (codes "INVALID_PARAMETER")
unfolding given_count
test_count = refl

test_split : split_commas (codes "500, 503") ≡ codes "500" ∷ codes " 503" ∷ []
unfolding split_commas
test_split = refl

test_fill :
    (enqueue_items duration name (λ i. i) 7 true query small).1
    ≡ answer (record {
      enqueued = 2;
      queue_depth = 2;
      estimated_process_time = pos 200000000;
      rejected = 1;
    })
unfolding enqueue_items new text_eq update_metrics wrap_int64
test_fill = refl

enqueue_items_cases_example :
    let (q', reply) = enqueue_items duration name (λ i. i) 7 true query small in
    ((true ≡ false) × (reply ≡ failed 403 (codes "QUEUE_DISABLED")) × (q' ≡ small))
    ⊎ ((true ≡ true)
        × (reply ≡ failed 400 (codes "INVALID_PARAMETER"))
        × (q' ≡ small)
        × ((o : Order) → OrderAccepts duration query o → ⊥))
    ⊎ ((true ≡ true)
        × (o : Order) × OrderAccepts duration query o
        × (1 ≤ pos_part o.count)
        × (pos_part o.count ≤ 10000)
        × (r : EnqueueResponse) × (reply ≡ answer r)
        × Enqueues o small q' r)
enqueue_items_cases_example = enqueue_items_cases duration name (λ i. i) 7 true query small

abbrev running : Lifecycle
running = (new_lifecycle 0 (pos 0) (pos 0) (pos 0) (pos 0) (pos 30) true).0

abbrev admin : Admin (Option ℕ)
admin = record {
  lifecycle = running;
  injector =
      set_global_config (some (record { rate = some 1000; codes = pos 503 ∷ []; expires_at = 0 }))
        new_injector;
  queue = some small;
  stops = 0;
}

abbrev set_false : Query
set_false key = codes "false"

is_running : running.state ≡ state_ready
unfolding new_lifecycle
is_running = refl

abbrev mem_counts : AdminGcMemStats
mem_counts = record { alloc = 1; sys = 2; num_gc = 3 }

handlers-guarded_example :
    (ready (codes "t") (codes "x") query admin ≡ (admin, unauthorized))
    × (reset_handler (codes "t") (codes "x") 5 admin ≡ (admin, unauthorized))
    × (queue_pause (codes "t") (codes "x") admin ≡ (admin, unauthorized))
    × (queue_resume (codes "t") (codes "x") admin ≡ (admin, unauthorized))
    × (error_rate (codes "t") (codes "x") parse_float duration 5 query admin
        ≡ (admin, unauthorized))
    × (collect_garbage (codes "t") (codes "x") mem_counts mem_counts ≡ unauthorized)
    × (config_report (codes "t") (codes "x") 5 default_config admin.injector (some small) (pos 1)
        ≡ unauthorized)
handlers-guarded_example =
    handlers-guarded (codes "t") (codes "x") parse_float duration 5 query admin mem_counts
      mem_counts default_config admin.injector (some small) (pos 1) (ground arith) (ground arith)

reset_handler-Cleared_example :
    Cleared 9 (some 1) 0 (codes "/cpu") admin small (reset_handler (codes "t") (codes "t") 5 admin)
reset_handler-Cleared_example =
    reset_handler-Cleared (codes "t") (codes "t") 5 9 (some 1) 0 (codes "/cpu") admin small
      (inr refl) refl

ready-unseen_example :
    let (a', reply) = ready (codes "t") (codes "t") set_false admin in
    (reply ≡ answer (ready_report a'.lifecycle))
    × (is_ready a'.lifecycle ≡ false)
    × ((readyz a'.lifecycle).code ≡ 200)
ready-unseen_example = ready-unseen (codes "t") set_false admin refl is_running

-- A rate for one endpoint, and one for all others.
abbrev rates : List (Op (Option ℕ))
rates =
    sets (codes "/cpu") (some (record { rate = some 500; codes = pos 502 ∷ []; expires_at = 40 }))
    ∷ sets_global (some (record { rate = some 1000; codes = []; expires_at = 0 }))
    ∷ []

fault_report-get_config_example :
    let inj : Injector (Option ℕ) = run new_injector rates in
    Tells
      (get_config 30 (codes "/cpu") inj)
      (or_else (lookup (codes "/cpu") (fault_report 30 inj).endpoints) (fault_report 30 inj).global)
fault_report-get_config_example = fault_report-get_config rates 30 (codes "/cpu")
