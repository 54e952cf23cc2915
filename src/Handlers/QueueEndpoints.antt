-- ===== src/Handlers/QueueEndpoints.antt =====
-- internal/handlers/queue.go: the handlers of `QueueHandlers`, as functions of the queue. The start of the
-- workers is the second part of what `process` results in. Durations are in nanoseconds, not printed.
use hotpod.Prelude.{ℕ, zero, suc, Bool, true, false, not, ◌&&◌, Option, none, some, if◌then◌else◌}
use hotpod.Prelude.Int.{ℤ, pos, pos_part, ◌*ℤ◌, wrap_int64}
use hotpod.Prelude.Text.{Text, codes, text_eq}
use hotpod.Config.DirName.{is_empty}
use hotpod.Queue.Defs.{
  Queue, Item, Stats, priority_high, priority_normal, priority_low, depth, enqueue, stats, clear,
}
use hotpod.Handlers.Response.{
  Response, answer, failed, ◌>>=◌, ◌>>◌, reject, Query, invalid_parameter, count_param,
  parse_duration, size_param,
}

pub record EnqueueResponse : Type 0 where
  pub enqueued : ℕ
  pub queue_depth : ℕ
  pub estimated_process_time : ℤ
  pub rejected : ℕ

abbrev queue_disabled : Text
queue_disabled = codes "QUEUE_DISABLED"

-- What a call of `/queue/enqueue` asks for.
pub record Order : Type 0 where
  pub count : ℤ
  pub processing_time : ℤ
  pub priority : Text

unfoldable pub read_priority : Query → Response Text
unfolding is_empty
read_priority query =
    let given = query (codes "priority") in
    let priority = if is_empty given then priority_normal else given in
    if not (text_eq priority priority_high)
      && not (text_eq priority priority_normal)
      && not (text_eq priority priority_low)
    then failed 400 invalid_parameter
    else answer priority

-- The part of `Enqueue` before its loop. `duration` is `time.ParseDuration`.
unfoldable pub read_order : (Text → Option ℤ) → Bool → Query → Response Order
unfolding count_param parse_duration read_priority
read_order duration enabled query = do
  reject (not enabled) 403 queue_disabled
  count ← count_param query (codes "count") (pos 1) (pos 10000) (pos 1)
  time ← parse_duration duration query (codes "processing_time") (pos 100000000)
  priority ← read_priority query
  answer (record { count = count; processing_time = time; priority = priority })

-- The loop of `Enqueue` from its round `i` on, with `n` rounds left. `clock` is the clock that the
-- queue reads in a round.
unfoldable pub enqueue_each : (ℕ → ℕ) → (ℕ → Item) → ℕ → ℕ → Queue → ℕ → ℕ → Queue × ℕ × ℕ
unfolding enqueue
enqueue_each clock item zero i q enqueued rejected = (q, enqueued, rejected)
enqueue_each clock item (suc n) i q enqueued rejected =
    let (q', error) = enqueue (clock i) q (item i) in
    elim error [
      | some _ ↦ enqueue_each clock item n (suc i) q' enqueued (suc rejected)
      | none ↦ enqueue_each clock item n (suc i) q' (suc enqueued) rejected
    ]

-- `id` is what `fmt.Sprintf` makes of the time and the round, and `now` the clock at the start.
unfoldable pub new_item : (ℕ → ℕ → Text) → ℕ → Order → ℕ → Item
new_item id now order i = record {
  id = id now i;
  priority = order.priority;
  processing_time = order.processing_time;
  enqueued_at = now;
}

unfoldable pub fill : (ℕ → ℕ → Text) → (ℕ → ℕ) → ℕ → Order → Queue → Queue × EnqueueResponse
unfolding enqueue_each new_item depth
fill id clock now order q =
    let (q', enqueued, rejected) =
      enqueue_each clock (new_item id now order) (pos_part order.count) 0 q 0 0 in
    (
      q',
      record {
        enqueued = enqueued;
        queue_depth = depth q';
        estimated_process_time = wrap_int64 (pos (depth q') *ℤ order.processing_time);
        rejected = rejected;
      },
    )

-- `Enqueue`
unfoldable pub enqueue_items :
    (Text → Option ℤ)
    → (ℕ → ℕ → Text)
    → (ℕ → ℕ)
    → ℕ
    → Bool
    → Query
    → Queue
    → Queue × Response EnqueueResponse
unfolding read_order fill
enqueue_items duration id clock now enabled query q = elim (read_order duration enabled query) [
  | failed status code ↦ (q, failed status code)
  | answer order ↦ let (q', response) = fill id clock now order q in (q', answer response)
]

-- The arguments of `workerPool.Start`, which are the answer too.
pub record ProcessResponse : Type 0 where
  pub workers : ℤ
  pub cpu_per_item : ℤ
  pub memory_per_item : ℤ

unfoldable pub process : (Text → Option ℤ) → ℤ → Bool → Query → Response ProcessResponse
unfolding count_param parse_duration size_param
process duration default_workers enabled query = do
  reject (not enabled) 403 queue_disabled
  workers ← count_param query (codes "workers") (pos 1) (pos 100) default_workers
  cpu ← parse_duration duration query (codes "cpu_per_item") (pos 0)
  memory ← size_param query (codes "memory_per_item") (pos 0)
  answer (record { workers = workers; cpu_per_item = cpu; memory_per_item = memory })

pub record StatusResponse : Type 0 where
  pub stats : Stats
  pub active_workers : ℤ

unfoldable pub status : ℕ → ℤ → Bool → Queue → Response StatusResponse
unfolding stats
status now active_workers enabled q = do
  reject (not enabled) 403 queue_disabled
  answer (record { stats = stats now q; active_workers = active_workers })

pub record ClearResponse : Type 0 where
  pub cleared : ℕ
  pub queue_depth : ℕ

-- `Clear`
unfoldable pub clear_items : ℕ → Bool → Queue → Queue × Response ClearResponse
unfolding clear depth
clear_items now false q = (q, failed 403 queue_disabled)
clear_items now true q =
    let (q', cleared) = clear now q in
    (q', answer (record { cleared = cleared; queue_depth = depth q' }))
