-- ===== src/Queue/Defs.antt =====
-- internal/queue/queue.go, the data and the operations of `Queue`. Each method runs under the mutex,
-- so it is one step from a queue to a queue. The clock is an argument where the code reads it.
-- An instant is the number of nanoseconds since Go's zero time, so `IsZero` is `== 0`. An int64
-- counter is its 64-bit pattern, and `Add(1)` on it is addition modulo 2^64. A duration in a gauge
-- stands in nanoseconds.
use hotpod.Prelude.{
  ℕ, ◌+◌, ◌%◌, Bool, true, false, ◌||◌, Option, none, some, List, [], ◌∷◌, ◌++◌, length, ltb, ◌==◌,
  if◌then◌else◌,
}
use hotpod.Prelude.Int.{ℤ, pos, leb_ℤ, u64_mod, time_sub}
use hotpod.Prelude.Text.{Text, codes, text_eq}

abbrev pub priority_high : Text
priority_high = codes "high"

abbrev pub priority_normal : Text
priority_normal = codes "normal"

abbrev pub priority_low : Text
priority_low = codes "low"

pub data QueueError : Type 0 where
  queue_full : QueueError

pub record Item : Type 0 where
  pub id : Text
  pub priority : Text
  pub processing_time : ℤ
  pub enqueued_at : ℕ

-- The package-level metrics that the queue writes.
pub record Metrics : Type 0 where
  pub depth_gauge : ℕ
  pub high_gauge : ℕ
  pub normal_gauge : ℕ
  pub low_gauge : ℕ
  pub oldest_age_gauge : ℤ
  pub items_enqueued : ℕ
  pub items_processed : ℕ
  pub items_failed : ℕ

pub record Queue : Type 0 where
  pub max_depth : ℤ
  pub high : List Item
  pub normal : List Item
  pub low : List Item
  pub enqueued_total : ℕ
  pub processed_total : ℕ
  pub failed_total : ℕ
  pub paused : Bool
  pub metrics : Metrics

abbrev pub u64 : ℕ → ℕ
u64 n = n % u64_mod

unfoldable pub new : ℤ → Queue
new max_depth = record {
  max_depth = max_depth;
  high = [];
  normal = [];
  low = [];
  enqueued_total = 0;
  processed_total = 0;
  failed_total = 0;
  paused = false;
  metrics = record {
    depth_gauge = 0;
    high_gauge = 0;
    normal_gauge = 0;
    low_gauge = 0;
    oldest_age_gauge = pos 0;
    items_enqueued = 0;
    items_processed = 0;
    items_failed = 0;
  };
}

unfoldable pub depth : Queue → ℕ
depth q = length q.high + length q.normal + length q.low

-- One of the three tests of the search for the oldest item: it looks at a list's head.
unfoldable pub older_head : ℕ → List Item → ℕ
older_head oldest [] = oldest
older_head oldest (x ∷ _) =
    if oldest == 0 || ltb x.enqueued_at oldest then x.enqueued_at else oldest

-- The search that `Stats` and `updateMetrics` share; zero if the queue is empty.
unfoldable pub oldest : Queue → ℕ
unfolding older_head
oldest q = older_head (older_head (older_head 0 q.high) q.normal) q.low

-- The age of the oldest item, 0 where there is none.
unfoldable pub oldest_age : ℕ → Queue → ℤ
unfolding oldest
oldest_age now q = if oldest q == 0 then pos 0 else time_sub now (oldest q)

unfoldable pub update_metrics : ℕ → Queue → Queue
unfolding depth oldest_age
update_metrics now q = record q {
  metrics = record metrics {
    depth_gauge = depth q;
    high_gauge = length q.high;
    normal_gauge = length q.normal;
    low_gauge = length q.low;
    oldest_age_gauge = oldest_age now q;
  };
}
  where
    open q use {metrics}

-- The `switch` on the item's priority: any other text counts as normal, and is overwritten.
unfoldable pub append_item : Queue → Item → Queue
append_item q x =
    if text_eq x.priority priority_high
    then record q { high = q.high ++ x ∷ [] }
    else if text_eq x.priority priority_low
    then record q { low = q.low ++ x ∷ [] }
    else record q { normal = q.normal ++ record x { priority = priority_normal } ∷ [] }

count_enqueued : Queue → Queue
count_enqueued q = record q {
  enqueued_total = u64 (q.enqueued_total + 1);
  metrics = record metrics { items_enqueued = metrics.items_enqueued + 1 };
}
  where
    open q use {metrics}

unfoldable pub enqueue : ℕ → Queue → Item → Queue × Option QueueError
unfolding depth append_item count_enqueued
enqueue now q x =
    if leb_ℤ q.max_depth (pos (depth q))
    then (q, some queue_full)
    else (update_metrics now (count_enqueued (append_item q x)), none)

-- The chain of tests on the three lists, with the item taken off.
take_low : Queue → List Item → Queue × Option Item
take_low q [] = (q, none)
take_low q (x ∷ rest) = (record q { low = rest }, some x)

take_normal : Queue → List Item → Queue × Option Item
unfolding take_low
take_normal q [] = take_low q q.low
take_normal q (x ∷ rest) = (record q { normal = rest }, some x)

take_high : Queue → List Item → Queue × Option Item
unfolding take_normal
take_high q [] = take_normal q q.normal
take_high q (x ∷ rest) = (record q { high = rest }, some x)

-- `if item != nil { q.updateMetrics() }`
publish : ℕ → Queue × Option Item → Queue × Option Item
publish now (q, none) = (q, none)
publish now (q, some x) = (update_metrics now q, some x)

unfoldable pub dequeue : ℕ → Queue → Queue × Option Item
unfolding take_high publish
dequeue now q = if q.paused then (q, none) else publish now (take_high q q.high)

unfoldable pub mark_processed : Queue → Queue
mark_processed q = record q {
  processed_total = u64 (q.processed_total + 1);
  metrics = record metrics { items_processed = metrics.items_processed + 1 };
}
  where
    open q use {metrics}

unfoldable pub mark_failed : Queue → Queue
mark_failed q = record q {
  failed_total = u64 (q.failed_total + 1);
  metrics = record metrics { items_failed = metrics.items_failed + 1 };
}
  where
    open q use {metrics}

unfoldable pub depth_by_priority : Queue → ℕ × ℕ × ℕ
depth_by_priority q = (length q.high, length q.normal, length q.low)

pub record Stats : Type 0 where
  pub depth : ℕ
  pub high_depth : ℕ
  pub normal_depth : ℕ
  pub low_depth : ℕ
  pub enqueued_total : ℕ
  pub processed_total : ℕ
  pub failed_total : ℕ
  pub paused : Bool
  pub oldest_item_age : ℤ

unfoldable pub stats : ℕ → Queue → Stats
unfolding depth oldest_age
stats now q = record {
  depth = depth q;
  high_depth = length q.high;
  normal_depth = length q.normal;
  low_depth = length q.low;
  enqueued_total = q.enqueued_total;
  processed_total = q.processed_total;
  failed_total = q.failed_total;
  paused = q.paused;
  oldest_item_age = oldest_age now q;
}

unfoldable pub clear : ℕ → Queue → Queue × ℕ
unfolding depth
clear now q = (update_metrics now (record q { high = []; normal = []; low = [] }), depth q)

unfoldable pub pause : Queue → Queue
pause q = record q { paused = true }

unfoldable pub resume : Queue → Queue
resume q = record q { paused = false }

unfoldable pub is_paused : Queue → Bool
is_paused q = q.paused
