-- ===== src/Load/Defs.antt =====
-- internal/load/tracker.go, the data and the operations of `Tracker`. The map of counters has five keys
-- that never change, so it is a record. `acquire` is a call whose load and compare-and-swap nobody
-- comes between; the module `Race` takes them apart. `release` is the function that `Acquire` returns.
use hotpod.Prelude.{Bool, ◌&&◌, Option, none, some, List, [], ◌∷◌, if◌then◌else◌}
use hotpod.Prelude.Int.{ℤ, pos, negsuc, ◌+ℤ◌, leb_ℤ, is_pos, wrap_int64}
use hotpod.Prelude.Text.{Text}

-- The five constants, and any other text.
pub data OpType : Type 0 where
  cpu memory io latency work : OpType
  other : Text → OpType

pub record Counters : Type 0 where
  pub cpu_ops : ℤ
  pub memory_ops : ℤ
  pub io_ops : ℤ
  pub latency_ops : ℤ
  pub work_ops : ℤ

pub record Tracker : Type 0 where
  pub max_ops : ℤ
  pub counts : Counters

unfoldable pub new_tracker : ℤ → Tracker
new_tracker max_ops = record {
  max_ops = max_ops;
  counts = record {
    cpu_ops = pos 0;
    memory_ops = pos 0;
    io_ops = pos 0;
    latency_ops = pos 0;
    work_ops = pos 0;
  };
}

-- `t.counts[op]`; `none` is the nil pointer of a key that is not there.
unfoldable pub counter : Tracker → OpType → Option ℤ
counter t cpu = some t.counts.cpu_ops
counter t memory = some t.counts.memory_ops
counter t io = some t.counts.io_ops
counter t latency = some t.counts.latency_ops
counter t work = some t.counts.work_ops
counter t (other _) = none

-- A write through the pointer.
unfoldable pub set_counter : Tracker → OpType → ℤ → Tracker
set_counter t cpu n = record t { counts = record (t.counts) { cpu_ops = n } }
set_counter t memory n = record t { counts = record (t.counts) { memory_ops = n } }
set_counter t io n = record t { counts = record (t.counts) { io_ops = n } }
set_counter t latency n = record t { counts = record (t.counts) { latency_ops = n } }
set_counter t work n = record t { counts = record (t.counts) { work_ops = n } }
set_counter t (other _) n = t

-- `t.maxOps > 0 && current >= int64(t.maxOps)`
unfoldable pub at_limit : ℤ → ℤ → Bool
at_limit max_ops current = is_pos max_ops && leb_ℤ max_ops current

-- `Add(1)` and `Add(-1)`.
unfoldable pub up : ℤ → ℤ
up n = wrap_int64 (n +ℤ pos 1)

unfoldable pub down : ℤ → ℤ
down n = wrap_int64 (n +ℤ negsuc 0)

-- `panic` is the nil dereference at a type that has no counter.
pub data Acquired : Type 0 where
  acquired too_many_ops panic : Acquired

unfoldable pub acquire : Tracker → OpType → Tracker × Acquired
unfolding counter set_counter at_limit up
acquire t op = elim (counter t op) [
  | none ↦ (t, panic)
  | some current ↦
      if at_limit t.max_ops current
      then (t, too_many_ops)
      else (set_counter t op (up current), acquired)
]

unfoldable pub release : Tracker → OpType → Tracker
unfolding counter set_counter down
release t op = elim (counter t op) [ none ↦ t | some current ↦ set_counter t op (down current) ]

unfoldable pub count : Tracker → OpType → ℤ
unfolding counter
count t op = elim (counter t op) [ none ↦ pos 0 | some n ↦ n ]

unfoldable pub counts : Tracker → List (OpType × ℤ)
counts t =
    (cpu, t.counts.cpu_ops)
    ∷ (memory, t.counts.memory_ops)
    ∷ (io, t.counts.io_ops)
    ∷ (latency, t.counts.latency_ops)
    ∷ (work, t.counts.work_ops)
    ∷ []
