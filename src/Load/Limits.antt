-- ===== src/Load/Limits.antt =====
-- What `Acquire` and the release function of internal/load/tracker.go do to the counters.
use hotpod.Prelude.{ℕ, ◌+◌, ◌<◌, ◌≡◌, refl, ap, ◌⊎◌, inl, inr, ◌≢◌, true, false, some, arith}
use hotpod.Prelude.Int.{ℤ, pos, negsuc, ◌≤ℤ◌, ◌<ℤ◌, max_int64, wrap_int64}
use hotpod.Load.Defs.{
  OpType, cpu, memory, io, latency, work, other, Tracker, counter, set_counter, at_limit, up, down,
  acquired, too_many_ops, acquire, release, count,
}

pub up-pos : (n : ℕ) → n < max_int64 → up (pos n) ≡ pos (n + 1)
unfolding up wrap_int64
up-pos n h = ground arith

pub down-pos : (n : ℕ) → n < max_int64 → down (pos (n + 1)) ≡ pos n
unfolding down wrap_int64
down-pos n h = ground arith

-- A type that has a counter.
abbrev pub IsKnown : OpType → Type 0
IsKnown (other s) = ⊥
IsKnown _ = Unit

pub at_limit-cases :
    (max_ops : ℤ) (n : ℕ)
    → ((pos 0 <ℤ max_ops) × (max_ops ≤ℤ pos n) × (at_limit max_ops (pos n) ≡ true))
      ⊎ (((max_ops ≤ℤ pos 0) ⊎ (pos n <ℤ max_ops)) × (at_limit max_ops (pos n) ≡ false))
unfolding at_limit
at_limit-cases (pos m) n = ground arith
at_limit-cases (negsuc m) n = ground arith

-- The record of counters is read and written like the map.
module _ (t : Tracker) where
  pub counter_known : (op : OpType) (n : ℤ) → IsKnown op → count t op ≡ n → counter t op ≡ some n
  unfolding count counter
  counter_known cpu n k e = ap some e
  counter_known memory n k e = ap some e
  counter_known io n k e = ap some e
  counter_known latency n k e = ap some e
  counter_known work n k e = ap some e
  counter_known (other s) n k e = elim k [ ]

  pub counter-set_self :
      (op : OpType) (n : ℤ) → IsKnown op → counter (set_counter t op n) op ≡ some n
  unfolding counter set_counter
  counter-set_self cpu n k = refl
  counter-set_self memory n k = refl
  counter-set_self io n k = refl
  counter-set_self latency n k = refl
  counter-set_self work n k = refl
  counter-set_self (other s) n k = elim k [ ]

  set-set_self :
      (op : OpType) (n m : ℤ) → counter t op ≡ some m → set_counter (set_counter t op n) op m ≡ t
  unfolding counter set_counter
  set-set_self cpu n m e = ground arith
  set-set_self memory n m e = ground arith
  set-set_self io n m e = ground arith
  set-set_self latency n m e = ground arith
  set-set_self work n m e = ground arith
  set-set_self (other s) n m e = refl

  count-set_ne :
      (op other_op : OpType) (n : ℤ)
      → op ≢ other_op
      → count (set_counter t op n) other_op ≡ count t other_op
  unfolding count set_counter
  count-set_ne op other_op n d = grind arith

-- A call of `Acquire` for a known type, with `n` operations of that type running: it is refused
-- exactly when the limit is above 0 and `n` has reached it, and then changes nothing; else it adds one
-- operation of this type, leaves the counts of all others, and its release takes the tracker back to
-- where it was.
pub acquire_cases :
    (t : Tracker) (op other_op : OpType) (n : ℕ)
    → IsKnown op
    → count t op ≡ pos n
    → n < max_int64
    → let (t', r) = acquire t op in
      (((pos 0 <ℤ t.max_ops) × (t.max_ops ≤ℤ pos n) × (r ≡ too_many_ops) × (t' ≡ t))
        ⊎ (((t.max_ops ≤ℤ pos 0) ⊎ (pos n <ℤ t.max_ops))
            × (r ≡ acquired)
            × (count t' op ≡ pos (n + 1))
            × (release t' op ≡ t)
            × ((op ≢ other_op) → count t' other_op ≡ count t other_op)))
unfolding acquire release count
acquire_cases t op other_op n k e h = elim (at_limit-cases t.max_ops n) [
  | inl (some_limit, reached, full) ↦
      rw (counter_known t op (pos n) k e, full, acquire) (inl (some_limit, reached, refl, refl))
  | inr (open_end, free) ↦
      rw (counter_known t op (pos n) k e, free, acquire)
        (inr (
          open_end,
          refl,
          rw (up-pos n h) (rw (counter-set_self t op (pos (n + 1)) k, count) refl),
          rw (up-pos n h) (
              rw (counter-set_self t op (pos (n + 1)) k, release)
                (rw (down-pos n h)
                  (set-set_self t op (pos (n + 1)) (pos n) (counter_known t op (pos n) k e)))),
          count-set_ne t op other_op _,
        ))
]
