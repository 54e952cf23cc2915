-- ===== src/Workers/Alone.antt =====
-- A worker of internal/queue/worker.go that nobody stops, on the queue of internal/queue/queue.go.
use hotpod.Prelude.{
  ℕ, zero, suc, ◌+◌, ◌*◌, ◌%◌, ◌<◌, ◌≡◌, refl, sym, subst, ◌∙◌, Bool, false, Option, none, some,
  arith,
}
use hotpod.Prelude.Int.{u64_mod}
use hotpod.Queue.Defs.{Queue, Item, depth, dequeue, mark_processed, update_metrics}
use hotpod.Workers.Defs.{Phase, polling, advance_worker, took}

-- What `Dequeue` does to a queue that holds an item and is not paused.
abbrev Takes : Queue → Queue × Option Item → Type 0
Takes q (q', none) = ⊥
Takes q (q', some x) =
    (q'.paused ≡ false) × (depth q ≡ suc (depth q')) × (q'.processed_total ≡ q.processed_total)

dequeue-Takes : (now : ℕ) (q : Queue) → q.paused ≡ false → 0 < depth q → Takes q (dequeue now q)
unfolding dequeue depth update_metrics
dequeue-Takes now q p h = ground arith

mark_processed-keeps :
    (q : Queue)
    → ((mark_processed q).paused ≡ q.paused)
      × (depth (mark_processed q) ≡ depth q)
      × ((mark_processed q).processed_total ≡ (q.processed_total + 1) % u64_mod)
unfolding mark_processed depth
mark_processed-keeps q = (refl, refl, refl)

-- Some steps of a worker whose context is not done, from step `i` on.
abbrev pub alone : (ℕ → ℕ) → (ℕ → Bool) → ℕ → ℕ → Queue × ℕ × Phase → Queue × ℕ × Phase
alone clock timer zero i s = s
alone clock timer (suc n) i (q, active, p) =
    alone clock timer n (suc i) (advance_worker (clock i) (timer i) false q active p)

-- The queue is worked off: the worker looks for more, and the counters have moved by what there was.
abbrev pub WorkedOff : Queue → ℕ → Queue × ℕ × Phase → Type 0
WorkedOff q active (q', active', p) =
    (p ≡ polling)
    × (depth q' ≡ 0)
    × (q'.paused ≡ false)
    × (active' ≡ active)
    × (q'.processed_total ≡ (q.processed_total + depth q) % u64_mod)

-- The steps that take and settle one item.
abbrev OneOff : Queue → ℕ → Queue × ℕ × Phase → Type 0
OneOff q active (q', active', p) =
    (p ≡ polling)
    × (depth q ≡ suc (depth q'))
    × (q'.paused ≡ false)
    × (active' ≡ active)
    × (q'.processed_total ≡ (q.processed_total + 1) % u64_mod)

one_off :
    (clock : ℕ → ℕ) (timer : ℕ → Bool) (i : ℕ) (q : Queue) (active : ℕ)
    → q.paused ≡ false
    → 0 < depth q
    → active < 4294967296
    → OneOff q active (alone clock timer 3 i (q, active, polling))
unfolding advance_worker took
one_off clock timer i q active p h l =
    go (dequeue (clock (suc i)) q) (dequeue-Takes (clock (suc i)) q p h)
  where
    go :
        (r : Queue × Option Item)
        → Takes q r
        → OneOff q active (
            let (q', active', p') = took active r in
            advance_worker (clock (suc (suc i))) (timer (suc (suc i))) false q' active' p')
    go (q', none) t = absurd t
    go (q', some x) (open_, fewer, same) =
        let (a, b, c) = mark_processed-keeps q' in
        (refl, ground (arith, fewer, b), a ∙ open_, ground arith, ground (arith, c, same))

later_off :
    (q q' : Queue) (active active' : ℕ) (p' : Phase) (r : Queue × ℕ × Phase)
    → OneOff q active (q', active', p')
    → WorkedOff q' active' r
    → WorkedOff q active r
later_off q q' active active' p' (q'', active'', p'') (_, fewer, _, same, one)
      (p, e, o, same', all) =
    (p, e, o, same' ∙ same, all ∙ ground (arith, one, fewer))

next_items :
    (clock : ℕ → ℕ) (timer : ℕ → Bool) (n i d : ℕ) (q : Queue) (active : ℕ) (s : Queue × ℕ × Phase)
    → depth q ≡ suc d
    → active < 4294967296
    → OneOff q active s
    → ((q' : Queue) (active' : ℕ)
        → depth q' ≡ d
        → q'.paused ≡ false
        → active' < 4294967296
        → q'.processed_total < u64_mod
        → WorkedOff q' active' (alone clock timer n i (q', active', polling)))
    → WorkedOff q active (alone clock timer n i s)
next_items clock timer n i d q active (q', active', p') e l o rest =
    subst (λ p. WorkedOff q active (alone clock timer n i (q', active', p))) (sym o.0)
      (later_off q q' active active' p' _ o
        (rest q' active' (ground (arith, e, o.1)) o.2 (ground (arith, o.3)) (ground (arith, o.4))))

-- One worker on a queue that is not paused, to which nothing is added, with its context not done: after
-- three steps for each item the queue is empty, all of its items are counted as processed, and the worker
-- looks for more; whatever the clock and the timers do.
pub alone-WorkedOff :
    (clock : ℕ → ℕ) (timer : ℕ → Bool) (d i : ℕ) (q : Queue) (active : ℕ)
    → depth q ≡ d
    → q.paused ≡ false
    → active < 4294967296
    → q.processed_total < u64_mod
    → WorkedOff q active (alone clock timer (3 * d) i (q, active, polling))
alone-WorkedOff clock timer zero i q active e p l m = (refl, e, p, refl, ground (arith, e, m))
alone-WorkedOff clock timer (suc d) i q active e p l m =
    let steps : suc (suc (suc (3 * d))) ≡ 3 * suc d = omega arith in
    subst (λ n. WorkedOff q active (alone clock timer n i (q, active, polling))) steps
      (next_items clock timer (3 * d) (suc (suc (suc i))) d q active
        (alone clock timer 3 i (q, active, polling)) e l
        (one_off clock timer i q active p (ground (arith, e)) l)
        (λ q' active' e' p' l' m'.
          alone-WorkedOff clock timer d (suc (suc (suc i))) q' active' e' p' l' m'))
