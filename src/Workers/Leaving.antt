-- ===== src/Workers/Leaving.antt =====
-- How a worker of internal/queue/worker.go returns once its context is done.
use hotpod.Prelude.{
  ℕ, suc, ◌+◌, ◌-◌, ◌≤◌, ◌≡◌, refl, Bool, true, false, Option, none, some, List, [], ◌∷◌, arith,
  if◌then◌else◌, Bool-cases, inl, inr,
}
use hotpod.Queue.Defs.{Queue, Item, depth, dequeue, mark_processed, mark_failed, update_metrics}
use hotpod.Workers.Accounts.{held}
use hotpod.Workers.Defs.{Phase, polling, choosing, waiting, working, gone, took, advance_worker}

-- What a worker finds at one of its steps.
pub record Found : Type 0 where
  pub now : ℕ
  pub timer : Bool
  pub queue : Queue
  pub active : ℕ

-- The phase of a worker whose context is done, after steps at which it finds `looks`.
abbrev pub phase_after : List Found → Phase → Phase
phase_after [] p = p
phase_after (l ∷ ls) p = phase_after ls (advance_worker l.now l.timer true l.queue l.active p).2

abbrev marks : Queue → ℕ
marks q = q.metrics.items_processed + q.metrics.items_failed

-- How many items such a worker takes from the queues that it finds, and how many it settles, as processed or
-- failed, in those queues' own counts.
abbrev pub taken : List Found → Phase → ℕ
taken [] p = 0
taken (l ∷ ls) p =
    let (q, _, next) = advance_worker l.now l.timer true l.queue l.active p in
    (depth l.queue - depth q) + taken ls next

abbrev pub marked : List Found → Phase → ℕ
marked [] p = 0
marked (l ∷ ls) p =
    let (q, _, next) = advance_worker l.now l.timer true l.queue l.active p in
    (marks q - marks l.queue) + marked ls next

abbrev Leaves : ℕ → ℕ → List Found → Phase → Type 0
Leaves n m ls p = (phase_after ls p ≡ gone) × (taken ls p ≡ n) × (marked ls p ≡ m)

gone-Leaves : (ls : List Found) → Leaves 0 0 ls gone
unfolding advance_worker
gone-Leaves [] = (refl, refl, refl)
gone-Leaves (l ∷ ls) = let (e, t, m) = gone-Leaves ls in (e, omega (arith, t), omega (arith, m))

polling-Leaves : (l : Found) (ls : List Found) → Leaves 0 0 (l ∷ ls) polling
unfolding advance_worker
polling-Leaves l ls = let (e, t, m) = gone-Leaves ls in (e, omega (arith, t), omega (arith, m))

waiting-Leaves : (l k : Found) (ls : List Found) → Leaves 0 0 (l ∷ k ∷ ls) waiting
unfolding advance_worker
waiting-Leaves l k ls = elim (Bool-cases l.timer) [
  | inl h ↦ let (e, t, m) = polling-Leaves k ls in rw h (e, omega (arith, t), omega (arith, m))
  | inr h ↦ let (e, t, m) = gone-Leaves (k ∷ ls) in rw h (e, omega (arith, t), omega (arith, m))
]

mark-once :
    (timer : Bool) (q : Queue)
    → let q' = if timer then mark_processed q else mark_failed q in
      (depth q' ≡ depth q) × (marks q' ≡ suc (marks q))
unfolding mark_processed mark_failed depth
mark-once true q = (refl, omega arith)
mark-once false q = (refl, omega arith)

working-Leaves : (l k : Found) (ls : List Found) (x : Item) → Leaves 0 1 (l ∷ k ∷ ls) (working x)
unfolding advance_worker
working-Leaves l k ls x =
    let (e, t, m) = polling-Leaves k ls in
    let (d, n) = mark-once l.timer l.queue in (e, omega (arith, t, d), omega (arith, m, n))

dequeue-held :
    (now : ℕ) (q : Queue) (active : ℕ)
    → let (q', _, p) = took active (dequeue now q) in
      (depth q ≡ depth q' + held p) × (marks q' ≡ marks q)
unfolding dequeue depth update_metrics took
dequeue-held now q active = ground arith

took-Leaves :
    (l k : Found) (ls : List Found) (q : Queue) (active : ℕ) (r : Queue × Option Item)
    → depth q ≡ depth (took active r).0 + held (took active r).2
    → marks (took active r).0 ≡ marks q
    → let (q', _, p) = took active r in
      (phase_after (l ∷ k ∷ ls) p ≡ gone)
      × ((depth q - depth q') + taken (l ∷ k ∷ ls) p ≤ 1)
      × ((marks q' - marks q) + marked (l ∷ k ∷ ls) p ≡ (depth q - depth q') + taken (l ∷ k ∷ ls) p)
unfolding took
took-Leaves l k ls q active (q', none) d n =
    let (e, t, m) = waiting-Leaves l k ls in (e, omega (arith, t, d), omega (arith, t, m, d, n))
took-Leaves l k ls q active (q', some x) d n =
    let (e, t, m) = working-Leaves l k ls x in (e, omega (arith, t, d), omega (arith, t, m, d, n))

ends_within :
    (j k l : Found) (ls : List Found) (p : Phase)
    → (phase_after (j ∷ k ∷ l ∷ ls) p ≡ gone)
      × (taken (j ∷ k ∷ l ∷ ls) p ≤ 1)
      × (marked (j ∷ k ∷ l ∷ ls) p ≡ held p + taken (j ∷ k ∷ l ∷ ls) p)
unfolding advance_worker
ends_within j k l ls polling =
    let (e, t, m) = polling-Leaves j (k ∷ l ∷ ls) in (e, omega (arith, t), omega (arith, t, m))
ends_within j k l ls waiting =
    let (e, t, m) = waiting-Leaves j k (l ∷ ls) in (e, omega (arith, t), omega (arith, t, m))
ends_within j k l ls (working x) =
    let (e, t, m) = working-Leaves j k (l ∷ ls) x in (e, omega (arith, t), omega (arith, t, m))
ends_within j k l ls gone =
    let (e, t, m) = gone-Leaves (j ∷ k ∷ l ∷ ls) in (e, omega (arith, t), omega (arith, t, m))
ends_within j k l ls choosing =
    let (d, n) = dequeue-held j.now j.queue j.active in
    let (e, t, m) = took-Leaves k l ls j.queue j.active (dequeue j.now j.queue) d n in
    (e, t, omega (arith, m))

-- A worker whose context is done returns within three of its steps, wherever it stands and whatever it
-- finds at them. In these and any later steps it takes at most one item from the queue, and settles, as
-- processed or failed, exactly the item that it takes and the one that it held, if any.
pub worker_ends :
    (j k l : Found) (ls : List Found) (p : Phase)
    → (phase_after (j ∷ k ∷ l ∷ []) p ≡ gone)
      × (phase_after (j ∷ k ∷ l ∷ ls) p ≡ gone)
      × (taken (j ∷ k ∷ l ∷ ls) p ≤ 1)
      × (marked (j ∷ k ∷ l ∷ ls) p ≡ held p + taken (j ∷ k ∷ l ∷ ls) p)
worker_ends j k l ls p =
    let (e, t, m) = ends_within j k l ls p in ((ends_within j k l [] p).0, e, t, m)
