-- ===== src/Queue/Spec.antt =====
-- internal/queue/queue.go against an abstract priority queue: one list in service order, into which
-- an item goes behind all items that are served no later than its class.
use hotpod.Prelude.{
  ℕ, ◌≡◌, Bool, true, false, Option, none, some, List, [], ◌∷◌, ◌++◌, length, All, ltb, ◌==◌,
  if◌then◌else◌,
}
use hotpod.Prelude.Int.{ℤ, pos, leb_ℤ}
use hotpod.Prelude.Text.{Text, text_eq}
use hotpod.Queue.Defs.{
  Item, Queue, QueueError, queue_full, priority_high, priority_normal, priority_low, enqueue,
  dequeue, mark_processed, mark_failed, clear, pause, resume,
}

-- 0 for high, 2 for low, 1 for every other text: the order of service.
unfoldable pub rank : Text → ℕ
rank p = if text_eq p priority_high then 0 else if text_eq p priority_low then 2 else 1

-- The item as the queue keeps it.
unfoldable pub settle : Item → Item
unfolding rank
settle x = if rank x.priority == 1 then record x { priority = priority_normal } else x

unfoldable pub insert_ranked : Item → List Item → List Item
insert_ranked x [] = x ∷ []
insert_ranked x (y ∷ ys) =
    if ltb (rank x.priority) (rank y.priority) then x ∷ y ∷ ys else y ∷ insert_ranked x ys

-- The abstract queue.
pub record Line : Type 0 where
  pub max_depth : ℤ
  pub items : List Item
  pub paused : Bool

unfoldable pub spec_enqueue : Line → Item → Line × Option QueueError
spec_enqueue l x =
    if leb_ℤ l.max_depth (pos (length l.items))
    then (l, some queue_full)
    else (record l { items = insert_ranked (settle x) l.items }, none)

first_of : Line → List Item → Line × Option Item
first_of l [] = (l, none)
first_of l (x ∷ rest) = (record l { items = rest }, some x)

unfoldable pub spec_dequeue : Line → Line × Option Item
unfolding first_of
spec_dequeue l = if l.paused then (l, none) else first_of l l.items

abbrev pub served : Queue → List Item
served q = q.high ++ (q.normal ++ q.low)

unfoldable pub view : Queue → Line
view q = record { max_depth = q.max_depth; items = served q; paused = q.paused }

abbrev pub Ranked : ℕ → List Item → Type 0
Ranked k = All (λ x. rank x.priority ≡ k)

-- Each list holds the items of its class.
pub record IsSorted (q : Queue) : Type 0 where
  pub high_only : Ranked 0 q.high
  pub normal_only : Ranked 1 q.normal
  pub low_only : Ranked 2 q.low

-- What a client of the queue can do, and what it is told.
pub data Op : Type 0 where
  enqueues : ℕ → Item → Op
  dequeues clears : ℕ → Op
  pauses resumes marks_processed marks_failed : Op

pub data Reply : Type 0 where
  stored : Option QueueError → Reply
  taken : Option Item → Reply
  cleared : ℕ → Reply
  done : Reply

unfoldable pub step : Queue → Op → Queue × Reply
step q (enqueues now x) = let (q', e) = enqueue now q x in (q', stored e)
step q (dequeues now) = let (q', x) = dequeue now q in (q', taken x)
step q (clears now) = let (q', n) = clear now q in (q', cleared n)
step q pauses = (pause q, done)
step q resumes = (resume q, done)
step q marks_processed = (mark_processed q, done)
step q marks_failed = (mark_failed q, done)

unfoldable pub spec_step : Line → Op → Line × Reply
unfolding spec_enqueue spec_dequeue
spec_step l (enqueues now x) = let (l', e) = spec_enqueue l x in (l', stored e)
spec_step l (dequeues now) = let (l', x) = spec_dequeue l in (l', taken x)
spec_step l (clears now) = (record l { items = [] }, cleared (length l.items))
spec_step l pauses = (record l { paused = true }, done)
spec_step l resumes = (record l { paused = false }, done)
spec_step l marks_processed = (l, done)
spec_step l marks_failed = (l, done)

-- A history of calls, with the replies in order.
unfoldable pub run : Queue → List Op → Queue × List Reply
run q [] = (q, [])
run q (o ∷ os) = let (q', r) = step q o in let (q'', rs) = run q' os in (q'', r ∷ rs)

unfoldable pub spec_run : Line → List Op → Line × List Reply
spec_run l [] = (l, [])
spec_run l (o ∷ os) = let (l', r) = spec_step l o in let (l'', rs) = spec_run l' os in (l'', r ∷ rs)
