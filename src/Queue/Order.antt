-- ===== src/Queue/Order.antt =====
-- Which item a client of internal/queue/queue.go is given: the first of the best class.
use hotpod.Prelude.{
  ℕ, ◌≤◌, ◌≡◌, refl, ◌⊎◌, inl, inr, Bool, true, false, Option, none, some, List, [], ◌∷◌, ◌++◌,
  arith, All, All-append,
}
use hotpod.Prelude.Int.{ℤ}
use hotpod.Queue.Defs.{Item, Queue, new, update_metrics, dequeue}
use hotpod.Queue.Spec.{rank, served, Ranked, IsSorted, Op, run}
use hotpod.Queue.Refine.{run-IsSorted}

abbrev pub NoBetter : Item → List Item → Type 0
NoBetter x = All (λ y. rank x.priority ≤ rank y.priority)

Ranked-NoBetter :
    (k : ℕ) (x : Item) (ys : List Item) → rank x.priority ≤ k → Ranked k ys → NoBetter x ys
Ranked-NoBetter k x [] h r = tt
Ranked-NoBetter k x (y ∷ ys) h r = (omega arith, Ranked-NoBetter k x ys h r.1)

-- Either nothing is given, and then the queue is paused or empty and stays as it is; or the first
-- item in service order is given and taken off, and it is of the best class that waits.
abbrev pub Serves : Queue → Queue × Option Item → Type 0
Serves q (q', none) = ((q.paused ≡ true) ⊎ (served q ≡ [])) × (q' ≡ q)
Serves q (q', some x) = (q.paused ≡ false) × (served q ≡ x ∷ served q') × NoBetter x (served q')

-- By the lists and the switch; the records are equal to `q` where these are its own.
with_lists : Queue → Bool → List Item → List Item → List Item → Queue
with_lists q b hs ns ls = record q { paused = b; high = hs; normal = ns; low = ls }

served_by_lists :
    (now : ℕ) (q : Queue) (b : Bool) (hs ns ls : List Item)
    → Ranked 0 hs
    → Ranked 1 ns
    → Ranked 2 ls
    → Serves (with_lists q b hs ns ls) (dequeue now (with_lists q b hs ns ls))
unfolding dequeue update_metrics with_lists
served_by_lists now q true hs ns ls h n l = (inl refl, refl)
served_by_lists now q false [] [] [] h n l = (inr refl, refl)
served_by_lists now q false [] [] (x ∷ ls) h n l =
    (refl, refl, Ranked-NoBetter 2 x ls (omega arith) l.1)
served_by_lists now q false [] (x ∷ ns) ls h n l = (
  refl,
  refl,
  All-append _ ns ls (Ranked-NoBetter 1 x ns (omega arith) n.1)
      (Ranked-NoBetter 2 x ls (omega arith) l),
)
served_by_lists now q false (x ∷ hs) ns ls h n l = (
  refl,
  refl,
  All-append _ hs (ns ++ ls) (Ranked-NoBetter 0 x hs (omega arith) h.1) (
      All-append _ ns ls (Ranked-NoBetter 1 x ns (omega arith) n)
        (Ranked-NoBetter 2 x ls (omega arith) l)),
)

dequeue-Serves : (now : ℕ) (q : Queue) → IsSorted q → Serves q (dequeue now q)
unfolding with_lists
dequeue-Serves now q v =
    served_by_lists now q q.paused q.high q.normal q.low v.high_only v.normal_only v.low_only

-- After any history of calls on a new queue, `Dequeue` gives nothing exactly when the queue is paused
-- or empty, and then changes nothing; otherwise it takes the first item in service order off, and no
-- item of a better class is left behind.
pub dequeue-run-Serves :
    (max_depth : ℤ) (os : List Op) (now : ℕ)
    → Serves (run (new max_depth) os).0 (dequeue now (run (new max_depth) os).0)
dequeue-run-Serves max_depth os now = dequeue-Serves now _ (run-IsSorted max_depth os)
