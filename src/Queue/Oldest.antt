-- ===== src/Queue/Oldest.antt =====
-- The age of the oldest item in `Stats` and in the gauge of internal/queue/queue.go: the code looks at
-- the heads of the three lists only, which is enough while items arrive in the order of their clock.
use mathlib.Core.List.{Memᴰ}
use hotpod.Prelude.{
  ℕ, ◌≤◌, ◌<◌, ◌≡◌, refl, ◌⊎◌, inl, inr, Bool, true, false, List, [], ◌∷◌, ◌++◌, arith, All,
  All-append, Bool-cases, append-nil, append_assoc, dec_lt, subst, sym, ◌≢◌,
}
use hotpod.Prelude.Int.{ℤ, pos, leb_ℤ, time_sub}
use hotpod.Prelude.Text.{text_eq}
use hotpod.Queue.Defs.{
  Item, Queue, oldest_age, stats, depth, priority_high, priority_low, new, older_head, oldest,
  update_metrics, append_item, enqueue, dequeue, clear, pause, resume, mark_processed, mark_failed,
}
use hotpod.Queue.Spec.{
  Op, enqueues, dequeues, clears, pauses, resumes, marks_processed, marks_failed, step, run, served,
}

abbrev NotBefore : ℕ → List Item → Type 0
NotBefore t = All (λ x. t ≤ x.enqueued_at)

abbrev NotAfter : ℕ → List Item → Type 0
NotAfter t = All (λ x. x.enqueued_at ≤ t)

-- Oldest first, with no zero time.
abbrev Ascending : List Item → Type 0
Ascending [] = Unit
Ascending (x ∷ xs) = (0 < x.enqueued_at) × NotBefore x.enqueued_at xs × Ascending xs

record Timed (t : ℕ) (hs ns ls : List Item) : Type 0 where
  high_up : Ascending hs
  normal_up : Ascending ns
  low_up : Ascending ls
  high_past : NotAfter t hs
  normal_past : NotAfter t ns
  low_past : NotAfter t ls

abbrev IsTimed : ℕ → Queue → Type 0
IsTimed t q = Timed t q.high q.normal q.low

-- Every item of the history was stamped no earlier than those before it, and not at zero.
abbrev pub Clocked : ℕ → List Op → Type 0
Clocked t [] = Unit
Clocked t (enqueues now x ∷ os) =
    (0 < x.enqueued_at) × (t ≤ x.enqueued_at) × Clocked x.enqueued_at os
Clocked t (dequeues now ∷ os) = Clocked t os
Clocked t (clears now ∷ os) = Clocked t os
Clocked t (pauses ∷ os) = Clocked t os
Clocked t (resumes ∷ os) = Clocked t os
Clocked t (marks_processed ∷ os) = Clocked t os
Clocked t (marks_failed ∷ os) = Clocked t os

NotBefore-mono : (s t : ℕ) (xs : List Item) → s ≤ t → NotBefore t xs → NotBefore s xs
NotBefore-mono s t [] h a = tt
NotBefore-mono s t (x ∷ xs) h a = (omega arith, NotBefore-mono s t xs h a.1)

NotAfter-mono : (s t : ℕ) (xs : List Item) → s ≤ t → NotAfter s xs → NotAfter t xs
NotAfter-mono s t [] h a = tt
NotAfter-mono s t (x ∷ xs) h a = (omega arith, NotAfter-mono s t xs h a.1)

Ascending-snoc :
    (t : ℕ) (xs : List Item) (y : Item)
    → Ascending xs
    → NotAfter t xs
    → t ≤ y.enqueued_at
    → 0 < y.enqueued_at
    → Ascending (xs ++ y ∷ [])
Ascending-snoc t [] y a b h p = (p, tt, tt)
Ascending-snoc t (x ∷ xs) y a b h p =
    (a.0, All-append _ xs (y ∷ []) a.1 (omega arith, tt), Ascending-snoc t xs y a.2 b.1 h p)

NotAfter-snoc :
    (t : ℕ) (xs : List Item) (y : Item)
    → NotAfter t xs
    → t ≤ y.enqueued_at
    → NotAfter y.enqueued_at (xs ++ y ∷ [])
NotAfter-snoc t xs y b h =
    All-append _ xs (y ∷ []) (NotAfter-mono t y.enqueued_at xs h b) (omega arith, tt)

module _ (t : ℕ) (q : Queue) (x : Item) (v : IsTimed t q) (h : t ≤ x.enqueued_at) where
  IsTimed-later : IsTimed x.enqueued_at q
  IsTimed-later = record {
    high_up = v.high_up;
    normal_up = v.normal_up;
    low_up = v.low_up;
    high_past = NotAfter-mono t _ q.high h v.high_past;
    normal_past = NotAfter-mono t _ q.normal h v.normal_past;
    low_past = NotAfter-mono t _ q.low h v.low_past;
  }

  append_item-IsTimed : 0 < x.enqueued_at → IsTimed x.enqueued_at (append_item q x)
  unfolding append_item
  append_item-IsTimed p =
      let later = IsTimed-later in
      elim (Bool-cases (text_eq x.priority priority_high)) [
        | inl hi ↦ rw hi (record {
          high_up = Ascending-snoc t q.high x v.high_up v.high_past h p;
          normal_up = v.normal_up;
          low_up = v.low_up;
          high_past = NotAfter-snoc t q.high x v.high_past h;
          normal_past = later.normal_past;
          low_past = later.low_past;
        })
        | inr nh ↦ elim (Bool-cases (text_eq x.priority priority_low)) [
          | inl lo ↦
              rw (nh, lo)
                (record {
                  high_up = v.high_up;
                  normal_up = v.normal_up;
                  low_up = Ascending-snoc t q.low x v.low_up v.low_past h p;
                  high_past = later.high_past;
                  normal_past = later.normal_past;
                  low_past = NotAfter-snoc t q.low x v.low_past h;
                })
          | inr nl ↦
              rw (nh, nl)
                (record {
                  high_up = v.high_up;
                  normal_up = Ascending-snoc t q.normal _ v.normal_up v.normal_past h p;
                  low_up = v.low_up;
                  high_past = later.high_past;
                  normal_past = NotAfter-snoc t q.normal _ v.normal_past h;
                  low_past = later.low_past;
                })
        ]
      ]

  enqueue-IsTimed : (now : ℕ) → 0 < x.enqueued_at → IsTimed x.enqueued_at (enqueue now q x).0
  unfolding enqueue update_metrics
  enqueue-IsTimed now p = elim (Bool-cases (leb_ℤ q.max_depth (pos (depth q)))) [
    | inl full ↦ rw full IsTimed-later
    | inr room ↦ rw room (append_item-IsTimed p)
  ]

with_lists : Queue → Bool → List Item → List Item → List Item → Queue
with_lists q b hs ns ls = record q { paused = b; high = hs; normal = ns; low = ls }

dequeue_lists-IsTimed :
    (t now : ℕ) (q : Queue) (b : Bool) (hs ns ls : List Item)
    → Timed t hs ns ls
    → IsTimed t (dequeue now (with_lists q b hs ns ls)).0
unfolding dequeue update_metrics with_lists
dequeue_lists-IsTimed t now q true hs ns ls v = v
dequeue_lists-IsTimed t now q false [] [] [] v = v
dequeue_lists-IsTimed t now q false [] [] (x ∷ ls) v = record {
  high_up = tt;
  normal_up = tt;
  low_up = v.low_up.2;
  high_past = tt;
  normal_past = tt;
  low_past = v.low_past.1;
}
dequeue_lists-IsTimed t now q false [] (x ∷ ns) ls v = record {
  high_up = tt;
  normal_up = v.normal_up.2;
  low_up = v.low_up;
  high_past = tt;
  normal_past = v.normal_past.1;
  low_past = v.low_past;
}
dequeue_lists-IsTimed t now q false (x ∷ hs) ns ls v = record {
  high_up = v.high_up.2;
  normal_up = v.normal_up;
  low_up = v.low_up;
  high_past = v.high_past.1;
  normal_past = v.normal_past;
  low_past = v.low_past;
}

dequeue-IsTimed : (t now : ℕ) (q : Queue) → IsTimed t q → IsTimed t (dequeue now q).0
unfolding with_lists
dequeue-IsTimed t now q v = dequeue_lists-IsTimed t now q q.paused q.high q.normal q.low v

nothing-Timed : (t : ℕ) → Timed t [] [] []
nothing-Timed t = record {
  high_up = tt;
  normal_up = tt;
  low_up = tt;
  high_past = tt;
  normal_past = tt;
  low_past = tt;
}

run-IsTimed :
    (t : ℕ) (q : Queue) (os : List Op)
    → IsTimed t q
    → Clocked t os
    → (u : ℕ) × IsTimed u (run q os).0
unfolding run step clear update_metrics pause resume mark_processed mark_failed
run-IsTimed t q [] v c = (t, v)
run-IsTimed t q (enqueues now x ∷ os) v c =
    run-IsTimed x.enqueued_at (enqueue now q x).0 os (enqueue-IsTimed t q x v c.1 now c.0) c.2
run-IsTimed t q (dequeues now ∷ os) v c =
    run-IsTimed t (dequeue now q).0 os (dequeue-IsTimed t now q v) c
run-IsTimed t q (clears now ∷ os) v c = run-IsTimed t (clear now q).0 os (nothing-Timed t) c
run-IsTimed t q (pauses ∷ os) v c = run-IsTimed t (pause q) os v c
run-IsTimed t q (resumes ∷ os) v c = run-IsTimed t (resume q) os v c
run-IsTimed t q (marks_processed ∷ os) v c = run-IsTimed t (mark_processed q) os v c
run-IsTimed t q (marks_failed ∷ os) v c = run-IsTimed t (mark_failed q) os v c

-- `t` is 0 where nothing waits; else the time of an item that waits, and none that waits is older.
abbrev pub FindsOldest : ℕ → List Item → Type 0
FindsOldest t xs =
    ((xs ≡ []) × (t ≡ 0))
    ⊎ ((0 < t) × ((y : Item) × Memᴰ y xs × (y.enqueued_at ≡ t)) × All (λ x. t ≤ x.enqueued_at) xs)

Memᴰ-append_left : (y : Item) (xs ys : List Item) → Memᴰ y xs → Memᴰ y (xs ++ ys)
Memᴰ-append_left y [] ys m = elim m [ ]
Memᴰ-append_left y (x ∷ xs) ys (Memᴰ.head e) = Memᴰ.head e
Memᴰ-append_left y (x ∷ xs) ys (Memᴰ.tail m) = Memᴰ.tail (Memᴰ-append_left y xs ys m)

Memᴰ-append_right : (y : Item) (xs ys : List Item) → Memᴰ y ys → Memᴰ y (xs ++ ys)
Memᴰ-append_right y [] ys m = m
Memᴰ-append_right y (x ∷ xs) ys m = Memᴰ.tail (Memᴰ-append_right y xs ys m)

older_head_new :
    (t : ℕ) (x : Item) (xs : List Item)
    → (t ≡ 0) ⊎ (x.enqueued_at < t)
    → older_head t (x ∷ xs) ≡ x.enqueued_at
unfolding older_head
older_head_new t x xs h = ground arith

older_head_kept :
    (t : ℕ) (x : Item) (xs : List Item) → 0 < t → t ≤ x.enqueued_at → older_head t (x ∷ xs) ≡ t
unfolding older_head
older_head_kept t x xs p h = ground arith

-- The search after one more list.
older_head-FindsOldest :
    (t : ℕ) (seen xs : List Item)
    → FindsOldest t seen
    → Ascending xs
    → FindsOldest (older_head t xs) (seen ++ xs)
older_head-FindsOldest t seen [] f a = rw (append-nil seen) (unfold older_head in f)
older_head-FindsOldest t seen (x ∷ xs) (inl (none_yet, z)) a =
    subst (λ u. FindsOldest u (seen ++ x ∷ xs)) (sym (older_head_new t x xs (inl z)))
      (rw none_yet (inr (a.0, (x, Memᴰ.head refl, refl), (omega arith, a.1))))
older_head-FindsOldest t seen (x ∷ xs) (inr (p, (y, m, e), nb)) a = elim (dec_lt x.enqueued_at t) [
  | yes older ↦
      subst (λ u. FindsOldest u (seen ++ x ∷ xs)) (sym (older_head_new t x xs (inr older)))
        (inr (
          a.0,
          (x, Memᴰ-append_right x seen (x ∷ xs) (Memᴰ.head refl), refl),
          All-append _ seen (x ∷ xs) (NotBefore-mono x.enqueued_at t seen (omega arith) nb)
              (omega arith, a.1),
        ))
  | no newer ↦
      subst (λ u. FindsOldest u (seen ++ x ∷ xs)) (sym (older_head_kept t x xs p (omega arith)))
        (inr (
          p,
          (y, Memᴰ-append_left y seen (x ∷ xs) m, e),
          All-append _ seen (x ∷ xs) nb
              (omega arith, NotBefore-mono t x.enqueued_at xs (omega arith) a.1),
        ))
]

oldest-FindsOldest : (t : ℕ) (q : Queue) → IsTimed t q → FindsOldest (oldest q) (served q)
unfolding oldest
oldest-FindsOldest t q v =
    let first : FindsOldest 0 [] = inl (refl, refl) in
    let h = older_head-FindsOldest 0 [] q.high first v.high_up in
    let n = older_head-FindsOldest _ q.high q.normal h v.normal_up in
    let l = older_head-FindsOldest _ (q.high ++ q.normal) q.low n v.low_up in
    rw (← append_assoc q.high q.normal q.low) l

-- After any history of calls on a new queue whose items are stamped in the order of their arrival, at
-- times other than the zero time, the search over the three heads finds the time of the oldest item
-- that waits (0 if none does), and `Stats` reports its age: the clock less that time, 0 if none waits.
pub oldest-run :
    (max_depth : ℤ) (os : List Op) (now : ℕ)
    → Clocked 0 os
    → let q = (run (new max_depth) os).0 in
      FindsOldest (oldest q) (served q)
      × ((served q ≡ []) → (stats now q).oldest_item_age ≡ pos 0)
      × ((served q ≢ []) → (stats now q).oldest_item_age ≡ time_sub now (oldest q))
unfolding new stats oldest_age
oldest-run max_depth os now c =
    let (u, v) = run-IsTimed 0 (new max_depth) os (nothing-Timed 0) c in
    let f = oldest-FindsOldest u (run (new max_depth) os).0 v in
    (f, λ e. ground (arith, f), λ e. ground (arith, f))
