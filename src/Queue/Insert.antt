-- ===== src/Queue/Insert.antt =====
-- Where `Enqueue` puts an item, in the service order of internal/queue/queue.go.
use hotpod.Prelude.{
  ℕ, ◌≤◌, ◌<◌, ◌≡◌, refl, sym, ap, ◌∙◌, ◌⊎◌, inl, inr, List, [], ◌∷◌, ◌++◌, append-nil,
  append_assoc, arith, All-append, Bool-cases,
}
use hotpod.Prelude.Text.{text_eq}
use hotpod.Queue.Defs.{Item, Queue, priority_high, priority_low, append_item}
use hotpod.Queue.Spec.{rank, settle, insert_ranked, served, Ranked, IsSorted}

rank-settle : (x : Item) → rank (settle x).priority ≡ rank x.priority
unfolding settle rank text_eq
rank-settle x = ground arith

-- The class of an item, by the tests of the code.
rank-cases :
    (x : Item)
    → ((rank x.priority ≡ 0)
        × (settle x ≡ x)
        × ((q : Queue) → append_item q x ≡ record q { high = q.high ++ x ∷ [] }))
      ⊎ ((rank x.priority ≡ 1)
          × ((q : Queue) → append_item q x ≡ record q { normal = q.normal ++ settle x ∷ [] }))
      ⊎ ((rank x.priority ≡ 2)
          × (settle x ≡ x)
          × ((q : Queue) → append_item q x ≡ record q { low = q.low ++ x ∷ [] }))
unfolding rank settle append_item
rank-cases x = elim (Bool-cases (text_eq x.priority priority_high)) [
  | inl h ↦ inl (rw h, rw h, λ q. rw h)
  | inr nh ↦ elim (Bool-cases (text_eq x.priority priority_low)) [
    | inl l ↦ inr (inr (rw (nh, l), rw (nh, l), λ q. rw (nh, l)))
    | inr nl ↦ inr (inl (rw (nh, nl), λ q. rw (nh, nl)))
  ]
]

insert_ranked-skip :
    (k : ℕ) (x : Item) (ys zs : List Item)
    → Ranked k ys
    → k ≤ rank x.priority
    → insert_ranked x (ys ++ zs) ≡ ys ++ insert_ranked x zs
unfolding insert_ranked
insert_ranked-skip k x [] zs r h = refl
insert_ranked-skip k x (y ∷ ys) zs r h = ground (arith, insert_ranked-skip k x ys zs r.1)

insert_ranked-front :
    (k : ℕ) (x : Item) (ys zs : List Item)
    → Ranked k ys
    → rank x.priority < k
    → insert_ranked x zs ≡ x ∷ zs
    → insert_ranked x (ys ++ zs) ≡ x ∷ ys ++ zs
unfolding insert_ranked
insert_ranked-front k x [] zs r h e = e
insert_ranked-front k x (y ∷ ys) zs r h e = ground arith

insert_ranked-last : (x : Item) → insert_ranked x [] ≡ x ∷ []
unfolding insert_ranked
insert_ranked-last x = refl

module _ (q : Queue) (v : IsSorted q) (x : Item) where
  insert_high :
      rank x.priority ≡ 0 → (q.high ++ x ∷ []) ++ (q.normal ++ q.low) ≡ insert_ranked x (served q)
  insert_high e = simp append_assoc (
      sym (
        insert_ranked-skip 0 x q.high (q.normal ++ q.low) v.high_only (omega arith)
        ∙ ap (◌++◌ q.high) (
            insert_ranked-front 1 x q.normal q.low v.normal_only (omega arith) (
              ap (insert_ranked x) (sym (append-nil q.low))
              ∙ insert_ranked-front 2 x q.low [] v.low_only (omega arith) (insert_ranked-last x)
              ∙ ap (◌∷◌ x) (append-nil q.low)))))

  insert_normal :
      rank x.priority ≡ 1 → q.high ++ ((q.normal ++ x ∷ []) ++ q.low) ≡ insert_ranked x (served q)
  insert_normal e = simp append_assoc (
      sym (
        insert_ranked-skip 0 x q.high (q.normal ++ q.low) v.high_only (omega arith)
        ∙ ap (◌++◌ q.high) (
            insert_ranked-skip 1 x q.normal q.low v.normal_only (omega arith)
            ∙ ap (◌++◌ q.normal) (
                ap (insert_ranked x) (sym (append-nil q.low))
                ∙ insert_ranked-front 2 x q.low [] v.low_only (omega arith) (insert_ranked-last x)
                ∙ ap (◌∷◌ x) (append-nil q.low)))))

  insert_low :
      rank x.priority ≡ 2 → q.high ++ (q.normal ++ (q.low ++ x ∷ [])) ≡ insert_ranked x (served q)
  insert_low e = sym (
      insert_ranked-skip 0 x q.high (q.normal ++ q.low) v.high_only (omega arith)
      ∙ ap (◌++◌ q.high) (
          insert_ranked-skip 1 x q.normal q.low v.normal_only (omega arith)
          ∙ ap (◌++◌ q.normal) (
              ap (insert_ranked x) (sym (append-nil q.low))
              ∙ insert_ranked-skip 2 x q.low [] v.low_only (omega arith)
              ∙ ap (◌++◌ q.low) (insert_ranked-last x))))

pub append_item-served :
    (q : Queue) (x : Item)
    → IsSorted q
    → served (append_item q x) ≡ insert_ranked (settle x) (served q)
append_item-served q x v = elim (rank-cases x) [
  | inl (r, e, step) ↦ rw (step q, e) (insert_high q v x r)
  | inr (inl (r, step)) ↦ rw (step q) (insert_normal q v (settle x) (rank-settle x ∙ r))
  | inr (inr (r, e, step)) ↦ rw (step q, e) (insert_low q v x r)
]

pub append_item-IsSorted : (q : Queue) (x : Item) → IsSorted q → IsSorted (append_item q x)
append_item-IsSorted q x v = elim (rank-cases x) [
  | inl (r, e, step) ↦ rw (step q) (record {
    high_only = All-append _ q.high _ v.high_only (r, tt);
    normal_only = v.normal_only;
    low_only = v.low_only;
  })
  | inr (inl (r, step)) ↦ rw (step q) (record {
    high_only = v.high_only;
    normal_only = All-append _ q.normal _ v.normal_only (rank-settle x ∙ r, tt);
    low_only = v.low_only;
  })
  | inr (inr (r, e, step)) ↦ rw (step q) (record {
    high_only = v.high_only;
    normal_only = v.normal_only;
    low_only = All-append _ q.low _ v.low_only (r, tt);
  })
]
