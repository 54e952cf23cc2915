-- ===== src/Handlers/Enqueue.antt =====
-- `Enqueue` of internal/handlers/queue.go: how many of the items asked for enter the queue.
use hotpod.Prelude.{
  ℕ, zero, suc, ◌+◌, ◌-◌, ◌≤◌, ◌≡◌, refl, sym, ap, ◌∙◌, subst, ◌⊎◌, inl, inr, Bool, true, false,
  Option, none, some, [], ◌∷◌, arith, min, length-append, Bool-cases,
}
use hotpod.Prelude.Int.{ℤ, pos, negsuc, pos_part, leb_ℤ, ◌≤ℤ◌}
use hotpod.Prelude.Text.{Text, codes}
use hotpod.Queue.Defs.{queue_full, Queue, Item, depth, enqueue, append_item, update_metrics}
use hotpod.Handlers.Response.{Response, answer, failed, Query}
use hotpod.Endpoints.Checked.{Accepted}
use hotpod.Handlers.Orders.{OrderAccepts, read_order-Checked}
use hotpod.Handlers.QueueEndpoints.{
  Order, EnqueueResponse, read_order, enqueue_each, fill, enqueue_items, new_item,
}

-- The places that are left in a queue.
abbrev pub room : Queue → ℕ
room q = pos_part q.max_depth - depth q

pub append_item-depth : (q : Queue) (x : Item) → depth (append_item q x) ≡ suc (depth q)
unfolding append_item depth
append_item-depth q x = ground (
  arith,
  length-append q.high (x ∷ []),
  length-append q.low (x ∷ []),
  length-append q.normal (record x { priority = codes "normal" } ∷ []),
)

append_item-max_depth : (q : Queue) (x : Item) → (append_item q x).max_depth ≡ q.max_depth
unfolding append_item
append_item-max_depth q x = ground arith

full_room : (m : ℤ) (n : ℕ) → leb_ℤ m (pos n) ≡ true → pos_part m - n ≡ 0
full_room (pos k) n h = ground arith
full_room (negsuc k) n h = ground arith

some_room : (m : ℤ) (n : ℕ) → leb_ℤ m (pos n) ≡ false → pos_part m - n ≡ suc (pos_part m - suc n)
some_room (pos k) n h = ground arith
some_room (negsuc k) n h = ground arith

enqueue-room :
    (now : ℕ) (q : Queue) (x : Item)
    → (((enqueue now q x).1 ≡ none)
        × (room q ≡ suc (room (enqueue now q x).0))
        × (depth (enqueue now q x).0 ≡ suc (depth q)))
      ⊎ ((e : _) × ((enqueue now q x).1 ≡ some e) × (room q ≡ 0) × ((enqueue now q x).0 ≡ q))
unfolding enqueue update_metrics depth
enqueue-room now q x = elim (Bool-cases (leb_ℤ q.max_depth (pos (depth q)))) [
  | inl h ↦ inr (queue_full, rw h refl, full_room q.max_depth (depth q) h, rw h refl)
  | inr h ↦ inl (
    rw h refl,
    rw h (
        some_room q.max_depth (depth q) h
        ∙ ap (λ m. suc (pos_part m - suc (depth q))) (sym (append_item-max_depth q x))
        ∙ ap (λ d. suc (pos_part (append_item q x).max_depth - d)) (sym (append_item-depth q x))),
    rw h (append_item-depth q x),
  )
]

enqueue_each-fills :
    (clock : ℕ → ℕ) (item : ℕ → Item) (n i : ℕ) (q : Queue) (enqueued rejected : ℕ)
    → let (q', enqueued', rejected') = enqueue_each clock item n i q enqueued rejected in
      (enqueued' ≡ enqueued + min n (room q))
      × (rejected' ≡ rejected + (n - room q))
      × (depth q' ≡ depth q + min n (room q))
unfolding enqueue_each
enqueue_each-fills clock item zero i q enqueued rejected =
    (ground arith, ground arith, ground arith)
enqueue_each-fills clock item (suc n) i q enqueued rejected =
    elim (enqueue-room (clock i) q (item i)) [
      | inl (e, r, d) ↦
          let (a, b, c) =
            enqueue_each-fills clock item n (suc i) (enqueue (clock i) q (item i)).0 (suc enqueued)
              rejected in
          rw (e, enqueue_each) (ground (arith, a, b, c, r, d))
      | inr (x, e, r, s) ↦
          let (a, b, c) =
            enqueue_each-fills clock item n (suc i) (enqueue (clock i) q (item i)).0 enqueued
              (suc rejected) in
          rw (e, enqueue_each) (ground (arith, a, b, c, r, s))
    ]

abbrev pub Response-cases :
    {A : Type 0} (m : Response A)
    → ((status : ℕ) × (code : Text) × (m ≡ failed status code)) ⊎ ((a : A) × (m ≡ answer a))
Response-cases (failed status code) = inl (status, code, refl)
Response-cases (answer a) = inr (a, refl)

counted : (z : ℤ) → pos 1 ≤ℤ z → z ≤ℤ pos 10000 → (1 ≤ pos_part z) × (pos_part z ≤ 10000)
counted (pos n) l u = (ground arith, ground arith)
counted (negsuc n) l u = absurd (ground arith)

-- What a call that is accepted does to the queue, and answers.
abbrev pub Enqueues : Order → Queue → Queue → EnqueueResponse → Type 0
Enqueues o q q' r =
    (r.enqueued ≡ min (pos_part o.count) (room q))
    × (r.enqueued + r.rejected ≡ pos_part o.count)
    × (r.queue_depth ≡ depth q + r.enqueued)
    × (depth q' ≡ r.queue_depth)

-- A call of `/queue/enqueue` on a disabled queue is refused with 403. On an enabled one it is refused with
-- 400 exactly if its parameters give no order: a count from 1 to 10000, 1 if it is left out, a time that can
-- be read, and one of the three priorities. A call that is refused leaves the queue as it is. Else as
-- many of the items that are asked for enter as the queue has places left, the others are reported as
-- rejected, and the depth that is reported is that of the queue.
pub enqueue_items_cases :
    (duration : Text → Option ℤ) (id : ℕ → ℕ → Text) (clock : ℕ → ℕ) (now : ℕ) (enabled : Bool)
    (query : Query) (q : Queue)
    → let (q', reply) = enqueue_items duration id clock now enabled query q in
      ((enabled ≡ false) × (reply ≡ failed 403 (codes "QUEUE_DISABLED")) × (q' ≡ q))
      ⊎ ((enabled ≡ true)
          × (reply ≡ failed 400 (codes "INVALID_PARAMETER"))
          × (q' ≡ q)
          × ((o : Order) → OrderAccepts duration query o → ⊥))
      ⊎ ((enabled ≡ true)
          × (o : Order) × OrderAccepts duration query o
          × (1 ≤ pos_part o.count)
          × (pos_part o.count ≤ 10000)
          × (r : EnqueueResponse) × (reply ≡ answer r)
          × Enqueues o q q' r)
unfolding enqueue_items fill read_order
enqueue_items_cases duration id clock now false query q = inl (refl, refl, refl)
enqueue_items_cases duration id clock now true query q =
    let checked = (read_order-Checked duration query).passed in
    elim (Response-cases (read_order duration true query)) [
      | inl (status, code, e) ↦
          let (s, c, none_fits) = subst (Accepted _ _) e checked in
          inr (inl (refl, rw (e, s, c, enqueue_items) refl, rw (e, enqueue_items) refl, none_fits))
      | inr (order, e) ↦
          let accepts = subst (Accepted _ _) e checked in
          let (low, high) = counted order.count accepts.0.1 accepts.0.2 in
          let (a, b, c) =
            enqueue_each-fills clock (new_item id now order) (pos_part order.count) 0 q 0 0 in
          inr (
            inr (
              refl,
              order,
              accepts,
              low,
              high,
              (fill id clock now order q).1,
              rw (e, enqueue_items) refl,
              (
                omega (arith, a),
                omega (arith, a, b),
                omega (arith, a, c),
                rw (e, enqueue_items) refl,
              ),
            ))
    ]
