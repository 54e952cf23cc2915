-- ===== src/Handlers/Orders.antt =====
-- Which parameters `Enqueue` of internal/handlers/queue.go accepts.
use hotpod.Prelude.{
  ◌≡◌, ◌≢◌, refl, subst, ◌⊎◌, inl, inr, Bool, true, false, not, ◌&&◌, Option, List, [], ◌∷◌, arith,
  Bool-cases,
}
use hotpod.Prelude.Int.{ℤ, pos}
use hotpod.Prelude.Text.{Text, codes, text_eq, text_eq_iff}
use hotpod.Handlers.Response.{Query, parse_duration}
use hotpod.Endpoints.Checked.{
  OneOf, Checked, Checked->>=, Checked-answer, IsRead, parse_duration-Read, word,
}
use hotpod.Endpoints.Ranged.{Ranged, count_param-Ranged}
use hotpod.Handlers.QueueEndpoints.{Order, read_order, read_priority}

abbrev priorities : List Text
priorities = codes "high" ∷ codes "normal" ∷ codes "low" ∷ []

-- The order that a call of `/queue/enqueue` gives: a count from 1 to 10000, 1 if it is left out, a time that
-- can be read, and one of the three priorities, "normal" if it is left out.
abbrev pub OrderAccepts : (Text → Option ℤ) → Query → Order → Type 0
OrderAccepts duration query o =
    Ranged query (codes "count") (pos 1) (pos 10000) (pos 1) o.count
    × IsRead (parse_duration duration query (codes "processing_time") (pos 100000000))
        o.processing_time
    × (o.priority ≡ word query (codes "priority") (codes "normal"))
    × OneOf o.priority priorities

abbrev IsPriority : Query → Text → Type 0
IsPriority query p = (p ≡ word query (codes "priority") (codes "normal")) × OneOf p priorities

differs : (s t : Text) → text_eq s t ≡ false → s ≢ t
differs s t e h = ground (arith, text_eq_iff s t)

abbrev is_other : Text → Bool
is_other p =
    not (text_eq p (codes "high"))
    && not (text_eq p (codes "normal"))
    && not (text_eq p (codes "low"))

among :
    (p : Text)
    → ((is_other p ≡ false) × OneOf p priorities) ⊎ ((is_other p ≡ true) × (OneOf p priorities → ⊥))
among p = elim (Bool-cases (text_eq p (codes "high"))) [
  | inl h ↦ inl (rw h refl, inl ((text_eq_iff p (codes "high")).0 h))
  | inr h ↦ elim (Bool-cases (text_eq p (codes "normal"))) [
    | inl n ↦ inl (rw (h, n) refl, inr (inl ((text_eq_iff p (codes "normal")).0 n)))
    | inr n ↦ elim (Bool-cases (text_eq p (codes "low"))) [
      | inl l ↦ inl (rw (h, n, l) refl, inr (inr (inl ((text_eq_iff p (codes "low")).0 l))))
      | inr l ↦ inr (
        rw (h, n, l) refl,
        λ o. elim o [
          | inl e ↦ differs p (codes "high") h e
          | inr o' ↦ elim o' [
            | inl e ↦ differs p (codes "normal") n e
            | inr o'' ↦ elim o'' [ inl e ↦ differs p (codes "low") l e | inr z ↦ z ]
          ]
        ],
      )
    ]
  ]
]

read_priority-Checked :
    (query : Query) → Checked (IsPriority query) (IsPriority query) (read_priority query)
unfolding read_priority
read_priority-Checked query = record {
  passed = elim (among (word query (codes "priority") (codes "normal"))) [
    | inl (e, o) ↦ rw e (refl, o)
    | inr (e, n) ↦ rw e (refl, refl, λ p i. n (subst (λ t. OneOf t priorities) i.0 i.1))
  ];
}

pub read_order-Checked :
    (duration : Text → Option ℤ) (query : Query)
    → Checked
        (OrderAccepts duration query)
        (OrderAccepts duration query)
        (read_order duration true query)
unfolding read_order
read_order-Checked duration query =
    Checked->>=
      (count_param-Ranged query (codes "count") (pos 1) (pos 10000) (pos 1) (omega arith)
        (omega arith))
      (λ no o a. no o.count a.0)
      λ count c.
        Checked->>= (parse_duration-Read query (codes "processing_time") duration (pos 100000000))
          (λ no o a. no o.processing_time a.1)
          λ time t.
            Checked->>= (read_priority-Checked query) (λ no o a. no o.priority (a.2, a.3))
              λ priority p. Checked-answer (c, t, p.0, p.1)
