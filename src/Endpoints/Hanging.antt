-- ===== src/Endpoints/Hanging.antt =====
-- `Hang` of internal/handlers/fault.go: what it sends, and when it returns.
use hotpod.Prelude.{
  ℕ, ◌≡◌, refl, ◌⊎◌, inl, inr, Bool, true, false, ltb, Option, none, some, List, [], ◌∷◌, arith,
  Bool-cases,
}
use hotpod.Prelude.Int.{ℤ, pos, negsuc, ◌≤ℤ◌, ◌<ℤ◌}
use hotpod.Prelude.Text.{Text}
use hotpod.Fault.Chaos.{hang}
use hotpod.Handlers.Response.{Response, answer, failed, ◌>>=◌, Query}
use hotpod.Endpoints.Faults.{
  HangOrder, read_hang, Piece, opening, closing, whole, send_hang, hang_handler,
}

-- How the wait ends: at the time limit, if it is above 0 and the context does not end before it; or
-- interrupted, where the context ends, and not after a limit above 0.
abbrev pub Ends : ℤ → Option ℕ → Bool → Type 0
Ends duration at false =
    (pos 0 <ℤ duration) × ((at ≡ none) ⊎ ((t : ℕ) × (at ≡ some t) × (duration ≤ℤ pos t)))
Ends duration at true = (t : ℕ) × (at ≡ some t) × ((duration ≤ℤ pos 0) ⊎ (pos t ≤ℤ duration))

-- `Hang` never returns exactly if it has no time limit above 0, the context never ends, and the first part
-- of its answer, if there is one, could be sent. Else it has sent all of its answer, unless the first write
-- failed.
abbrev pub Sends : Bool → Option ℕ → HangOrder → List Piece × Bool → Type 0
Sends write_fails at o (pieces, returned) =
    ((returned ≡ false)
      × (o.duration ≤ℤ pos 0)
      × (at ≡ none)
      × (((o.is_partial ≡ true) × (write_fails ≡ false) × (pieces ≡ opening ∷ []))
          ⊎ ((o.is_partial ≡ false) × (pieces ≡ []))))
    ⊎ ((returned ≡ true)
        × (((o.is_partial ≡ true) × (write_fails ≡ true) × (pieces ≡ []))
            ⊎ ((cancelled : Bool) × Ends o.duration at cancelled
                × (((o.is_partial ≡ true)
                      × (write_fails ≡ false)
                      × (pieces ≡ opening ∷ closing cancelled ∷ []))
                    ⊎ ((o.is_partial ≡ false) × (pieces ≡ whole cancelled ∷ []))))))

tie-Ends :
    (d t : ℕ) (tie : Bool)
    → ltb 0 d ≡ true
    → ltb d t ≡ false
    → ltb t d ≡ false
    → Ends (pos d) (some t) tie
tie-Ends d t true e late same = (t, refl, inr (ground arith))
tie-Ends d t false e late same = (ground arith, inr (t, refl, ground arith))

hang-Ends :
    (duration : ℤ) (at : Option ℕ) (tie : Bool)
    → ((duration ≤ℤ pos 0) × (at ≡ none) × (hang duration at tie ≡ none))
      ⊎ ((cancelled : Bool) × (hang duration at tie ≡ some cancelled) × Ends duration at cancelled)
unfolding hang
hang-Ends (pos d) none tie = elim (Bool-cases (ltb 0 d)) [
  | inl e ↦ inr (false, rw e refl, (ground arith, inl refl))
  | inr e ↦ inl (ground arith, refl, rw e refl)
]
hang-Ends (negsuc d) none tie = inl (omega arith, refl, refl)
hang-Ends (pos d) (some t) tie = elim (Bool-cases (ltb 0 d)) [
  | inr e ↦ inr (true, rw e refl, (t, refl, inl (ground arith)))
  | inl e ↦ elim (Bool-cases (ltb d t)) [
    | inl early ↦ inr (false, rw (e, early) refl, (ground arith, inr (t, refl, ground arith)))
    | inr late ↦ elim (Bool-cases (ltb t d)) [
      | inl first ↦ inr (true, rw (e, late, first) refl, (t, refl, inr (ground arith)))
      | inr same ↦ inr (tie, rw (e, late, same) refl, tie-Ends d t tie e late same)
    ]
  ]
]
hang-Ends (negsuc d) (some t) tie = inr (true, refl, (t, refl, inl (omega arith)))

send_hang-Sends :
    (write_fails : Bool) (at : Option ℕ) (tie : Bool) (o : HangOrder)
    → Sends write_fails at o (send_hang write_fails at tie o)
unfolding send_hang
send_hang-Sends write_fails at tie o = elim (hang-Ends o.duration at tie) [
  | inl (short, never, e) ↦ rw (e, send_hang) (ground arith)
  | inr (cancelled, e, why) ↦ elim (Bool-cases o.is_partial) [
    | inr p ↦ rw (e, p, send_hang) (inr (refl, inr (cancelled, why, inr (refl, refl))))
    | inl p ↦ elim (Bool-cases write_fails) [
      | inl f ↦ rw (e, p, f, send_hang) (inr (refl, inl (refl, refl, refl)))
      | inr f ↦ rw (e, p, f, send_hang) (inr (refl, inr (cancelled, why, inl (refl, refl, refl))))
    ]
  ]
]

abbrev pub Hangs : Bool → Option ℕ → Response HangOrder → Response (List Piece × Bool) → Type 0
Hangs write_fails at (failed status code) sent = sent ≡ failed status code
Hangs write_fails at (answer o) (answer sent) = Sends write_fails at o sent
Hangs write_fails at (answer o) (failed status code) = ⊥

pub hang_handler-Hangs :
    (duration : Text → Option ℤ) (write_fails enabled : Bool) (at : Option ℕ) (tie : Bool)
    (query : Query)
    → Hangs write_fails at
        (read_hang duration enabled query)
        (hang_handler duration write_fails enabled at tie query)
unfolding hang_handler
hang_handler-Hangs duration write_fails enabled at tie query = go (read_hang duration enabled query)
  where
    go :
        (r : Response HangOrder)
        → Hangs write_fails at r (r >>= λ o. answer (send_hang write_fails at tie o))
    go (failed status code) = refl
    go (answer o) = send_hang-Sends write_fails at tie o
