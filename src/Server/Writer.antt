-- ===== src/Server/Writer.antt =====
-- `responseWriter` of internal/server/middleware.go: what it lets through, and what it records.
use hotpod.Prelude.{
  ℕ, suc, ◌≡◌, refl, ap, ◌∙◌, true, Option, none, some, List, [], ◌∷◌, ◌++◌, arith, ◌≤◌,
}
use hotpod.Prelude.Int.{ℤ}
use hotpod.Prelude.Text.{Text}
use hotpod.Server.Middleware.{
  Call, header, write_header, write, status_ok, new_response_writer, pass,
}

-- The code of the first call of `WriteHeader`, and what is recorded for the calls.
abbrev pub first_code : List Call → Option ℤ
first_code [] = none
first_code (write_header code ∷ cs) = some code
first_code (header k v ∷ cs) = first_code cs
first_code (write b ∷ cs) = first_code cs

abbrev pub or_code : Option ℤ → ℤ → ℤ
or_code none d = d
or_code (some c) d = c

-- The status that a client reads: that of the first call, where a `Write` stands for one with 200.
abbrev pub sent : List Call → ℤ
sent [] = status_ok
sent (write_header code ∷ cs) = code
sent (header k v ∷ cs) = sent cs
sent (write b ∷ cs) = status_ok

abbrev pub headers_count : List Call → ℕ
headers_count [] = 0
headers_count (write_header code ∷ cs) = suc (headers_count cs)
headers_count (header k v ∷ cs) = headers_count cs
headers_count (write b ∷ cs) = headers_count cs

-- No `Write` comes before the first `WriteHeader`.
abbrev pub HeaderFirst : List Call → Type 0
HeaderFirst [] = Unit
HeaderFirst (write_header code ∷ cs) = Unit
HeaderFirst (header k v ∷ cs) = HeaderFirst cs
HeaderFirst (write b ∷ cs) = first_code cs ≡ none

pass-wrote :
    (cs : List Call) (c : ℤ)
    → ((pass (record { status_code = c; wrote_header = true }) cs).0
        ≡ record { status_code = c; wrote_header = true })
      × (headers_count (pass (record { status_code = c; wrote_header = true }) cs).1 ≡ 0)
      × (first_code (pass (record { status_code = c; wrote_header = true }) cs).1 ≡ none)
unfolding pass
pass-wrote [] c = (refl, refl, refl)
pass-wrote (write_header code ∷ cs) c = pass-wrote cs c
pass-wrote (header k v ∷ cs) c = pass-wrote cs c
pass-wrote (write b ∷ cs) c = pass-wrote cs c

pub pass_code :
    (cs : List Call)
    → ((pass new_response_writer cs).0.status_code ≡ or_code (first_code cs) status_ok)
      × (first_code (pass new_response_writer cs).1 ≡ first_code cs)
      × (sent (pass new_response_writer cs).1 ≡ sent cs)
      × (headers_count (pass new_response_writer cs).1 ≤ 1)
unfolding pass new_response_writer
pass_code [] = (refl, refl, refl, omega arith)
pass_code (write_header code ∷ cs) =
    let (a, b, c) = pass-wrote cs code in
    (ap (λ v. v.status_code) a, refl, refl, rw b (omega arith))
pass_code (header k v ∷ cs) = pass_code cs
pass_code (write b ∷ cs) = let (a, f, s, h) = pass_code cs in (a, f, refl, h)

header_first : (cs : List Call) → HeaderFirst cs → or_code (first_code cs) status_ok ≡ sent cs
header_first [] h = refl
header_first (write_header code ∷ cs) h = refl
header_first (header k v ∷ cs) h = header_first cs h
header_first (write b ∷ cs) h = rw h refl

-- The wrapped writer lets at most one call of `WriteHeader` through and does not change what the client
-- reads. It records the status that the client reads, where nothing is written before the first
-- `WriteHeader`.
pub pass-records :
    (cs : List Call)
    → HeaderFirst cs
    → (headers_count (pass new_response_writer cs).1 ≤ 1)
      × (sent (pass new_response_writer cs).1 ≡ sent cs)
      × ((pass new_response_writer cs).0.status_code ≡ sent cs)
pass-records cs h = let (a, f, s, c) = pass_code cs in (c, s, a ∙ header_first cs h)

-- The wrapped writer records an error that is raised after the body was begun, though the client has
-- read 200.
pub pass-misreports :
    (cs : List Call) (code : ℤ) (b : Text)
    → ((pass new_response_writer (write b ∷ write_header code ∷ cs)).0.status_code ≡ code)
      × (sent (pass new_response_writer (write b ∷ write_header code ∷ cs)).1 ≡ status_ok)
pass-misreports cs code b =
    let (a, f, s, c) = pass_code (write b ∷ write_header code ∷ cs) in (a, s)

pub first_code-append :
    (xs ys : List Call)
    → first_code (xs ++ ys) ≡ elim (first_code xs) [ none ↦ first_code ys | some c ↦ some c ]
first_code-append [] ys = refl
first_code-append (write_header code ∷ xs) ys = refl
first_code-append (header k v ∷ xs) ys = first_code-append xs ys
first_code-append (write b ∷ xs) ys = first_code-append xs ys
