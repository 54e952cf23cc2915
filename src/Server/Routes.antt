-- ===== src/Server/Routes.antt =====
-- `normalizeEndpoint` of internal/server/middleware.go.
use hotpod.Prelude.{
  ◌≡◌, refl, inl, inr, Bool, true, false, ◌&&◌, List, [], ◌∷◌, ◌==◌, if◌then◌else◌, arith,
  Bool-cases, All,
}
use hotpod.Prelude.Text.{Text, codes, text_eq, text_eq_iff}

-- `strings.HasPrefix(path, prefix)`
unfoldable pub has_prefix : Text → Text → Bool
has_prefix path [] = true
has_prefix [] (c ∷ prefix) = false
has_prefix (d ∷ path) (c ∷ prefix) = (d == c) && has_prefix path prefix

-- The cases of the switch that compare the whole path, in its order: each returns what it compares with.
abbrev pub exact_cases : List Text
exact_cases =
    codes "/healthz"
    ∷ codes "/readyz"
    ∷ codes "/startupz"
    ∷ codes "/metrics"
    ∷ codes "/info"
    ∷ codes "/cpu"
    ∷ codes "/memory"
    ∷ codes "/io"
    ∷ codes "/work"
    ∷ codes "/latency"
    ∷ codes "/queue/enqueue"
    ∷ codes "/queue/process"
    ∷ codes "/queue/status"
    ∷ codes "/queue/clear"
    ∷ []

unfoldable pub switch : List Text → Text → Text → Text
switch [] other path = other
switch (c ∷ cases) other path = if text_eq path c then c else switch cases other path

-- The cases after those.
unfoldable pub by_prefix : Text → Text
unfolding has_prefix
by_prefix path =
    if has_prefix path (codes "/fault/")
    then codes "/fault/*"
    else if has_prefix path (codes "/admin/")
    then codes "/admin/*"
    else codes "unknown"

unfoldable pub normalize_endpoint : Text → Text
unfolding switch by_prefix
normalize_endpoint path = switch exact_cases (by_prefix path) path

-- The names under which requests are counted.
abbrev pub known_endpoints : List Text
known_endpoints = codes "unknown" ∷ codes "/admin/*" ∷ codes "/fault/*" ∷ exact_cases

unfoldable pub one_of : List Text → Text → Bool
one_of [] path = false
one_of (c ∷ cs) path = if text_eq path c then true else one_of cs path

switch_own :
    (P : Text → Type 0) (cases : List Text) (other path : Text)
    → All P cases
    → P other
    → P (switch cases other path)
unfolding switch
switch_own P [] other path a o = o
switch_own P (c ∷ cases) other path a o = elim (Bool-cases (text_eq path c)) [
  | inl e ↦ rw e a.0
  | inr e ↦ rw e (switch_own P cases other path a.1 o)
]

by_prefix_own :
    (P : Text → Type 0) (path : Text)
    → P (codes "/fault/*")
    → P (codes "/admin/*")
    → P (codes "unknown")
    → P (by_prefix path)
unfolding by_prefix
by_prefix_own P path f a u = elim (Bool-cases (has_prefix path (codes "/fault/"))) [
  | inl e ↦ rw e f
  | inr e ↦ rw e (elim (Bool-cases (has_prefix path (codes "/admin/"))) [
    | inl e' ↦ rw e' a
    | inr e' ↦ rw e' u
  ])
]

module _ (p : Text → Bool) where
  abbrev all : List Text → Bool
  all [] = true
  all (c ∷ cs) = p c && all cs

  all-All : (cs : List Text) → all cs ≡ true → All (λ c. p c ≡ true) cs
  all-All [] e = tt
  all-All (c ∷ cs) e = elim (Bool-cases (p c)) [
    | inl h ↦ (h, all-All cs (ground (arith, e, h)))
    | inr h ↦ absurd (ground (arith, e, h))
  ]

-- Every path is counted under one of a fixed list of names, and a name of that list is counted under
-- itself.
pub normalize_endpoint_known :
    (path : Text)
    → (one_of known_endpoints (normalize_endpoint path) ≡ true)
      × (normalize_endpoint (normalize_endpoint path) ≡ normalize_endpoint path)
unfolding normalize_endpoint one_of has_prefix text_eq
normalize_endpoint_known path =
    let known : Text → Bool = λ t. one_of known_endpoints t && text_eq (normalize_endpoint t) t in
    let e : known (normalize_endpoint path) ≡ true =
      switch_own (λ t. known t ≡ true) exact_cases (by_prefix path) path
        (all-All known exact_cases refl)
        (by_prefix_own (λ t. known t ≡ true) path refl refl refl) in
    let split : (a b : Bool) → (a && b) ≡ true → (a ≡ true) × (b ≡ true) =
      λ a b h. (ground arith, ground arith) in
    let (k, t) =
      split (one_of known_endpoints (normalize_endpoint path))
        (text_eq (normalize_endpoint (normalize_endpoint path)) (normalize_endpoint path)) e in
    (k, (text_eq_iff (normalize_endpoint (normalize_endpoint path)) (normalize_endpoint path)).0 t)
