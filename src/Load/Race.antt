-- ===== src/Load/Race.antt =====
-- `Acquire` of internal/load/tracker.go under concurrency: any number of goroutines take turns at the
-- atomic operations on one counter, in any order. A schedule is the list of whose turn it is.
use hotpod.Prelude.{
  ℕ, zero, suc, ◌+◌, ◌≤◌, ◌<◌, ◌≡◌, refl, subst, ap, ◌⊎◌, inl, inr, Bool, true, false, ◌&&◌, List,
  [], ◌∷◌, arith, ◌==◌, if◌then◌else◌, length, Bool-cases,
}
use hotpod.Prelude.Int.{ℤ, pos, pos_part, neg_part, ◌≤ℤ◌, ◌<ℤ◌, max_int64}
use hotpod.Load.Defs.{at_limit, up, down}
use hotpod.Load.Limits.{up-pos, down-pos}

-- Where a goroutine stands: outside; between `Load` and `CompareAndSwap`, with the value it read;
-- turned away; or running its operation, before it calls the release function.
pub data Phase : Type 0 where
  idle : Phase
  loaded : ℤ → Phase
  refused : Phase
  holding : Phase

unfoldable pub same : ℤ → ℤ → Bool
same a b = (pos_part a == pos_part b) && (neg_part a == neg_part b)

-- One atomic operation of one goroutine. A failed compare-and-swap goes round the loop.
unfoldable pub advance : ℤ → ℤ → Phase → ℤ × Phase
unfolding same
advance max_ops counter idle = (counter, loaded counter)
advance max_ops counter (loaded current) =
    if at_limit max_ops current
    then (counter, refused)
    else if same counter current
    then (up current, holding)
    else (counter, idle)
advance max_ops counter refused = (counter, idle)
advance max_ops counter holding = (down counter, idle)

unfoldable pub turn : ℤ → ℕ → ℤ → List Phase → ℤ × List Phase
turn max_ops i counter [] = (counter, [])
turn max_ops zero counter (p ∷ ps) =
    let (counter', p') = advance max_ops counter p in (counter', p' ∷ ps)
turn max_ops (suc i) counter (p ∷ ps) =
    let (counter', ps') = turn max_ops i counter ps in (counter', p ∷ ps')

unfoldable pub turns : ℤ → List ℕ → ℤ → List Phase → ℤ × List Phase
turns max_ops [] counter ps = (counter, ps)
turns max_ops (i ∷ is) counter ps =
    let (counter', ps') = turn max_ops i counter ps in turns max_ops is counter' ps'

abbrev pub holds : Phase → ℕ
holds holding = 1
holds _ = 0

abbrev pub holders : List Phase → ℕ
holders [] = 0
holders (p ∷ ps) = holds p + holders ps

abbrev pub outside : ℕ → List Phase
outside zero = []
outside (suc n) = idle ∷ outside n

holders-le-length : (ps : List Phase) → holders ps ≤ length ps
holders-le-length [] = omega arith
holders-le-length (idle ∷ ps) = omega (arith, holders-le-length ps)
holders-le-length (loaded v ∷ ps) = omega (arith, holders-le-length ps)
holders-le-length (refused ∷ ps) = omega (arith, holders-le-length ps)
holders-le-length (holding ∷ ps) = omega (arith, holders-le-length ps)

holds-le-one : (p : Phase) → holds p ≤ 1
holds-le-one idle = omega arith
holds-le-one (loaded v) = omega arith
holds-le-one refused = omega arith
holds-le-one holding = omega arith

-- Within the limit, where there is one.
abbrev pub Within : ℤ → ℕ → Type 0
Within max_ops n = (max_ops ≤ℤ pos 0) ⊎ (pos n ≤ℤ max_ops)

same-pos : (a : ℕ) (v : ℤ) → same (pos a) v ≡ true → v ≡ pos a
unfolding same
same-pos a v h = ground arith

free-Within : (max_ops : ℤ) (n : ℕ) → at_limit max_ops (pos n) ≡ false → Within max_ops (n + 1)
unfolding at_limit
free-Within max_ops n h = ground arith

-- `k` goroutines hold besides the one that moves.
advance_keeps :
    (max_ops : ℤ) (k c : ℕ) (p : Phase)
    → c ≡ k + holds p
    → k < max_int64
    → Within max_ops c
    → (c' : ℕ) × ((advance max_ops (pos c) p).0 ≡ pos c')
      × (c' ≡ k + holds (advance max_ops (pos c) p).1)
      × Within max_ops c'
unfolding advance
advance_keeps max_ops k c idle e b w = (c, refl, e, w)
advance_keeps max_ops k c (loaded v) e b w = elim (Bool-cases (at_limit max_ops v)) [
  | inl full ↦ rw full (c, refl, e, w)
  | inr free ↦ elim (Bool-cases (same (pos c) v)) [
    | inl hit ↦
        rw (free, hit, same-pos c v hit)
          (
            c + 1,
            up-pos c (omega arith),
            omega arith,
            free-Within max_ops c (subst (λ u. at_limit max_ops u ≡ false) (same-pos c v hit) free),
          )
    | inr miss ↦ rw (free, miss) (c, refl, e, w)
  ]
]
advance_keeps max_ops k c refused e b w = (c, refl, e, w)
advance_keeps max_ops k c holding e b w =
    let e' : c ≡ k + 1 = e in rw e' (k, down-pos k b, omega arith, ground arith)

-- `k` goroutines hold besides those of the list.
turn_keeps :
    (max_ops : ℤ) (i k c : ℕ) (ps : List Phase)
    → c ≡ k + holders ps
    → k + length ps ≤ max_int64
    → Within max_ops c
    → (c' : ℕ) × ((turn max_ops i (pos c) ps).0 ≡ pos c')
      × (c' ≡ k + holders (turn max_ops i (pos c) ps).1)
      × (length (turn max_ops i (pos c) ps).1 ≡ length ps)
      × Within max_ops c'
unfolding turn
turn_keeps max_ops i k c [] e b w = (c, refl, e, refl, w)
turn_keeps max_ops zero k c (p ∷ ps) e b w =
    let (c', same_count, books, within) =
      advance_keeps max_ops (k + holders ps) c p (omega arith) (omega (arith, holders-le-length ps))
        w in
    (c', same_count, omega arith, refl, within)
turn_keeps max_ops (suc i) k c (p ∷ ps) e b w =
    let (c', same_count, books, len, within) =
      turn_keeps max_ops i (k + holds p) c ps (omega arith) (omega (arith, holds-le-one p)) w in
    (c', same_count, omega arith, ap suc len, within)

turns_keep :
    (max_ops : ℤ) (is : List ℕ) (c : ℕ) (ps : List Phase)
    → c ≡ holders ps
    → length ps ≤ max_int64
    → Within max_ops c
    → ((turns max_ops is (pos c) ps).0 ≡ pos (holders (turns max_ops is (pos c) ps).1))
      × Within max_ops (holders (turns max_ops is (pos c) ps).1)
unfolding turns
turns_keep max_ops [] c ps e b w = (ap pos e, rw e at w)
turns_keep max_ops (i ∷ is) c ps e b w =
    let (c', same_count, books, len, within) =
      turn_keeps max_ops i 0 c ps (omega arith) (omega arith) w in
    rw (same_count, turns)
      (turns_keep max_ops is c' (turn max_ops i (pos c) ps).1 (omega arith) (omega arith) within)

holders-outside : (n : ℕ) → (holders (outside n) ≡ 0) × (length (outside n) ≡ n)
holders-outside zero = (refl, refl)
holders-outside (suc n) = (omega (arith, holders-outside n), ap suc (holders-outside n).1)

-- However the atomic operations of up to 2^63 - 1 goroutines interleave, the counter is the number of
-- operations that run, and under a limit above 0 no more than the limit run at once.
pub turns-Within :
    (max_ops : ℤ) (n : ℕ) (is : List ℕ)
    → n ≤ max_int64
    → let (counter, ps) = turns max_ops is (pos 0) (outside n) in
      (counter ≡ pos (holders ps)) × ((pos 0 <ℤ max_ops) → pos (holders ps) ≤ℤ max_ops)
turns-Within max_ops n is b =
    let (counted, within) =
      turns_keep max_ops is 0 (outside n) (omega (arith, holders-outside n))
        (omega (arith, holders-outside n)) (omega arith) in
    (counted, λ h. ground (arith, within))
