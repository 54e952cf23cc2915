-- ===== src/Prelude/Dict.antt =====
-- Go maps with text keys, as association lists in which a write replaces the first entry of its key.
use hotpod.Prelude.{
  ◌≡◌, refl, subst, inl, inr, Bool, false, Bool-cases, Option, none, some, List, [], ◌∷◌,
  if◌then◌else◌, arith,
}
use hotpod.Prelude.Text.{Text, text_eq, text_eq_iff}

module _ {ℓ} {V : Type ℓ} where
  unfoldable pub lookup : Text → List (Text × V) → Option V
  lookup k [] = none
  lookup k ((j, v) ∷ m) = if text_eq j k then some v else lookup k m

  unfoldable pub insert : Text → V → List (Text × V) → List (Text × V)
  insert k v [] = (k, v) ∷ []
  insert k v ((j, w) ∷ m) = if text_eq j k then (k, v) ∷ m else (j, w) ∷ insert k v m

  unfoldable pub delete : Text → List (Text × V) → List (Text × V)
  delete k [] = []
  delete k ((j, w) ∷ m) = let rest = delete k m in if text_eq j k then rest else (j, w) ∷ rest

  unfoldable pub keep_values : (V → Bool) → List (Text × V) → List (Text × V)
  keep_values p [] = []
  keep_values p ((j, w) ∷ m) = let rest = keep_values p m in if p w then (j, w) ∷ rest else rest

  pub lookup-insert :
      (k j : Text) (v : V) (m : List (Text × V))
      → lookup j (insert k v m) ≡ (if text_eq k j then some v else lookup j m)
  unfolding lookup insert
  lookup-insert k j v [] = refl
  lookup-insert k j v ((i, w) ∷ m) =
      ground (arith, text_eq_iff k j, text_eq_iff i k, text_eq_iff i j, lookup-insert k j v m)

  pub lookup-delete :
      (k j : Text) (m : List (Text × V))
      → lookup j (delete k m) ≡ (if text_eq k j then none else lookup j m)
  unfolding lookup delete
  lookup-delete k j [] = ground arith
  lookup-delete k j ((i, w) ∷ m) =
      ground (arith, text_eq_iff k j, text_eq_iff i k, text_eq_iff i j, lookup-delete k j m)

-- No key has two entries.
abbrev pub Fresh {ℓ} : {V : Type ℓ} → Text → List (Text × V) → Type ℓ
Fresh k m = lookup k m ≡ none

abbrev pub KeysDiffer {ℓ} : {V : Type ℓ} → List (Text × V) → Type ℓ
KeysDiffer [] = Unit
KeysDiffer ((j, w) ∷ m) = Fresh j m × KeysDiffer m

module _ {ℓ} {V : Type ℓ} where
  pub insert-KeysDiffer :
      (k : Text) (v : V) (m : List (Text × V)) → KeysDiffer m → KeysDiffer (insert k v m)
  unfolding insert
  insert-KeysDiffer k v [] d = (unfold lookup in refl, tt)
  insert-KeysDiffer k v ((j, w) ∷ m) d = elim (Bool-cases (text_eq j k)) [
    | inl same ↦
        let e : j ≡ k = (text_eq_iff j k).0 same in rw same (subst (λ x. Fresh x m) e d.0, d.1)
    | inr other ↦
        let apart : text_eq k j ≡ false = ground (arith, text_eq_iff j k, text_eq_iff k j) in
        rw other (rw (lookup-insert k j v m, apart) d.0, insert-KeysDiffer k v m d.1)
  ]

  pub delete-KeysDiffer : (k : Text) (m : List (Text × V)) → KeysDiffer m → KeysDiffer (delete k m)
  unfolding delete
  delete-KeysDiffer k [] d = tt
  delete-KeysDiffer k ((j, w) ∷ m) d = elim (Bool-cases (text_eq j k)) [
    | inl same ↦ rw same (delete-KeysDiffer k m d.1)
    | inr other ↦
        let apart : text_eq k j ≡ false = ground (arith, text_eq_iff j k, text_eq_iff k j) in
        rw other (rw (lookup-delete k j m, apart) d.0, delete-KeysDiffer k m d.1)
  ]

-- What a filter over the entries leaves under a key.
abbrev pub kept {ℓ} : {V : Type ℓ} → (V → Bool) → Option V → Option V
kept p none = none
kept p (some v) = if p v then some v else none

module _ {ℓ} {V : Type ℓ} (p : V → Bool) (k : Text) where
  kept_none : (m : List (Text × V)) → lookup k m ≡ none → lookup k (keep_values p m) ≡ none
  unfolding lookup keep_values
  kept_none [] e = refl
  kept_none ((j, w) ∷ m) e = ground (arith, kept_none m)

  pub lookup-keep_values :
      (m : List (Text × V)) → KeysDiffer m → lookup k (keep_values p m) ≡ kept p (lookup k m)
  unfolding lookup keep_values
  lookup-keep_values [] d = refl
  lookup-keep_values ((j, w) ∷ m) d = elim (Bool-cases (text_eq j k)) [
    | inl same ↦
        let e : j ≡ k = (text_eq_iff j k).0 same in
        let gone : lookup k m ≡ none = subst (λ x. Fresh x m) e d.0 in
        ground (arith, kept_none m gone)
    | inr other ↦ ground (arith, lookup-keep_values m d.1)
  ]
