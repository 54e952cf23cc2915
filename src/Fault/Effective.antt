-- ===== src/Fault/Effective.antt =====
-- Which configuration of internal/fault/injector.go is in effect for an endpoint, and what it injects.
use mathlib.Core.List.{Memᴰ}
use hotpod.Prelude.{
  ℕ, ◌<◌, ◌≤◌, ◌≡◌, refl, ◌∙◌, ap, ◌⊎◌, inl, inr, true, false, not, Option, none, some, List, [],
  ◌∷◌, if◌then◌else◌, length, get_elem?-Memᴰ, arith, Bool-cases,
}
use hotpod.Prelude.Int.{ℤ, pos}
use hotpod.Prelude.Text.{Text, text_eq}
use hotpod.Prelude.Dict.{
  lookup, lookup-insert, lookup-delete, lookup-keep_values, KeysDiffer, kept, insert-KeysDiffer,
  delete-KeysDiffer,
}
use hotpod.Prelude.Float.{Float}
use hotpod.Fault.Injector.{
  ErrorConfig, Injector, select_code, is_expired, new_injector, set_global_config, live, or_else,
  get_config, reset, get_global_config, get_endpoint_configs, should_inject, set_endpoint_config,
  inject_by, should_inject_error,
}

-- The calls that change an injector.
pub data Op (F : Type 0) : Type 0 where
  sets : Text → Option (ErrorConfig F) → Op F
  sets_global : Option (ErrorConfig F) → Op F
  resets : Op F

module _ {F : Type 0} where
  kept-live :
      (now : ℕ) (c : Option (ErrorConfig F)) → kept (λ c'. not (is_expired now c')) c ≡ live now c
  unfolding live
  kept-live now none = refl
  kept-live now (some c) = ground arith

  select_by :
      (i : ℕ) (rate : F) (expires_at : ℕ) (codes : List ℤ)
      → (length codes ≤ 1) ⊎ (i < length codes)
      → (code : ℤ) × (select_code i (record { rate = rate; codes = codes; expires_at = expires_at })
          ≡ some code)
        × (((codes ≡ []) × (code ≡ pos 500)) ⊎ Memᴰ code codes)
  unfolding select_code
  select_by i rate expires_at [] d = (pos 500, refl, inl (refl, refl))
  select_by i rate expires_at (x ∷ []) d = (x, refl, inr (Memᴰ.head refl))
  select_by i rate expires_at (x ∷ y ∷ rest) (inl e) = absurd (omega arith)
  select_by i rate expires_at (x ∷ y ∷ rest) (inr h) =
      let (c, e, m) = get_elem?-Memᴰ (x ∷ y ∷ rest) i h in (c, e, inr m)

module _ {F : Type 0} ⦃fl : Float F⦄ where
  open fl use {ltb_F, leb_F, zero_F, one_F}

  unfoldable pub run : Injector F → List (Op F) → Injector F
  run inj [] = inj
  run inj (sets endpoint c ∷ os) = run (set_endpoint_config endpoint c inj) os
  run inj (sets_global c ∷ os) = run (set_global_config c inj) os
  run inj (resets ∷ os) = run (reset inj) os

  -- What the setting of an endpoint leaves in place: a rate not above 0 clears it.
  abbrev pub accepted : Option (ErrorConfig F) → Option (ErrorConfig F)
  accepted none = none
  accepted (some c) = if leb_F c.rate zero_F then none else some c

  -- The last setting of an endpoint, and of all endpoints, in a history.
  abbrev pub last_for : Text → Option (ErrorConfig F) → List (Op F) → Option (ErrorConfig F)
  last_for endpoint c [] = c
  last_for endpoint c (sets k c' ∷ os) =
      last_for endpoint (if text_eq k endpoint then accepted c' else c) os
  last_for endpoint c (sets_global _ ∷ os) = last_for endpoint c os
  last_for endpoint c (resets ∷ os) = last_for endpoint none os

  abbrev pub last_global : Option (ErrorConfig F) → List (Op F) → Option (ErrorConfig F)
  last_global c [] = c
  last_global c (sets k _ ∷ os) = last_global c os
  last_global c (sets_global c' ∷ os) = last_global c' os
  last_global c (resets ∷ os) = last_global none os

  pub set-lookup :
      (k endpoint : Text) (c : Option (ErrorConfig F)) (inj : Injector F)
      → lookup endpoint (set_endpoint_config k c inj).configs
        ≡ (if text_eq k endpoint then accepted c else lookup endpoint inj.configs)
  unfolding set_endpoint_config
  set-lookup k endpoint none inj = lookup-delete k endpoint inj.configs
  set-lookup k endpoint (some c) inj =
      ground (arith, lookup-delete k endpoint inj.configs, lookup-insert k endpoint c inj.configs)

  pub set-global :
      (k : Text) (c : Option (ErrorConfig F)) (inj : Injector F)
      → (set_endpoint_config k c inj).global_config ≡ inj.global_config
  unfolding set_endpoint_config
  set-global k none inj = refl
  set-global k (some c) inj = ground arith

  set-KeysDiffer :
      (k : Text) (c : Option (ErrorConfig F)) (inj : Injector F)
      → KeysDiffer inj.configs
      → KeysDiffer (set_endpoint_config k c inj).configs
  unfolding set_endpoint_config
  set-KeysDiffer k none inj d = delete-KeysDiffer k inj.configs d
  set-KeysDiffer k (some c) inj d = elim (Bool-cases (leb_F c.rate zero_F)) [
    | inl off ↦ rw off (delete-KeysDiffer k inj.configs d)
    | inr on ↦ rw on (insert-KeysDiffer k c inj.configs d)
  ]

  run-lookup :
      (endpoint : Text) (inj : Injector F) (os : List (Op F))
      → (lookup endpoint (run inj os).configs ≡ last_for endpoint (lookup endpoint inj.configs) os)
        × ((run inj os).global_config ≡ last_global inj.global_config os)
  unfolding run set_global_config reset lookup
  run-lookup endpoint inj [] = (refl, refl)
  run-lookup endpoint inj (sets k c ∷ os) =
      let (own, all) = run-lookup endpoint (set_endpoint_config k c inj) os in
      (
        own ∙ ap (λ x. last_for endpoint x os) (set-lookup k endpoint c inj),
        all ∙ ap (λ x. last_global x os) (set-global k c inj),
      )
  run-lookup endpoint inj (sets_global c ∷ os) = run-lookup endpoint (set_global_config c inj) os
  run-lookup endpoint inj (resets ∷ os) = run-lookup endpoint (reset inj) os

  run-KeysDiffer :
      (inj : Injector F) (os : List (Op F))
      → KeysDiffer inj.configs
      → KeysDiffer (run inj os).configs
  unfolding run set_global_config reset
  run-KeysDiffer inj [] d = d
  run-KeysDiffer inj (sets k c ∷ os) d =
      run-KeysDiffer (set_endpoint_config k c inj) os (set-KeysDiffer k c inj d)
  run-KeysDiffer inj (sets_global c ∷ os) d = run-KeysDiffer (set_global_config c inj) os d
  run-KeysDiffer inj (resets ∷ os) d = run-KeysDiffer (reset inj) os tt

  -- After any history on a new injector, the configuration in effect for an endpoint at an instant is the
  -- last one set for it, if that had a rate above 0 and has not expired, and otherwise the last global
  -- one that has not expired. The lists that the admin page shows agree with this.
  pub get_config-run :
      (os : List (Op F)) (now : ℕ) (endpoint : Text)
      → let inj = run new_injector os in
        (get_config now endpoint inj
          ≡ or_else (live now (last_for endpoint none os)) (live now (last_global none os)))
        × (lookup endpoint (get_endpoint_configs now inj) ≡ live now (last_for endpoint none os))
        × (get_global_config now inj ≡ live now (last_global none os))
  unfolding get_config get_endpoint_configs get_global_config new_injector lookup
  get_config-run os now endpoint =
      let inj : Injector F = new_injector in
      let (own, all) = run-lookup endpoint inj os in
      let listed =
        lookup-keep_values (λ c. not (is_expired now c)) endpoint (run inj os).configs
          (run-KeysDiffer inj os tt) in
      (
        rw (own, all, lookup) refl,
        listed
            ∙ ap (kept (λ c. not (is_expired now c))) own
            ∙ kept-live now (last_for endpoint none os),
        ap (live now) all,
      )

  -- `rand.IntN(n)`, which is called for two codes or more, is below `n`.
  abbrev pub Draws : ℕ → Option (ErrorConfig F) → Type 0
  Draws i none = Unit
  Draws i (some c) = (length c.codes ≤ 1) ⊎ (i < length c.codes)

  -- What may be injected by a configuration: one of its codes, or 500 if it has none.
  abbrev pub Offers : ErrorConfig F → ℤ → Type 0
  Offers c code = ((c.codes ≡ []) × (code ≡ pos 500)) ⊎ Memᴰ code c.codes

  -- The draw `u` is below the rate, where the rate is above 0; at a rate of at least 1 every draw counts.
  abbrev pub Hits : F → F → Type 0
  Hits u rate = (leb_F rate zero_F ≡ false) × ((leb_F one_F rate ≡ true) ⊎ (ltb_F u rate ≡ true))

  abbrev pub Misses : F → F → Type 0
  Misses u rate = (leb_F rate zero_F ≡ true) ⊎ ((leb_F one_F rate ≡ false) × (ltb_F u rate ≡ false))

  -- The request is let through (0), or met with a code of the configuration in effect.
  abbrev pub Injects : F → Option (ErrorConfig F) → Option ℤ → Type 0
  Injects u none r = r ≡ some (pos 0)
  Injects u (some c) r =
      (Misses u c.rate × (r ≡ some (pos 0)))
      ⊎ (Hits u c.rate × ((code : ℤ) × (r ≡ some code) × Offers c code))

  should_inject_cases :
      (u : F) (c : ErrorConfig F)
      → (Misses u c.rate × (should_inject u c ≡ false))
        ⊎ (Hits u c.rate × (should_inject u c ≡ true))
  unfolding should_inject
  should_inject_cases u c = elim (Bool-cases (leb_F c.rate zero_F)) [
    | inl low ↦ inl (inl low, rw low refl)
    | inr on ↦ elim (Bool-cases (leb_F one_F c.rate)) [
      | inl high ↦ inr ((on, inl high), rw (on, high) refl)
      | inr part ↦ elim (Bool-cases (ltb_F u c.rate)) [
        | inl hit ↦ inr ((on, inr hit), rw (on, part) hit)
        | inr miss ↦ inl (inr (part, miss), rw (on, part) miss)
      ]
    ]
  ]

  inject_by-Injects :
      (u : F) (i : ℕ) (c : Option (ErrorConfig F)) → Draws i c → Injects u c (inject_by u i c)
  unfolding inject_by
  inject_by-Injects u i none d = refl
  inject_by-Injects u i (some c) d = elim (should_inject_cases u c) [
    | inl (miss, off) ↦ inl (miss, rw off refl)
    | inr (hit, on) ↦ inr (hit, rw on (select_by i c.rate c.expires_at c.codes d))
  ]

  -- After any history of settings on a new injector: a request to an endpoint at an instant is let through
  -- if neither the last setting for the endpoint nor, in its absence, the last global one is still in
  -- effect, or if the rate of the one in effect is not above 0, or is below 1 and the draw not below it.
  -- Else it is met with a code of that setting, and with 500 if that lists none: no index into the list of
  -- codes is out of range, where the random number for two codes or more is below their number.
  pub should_inject_error-Injects :
      (os : List (Op F)) (now : ℕ) (u : F) (i : ℕ) (endpoint : Text)
      → let c = or_else (live now (last_for endpoint none os)) (live now (last_global none os)) in
        Draws i c → Injects u c (should_inject_error now u i endpoint (run new_injector os))
  unfolding should_inject_error
  should_inject_error-Injects os now u i endpoint d =
      let (met, _, _) = get_config-run os now endpoint in
      rw met (
        inject_by-Injects u i
          (or_else (live now (last_for endpoint none os)) (live now (last_global none os))) d)
