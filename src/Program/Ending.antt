-- ===== src/Program/Ending.antt =====
-- How the program ends: `main` of cmd/hotpod/main.go with `Run` of internal/server/server.go.
use mathlib.Core.List.{Memᴰ}
use hotpod.Prelude.{
  ◌+◌, ◌≤◌, ◌≡◌, ◌≢◌, refl, ◌⊎◌, inl, inr, Bool, true, false, List, [], ◌∷◌, ◌++◌, if◌then◌else◌,
  arith, All, Bool-cases, sym, subst,
}
use hotpod.Prelude.Int.{ℤ, pos, negsuc, pos_part, max_int64, wrap_int64, ◌≤ℤ◌, ◌+ℤ◌}
use hotpod.Prelude.Text.{Text, codes, text_eq, text_eq_iff}
use hotpod.Config.Result.{ok}
use hotpod.Config.Validate.{Config, IsValid}
use hotpod.Server.Run.{Awaited, fails_listening, signalled, shutdown_limit, run_server, is_error}
use hotpod.Program.Routes.{registered}
use hotpod.Program.Main.{
  Act, sets_level, sets_sidecar_mode, registers, starts_pprof, starts_runner, serves, stops_runner,
  stops_workers, exits, init_logger, main, Level,
}

-- An act that ends something.
abbrev pub ends : Act → Bool
ends stops_runner = true
ends stops_workers = true
ends (exits _) = true
ends _ = false

-- The limit of the settings, where it fits an int64.
abbrev pub limit : Config → ℤ
limit c = pos (pos_part c.shutdown_timeout + pos_part c.shutdown_delay + 5000000000)

limit_fits :
    (t d : ℤ)
    → pos 0 ≤ℤ t
    → pos 0 ≤ℤ d
    → pos_part t + pos_part d + 5000000000 ≤ max_int64
    → wrap_int64 (wrap_int64 (t +ℤ d) +ℤ pos 5000000000)
      ≡ pos (pos_part t + pos_part d + 5000000000)
unfolding wrap_int64
limit_fits (pos t) (pos d) a b h = ground arith
limit_fits (pos t) (negsuc d) a b h = absurd (omega (arith, b))
limit_fits (negsuc t) d a b h = absurd (omega (arith, a))

-- What comes after the serving: by how that ended.
abbrev pub EndsAs : (ℤ → Bool) → Awaited → Config → List Act → List Act → Type 0
EndsAs closes awaited c before after =
    (((awaited ≡ fails_listening) ⊎ (closes (limit c) ≡ false)) × (after ≡ exits 1 ∷ []))
    ⊎ ((awaited ≡ signalled)
        × (closes (limit c) ≡ true)
        × (((c.mode ≡ codes "sidecar") × Memᴰ starts_runner before × (after ≡ stops_runner ∷ []))
            ⊎ ((c.mode ≡ codes "app")
                × All (λ a. a ≢ starts_runner) before
                × (after ≡ stops_workers ∷ []))))

-- The acts before the serving.
abbrev pub starting : Level → Bool → Bool → List Act
starting level pprof sidecar =
    (sets_level level ∷ sets_sidecar_mode sidecar ∷ registers (registered sidecar) ∷ [])
    ++ (if pprof then starts_pprof ∷ [] else [])
    ++ (if sidecar then starts_runner ∷ [] else [])

abbrev pub Ends : (ℤ → Bool) → Awaited → Config → List Act → Type 0
Ends closes awaited c acts =
    (before after : List Act) × (acts ≡ before ++ serves ∷ after)
    × All (λ a. ends a ≡ false) before
    × EndsAs closes awaited c before after

-- All of the acts, by what they depend on.
abbrev acts : Level → Bool → Bool → Bool → List Act
acts level pprof sidecar failed =
    (sets_level level ∷ sets_sidecar_mode sidecar ∷ registers (registered sidecar) ∷ [])
    ++ (if pprof then starts_pprof ∷ [] else [])
    ++ (if sidecar then starts_runner ∷ [] else [])
    ++ (serves
        ∷ (if failed
            then exits 1 ∷ []
            else if sidecar
            then stops_runner ∷ []
            else stops_workers ∷ []))

abbrev after_serving : Bool → Bool → List Act
after_serving sidecar failed =
    if failed then exits 1 ∷ [] else if sidecar then stops_runner ∷ [] else stops_workers ∷ []

acts-parted :
    (level : Level) (pprof sidecar failed : Bool)
    → acts level pprof sidecar failed
      ≡ starting level pprof sidecar ++ serves ∷ after_serving sidecar failed
acts-parted level true true failed = refl
acts-parted level true false failed = refl
acts-parted level false true failed = refl
acts-parted level false false failed = refl

starting-ends :
    (level : Level) (pprof sidecar : Bool)
    → All (λ a. ends a ≡ false) (starting level pprof sidecar)
starting-ends level true true = ground arith
starting-ends level true false = ground arith
starting-ends level false true = ground arith
starting-ends level false false = ground arith

runner_started : (level : Level) (pprof : Bool) → Memᴰ starts_runner (starting level pprof true)
runner_started level true = Memᴰ.tail (Memᴰ.tail (Memᴰ.tail (Memᴰ.tail (Memᴰ.head refl))))
runner_started level false = Memᴰ.tail (Memᴰ.tail (Memᴰ.tail (Memᴰ.head refl)))

no_runner :
    (level : Level) (pprof : Bool) → All (λ a. a ≢ starts_runner) (starting level pprof false)
no_runner level true = ((λ e. cc), ((λ e. cc), ((λ e. cc), ((λ e. cc), tt))))
no_runner level false = ((λ e. cc), ((λ e. cc), ((λ e. cc), tt)))

not_sidecar :
    {mode : Text}
    → (mode ≡ codes "app") ⊎ (mode ≡ codes "sidecar")
    → text_eq mode (codes "sidecar") ≡ false
    → mode ≡ codes "app"
not_sidecar (inl e) f = e
not_sidecar {mode} (inr e) f = ground (arith, (text_eq_iff mode (codes "sidecar")).1 e)

run_server_cases :
    (closes : ℤ → Bool) (awaited : Awaited) (c : Config)
    → shutdown_limit c ≡ limit c
    → (((awaited ≡ fails_listening) ⊎ (closes (limit c) ≡ false))
        × (is_error (run_server closes awaited c) ≡ true))
      ⊎ ((awaited ≡ signalled)
          × (closes (limit c) ≡ true)
          × (is_error (run_server closes awaited c) ≡ false))
unfolding run_server is_error
run_server_cases closes fails_listening c e = inl (inl refl, refl)
run_server_cases closes signalled c e = elim (Bool-cases (closes (limit c))) [
  | inl f ↦ inr (refl, f, rw (e, f, run_server) refl)
  | inr f ↦ inl (inr f, rw (e, f, run_server) refl)
]

-- `main` with valid settings whose time limit for the shutdown fits an int64: before it serves it ends
-- nothing. If listening fails, or the server is not closed within the limit, which is the timeout, the delay
-- and five seconds, it exits with 1 and stops nothing. Else, after a signal, it stops the runner in the
-- sidecar mode, which alone had started one, and the workers in the other.
pub main-Ends :
    (closes : ℤ → Bool) (awaited : Awaited) (c : Config)
    → IsValid c
    → pos_part c.shutdown_timeout + pos_part c.shutdown_delay + 5000000000 ≤ max_int64
    → Ends closes awaited c (main closes awaited (ok c))
unfolding main
main-Ends closes awaited c v h =
    let fits : shutdown_limit c ≡ limit c =
      unfold shutdown_limit in
      limit_fits c.shutdown_timeout c.shutdown_delay v.shutdown_timeout_ok v.shutdown_delay_ok h in
    let sidecar = text_eq c.mode (codes "sidecar") in
    let failed = is_error (run_server closes awaited c) in
    let level = init_logger c.log_level in
    (
      starting level c.enable_pprof sidecar,
      after_serving sidecar failed,
      acts-parted level c.enable_pprof sidecar failed,
      starting-ends level c.enable_pprof sidecar,
      elim (run_server_cases closes awaited c fits) [
        | inl (why, e) ↦ inl (why, rw e refl)
        | inr (signal, closed, e) ↦ inr (
          signal,
          closed,
          elim (Bool-cases sidecar) [
            | inl m ↦ inl (
              (text_eq_iff c.mode (codes "sidecar")).0 m,
              subst (λ b. Memᴰ starts_runner (starting level c.enable_pprof b)) (sym m)
                  (runner_started level c.enable_pprof),
              rw (e, m) refl,
            )
            | inr m ↦ inr (
              not_sidecar v.mode_known m,
              subst (λ b. All (λ a. a ≢ starts_runner) (starting level c.enable_pprof b)) (sym m)
                  (no_runner level c.enable_pprof),
              rw (e, m) refl,
            )
          ],
        )
      ],
    )
