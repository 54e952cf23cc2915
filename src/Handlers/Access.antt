-- ===== src/Handlers/Access.antt =====
-- Who may use the handlers of internal/handlers/admin.go, and what they leave.
use hotpod.Prelude.{
  ℕ, suc, ◌≡◌, refl, sym, subst, ◌⊎◌, inl, inr, ◌≢◌, true, false, Option, none, some, [], ◌∷◌,
  arith, Bool-cases,
}
use hotpod.Prelude.Int.{ℤ, pos}
use hotpod.Prelude.Text.{Text, codes, text_eq, text_eq_iff}
use hotpod.Prelude.Dict.{lookup}
use hotpod.Prelude.Float.{Float}
use hotpod.Config.DirName.{is_empty}
use hotpod.Queue.Defs.{pause, resume, Queue, depth, clear, update_metrics}
use hotpod.Lifecycle.Defs.{get_ready_override, set_ready_override}
use hotpod.Config.Validate.{Config}
use hotpod.Handlers.Report.{AdminGcMemStats, collect_garbage, config_report}
use hotpod.Fault.Injector.{Injector, should_inject_error, reset}
use hotpod.Handlers.Response.{Response, answer, failed, Query}
use hotpod.Handlers.Admin.{
  set_ready, on_queue, change_rate, Admin, authenticate, guarded, ready, reset_handler, reset_all,
  AdminResetResponse, queue_pause, queue_resume, error_rate,
}

-- A handler is let through exactly if the token is empty or is given.
abbrev pub Allowed : Text → Text → Type 0
Allowed token given = (token ≡ []) ⊎ (given ≡ token)

abbrev pub unauthorized {ℓ} : {A : Type ℓ} → Response A
unauthorized = failed 401 (codes "UNAUTHORIZED")

authenticate_cases :
    (token given : Text)
    → (Allowed token given × (authenticate token given ≡ answer tt))
      ⊎ ((token ≢ []) × (given ≢ token) × (authenticate token given ≡ unauthorized))
unfolding authenticate is_empty
authenticate_cases [] given = inl (inl refl, refl)
authenticate_cases (c ∷ s) given = elim (Bool-cases (text_eq given (c ∷ s))) [
  | inl e ↦ inl (inr ((text_eq_iff given (c ∷ s)).0 e), rw e refl)
  | inr e ↦ inr (ground arith, ground (arith, text_eq_iff given (c ∷ s)), rw e refl)
]

pub authenticate_own : (token : Text) → authenticate token token ≡ answer tt
authenticate_own token = elim (authenticate_cases token token) [
  | inl (_, e) ↦ e
  | inr (_, n, _) ↦ absurd (n refl)
]

pub guarded_open {ℓ} :
    {S : Type ℓ} {A : Type ℓ} (token given : Text) (body : S → S × Response A) (s : S)
    → authenticate token given ≡ answer tt
    → guarded token given body s ≡ body s
unfolding guarded
guarded_open token given body s e = rw (e, guarded) refl

guarded_shut {ℓ} :
    {S : Type ℓ} {A : Type ℓ} (token given : Text) (body : S → S × Response A) (s : S)
    → authenticate token given ≡ unauthorized
    → guarded token given body s ≡ (s, unauthorized)
unfolding guarded
guarded_shut token given body s e = rw (e, guarded) refl

module _ {F : Type 0} ⦃fl : Float F⦄ where
  -- Without the token that is set, each of the seven handlers answers 401, and those that can change
  -- something leave everything as it is.
  pub handlers-guarded :
      (token given : Text) (parse_float : Text → Option F) (duration : Text → Option ℤ) (now : ℕ)
      (query : Query) (a : Admin F) (before after : AdminGcMemStats) (c : Config) (inj : Injector F)
      (q : Option Queue) (workers : ℤ)
      → token ≢ []
      → given ≢ token
      → (ready token given query a ≡ (a, unauthorized))
        × (reset_handler token given now a ≡ (a, unauthorized))
        × (queue_pause token given a ≡ (a, unauthorized))
        × (queue_resume token given a ≡ (a, unauthorized))
        × (error_rate token given parse_float duration now query a ≡ (a, unauthorized))
        × (collect_garbage token given before after ≡ unauthorized)
        × (config_report token given now c inj q workers ≡ unauthorized)
  unfolding ready reset_handler queue_pause queue_resume error_rate collect_garbage config_report
  handlers-guarded token given parse_float duration now query a before after c inj q workers n m =
      elim (authenticate_cases token given) [
        | inl (inl e, _) ↦ absurd (n e)
        | inl (inr e, _) ↦ absurd (m e)
        | inr (_, _, e) ↦ (
          guarded_shut token given (set_ready query) a e,
          guarded_shut token given (reset_all now) a e,
          guarded_shut token given (on_queue pause true) a e,
          guarded_shut token given (on_queue resume false) a e,
          guarded_shut token given (change_rate parse_float duration now query) a e,
          rw e refl,
          rw e refl,
        )
      ]

  -- What a reset leaves and answers, where there was a queue.
  abbrev pub Cleared :
      ℕ → F → ℕ → Text → Admin F → Queue → Admin F × Response AdminResetResponse → Type 0
  Cleared later u i endpoint a q (a', reply) =
      (r : AdminResetResponse) × (reply ≡ answer r)
      × (r.queue_cleared ≡ depth q)
      × (should_inject_error later u i endpoint a'.injector ≡ some (pos 0))
      × (get_ready_override a'.lifecycle ≡ none)
      × (a'.stops ≡ suc a.stops)
      × (q' : Queue) × (a'.queue ≡ some q')
      × (depth q' ≡ 0)
      × (q'.paused ≡ q.paused)

  reset_all-Cleared :
      (now later : ℕ) (u : F) (i : ℕ) (endpoint : Text) (a : Admin F) (q : Queue)
      → a.queue ≡ some q
      → Cleared later u i endpoint a q (reset_all now a)
  unfolding reset_all clear update_metrics depth reset set_ready_override get_ready_override
      should_inject_error lookup
  reset_all-Cleared now later u i endpoint a q e =
      rw (e, reset_all) (_, refl, refl, refl, refl, refl, _, refl, refl, refl)

  -- A reset that is allowed clears what the handlers can change but the pause: no request is failed from
  -- then on, the readiness is not overridden, the queue is empty and the answer says how much it held, and
  -- the workers are told to stop.
  pub reset_handler-Cleared :
      (token given : Text) (now later : ℕ) (u : F) (i : ℕ) (endpoint : Text) (a : Admin F)
      (q : Queue)
      → Allowed token given
      → a.queue ≡ some q
      → Cleared later u i endpoint a q (reset_handler token given now a)
  unfolding reset_handler
  reset_handler-Cleared token given now later u i endpoint a q ok e =
      elim (authenticate_cases token given) [
        | inl (_, o) ↦
            subst (Cleared later u i endpoint a q)
              (sym (guarded_open token given (reset_all now) a o))
              (reset_all-Cleared now later u i endpoint a q e)
        | inr (n, m, _) ↦ elim ok [ inl x ↦ absurd (n x) | inr x ↦ absurd (m x) ]
      ]
