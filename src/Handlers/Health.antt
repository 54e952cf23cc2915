-- ===== src/Handlers/Health.antt =====
-- internal/handlers/health.go. An answer is its status, its text and its reason.
use hotpod.Prelude.{
  sym, ◌∙◌, subst, ℕ, ◌≡◌, refl, Bool, false, ◌==◌, if◌then◌else◌, Option, none, some, arith, [],
}
use hotpod.Prelude.Int.{ℤ}
use hotpod.Prelude.Text.{Text, codes, text_eq}
use hotpod.Lifecycle.Defs.{
  Lifecycle, state_starting, state_ready, state_shutting_down, startup_remaining, is_ready,
  set_ready_override,
}
use hotpod.Handlers.Response.{answer, Query}
use hotpod.Handlers.Access.{authenticate_own, guarded_open}
use hotpod.Handlers.Admin.{Admin, set_ready, chosen_override, ready, ready_report}

pub record Health : Type 0 where
  pub code : ℕ
  pub status : Text
  pub reason : Text
  pub remaining : Option ℤ

abbrev health_ok : Health
health_ok = record { code = 200; status = codes "ok"; reason = []; remaining = none }

unfoldable pub healthz : Lifecycle → Health
healthz lc = health_ok

unfoldable pub readyz : Lifecycle → Health
readyz lc =
    if lc.state == state_starting
    then record {
      code = 503;
      status = codes "not_ready";
      reason = codes "server is starting";
      remaining = none;
    }
    else if lc.state == state_shutting_down
    then record {
      code = 503;
      status = codes "not_ready";
      reason = codes "server is shutting down";
      remaining = none;
    }
    else if lc.state == state_ready
    then health_ok
    else record {
      code = 500;
      status = codes "error";
      reason = codes "unknown server state";
      remaining = none;
    }

unfoldable pub startupz : ℕ → Lifecycle → Health
unfolding startup_remaining
startupz now lc =
    if lc.state == state_starting
    then record {
      code = 503;
      status = codes "starting";
      reason = codes "startup in progress";
      remaining = some (startup_remaining now lc);
    }
    else health_ok

-- The readiness probe answers 200 exactly in the state ready, and the startup probe 503 exactly in the
-- state starting. The readiness probe does not look at the override of the readiness.
pub probes-state :
    (now : ℕ) (o : Option Bool) (lc : Lifecycle)
    → (((readyz lc).code == 200) ≡ (lc.state == state_ready))
      × (((startupz now lc).code == 503) ≡ (lc.state == state_starting))
      × (readyz (set_ready_override o lc) ≡ readyz lc)
unfolding readyz startupz set_ready_override
probes-state now o lc = (ground arith, ground arith, refl)

chosen_false :
    {F : Type 0} (query : Query) (a : Admin F)
    → query (codes "state") ≡ codes "false"
    → chosen_override (query (codes "state")) a.lifecycle ≡ answer (some false)
unfolding chosen_override text_eq
chosen_false query a e = rw e refl

set_false :
    {F : Type 0} (query : Query) (a : Admin F)
    → query (codes "state") ≡ codes "false"
    → let lc = set_ready_override (some false) a.lifecycle in
      set_ready query a ≡ (record a { lifecycle = lc }, answer (ready_report lc))
unfolding set_ready
set_false query a e = rw (chosen_false query a e, set_ready) refl

-- A call of `/admin/ready?state=false` with the right token on a server that is in the state ready
-- answers that the server is not ready, and the readiness probe goes on to answer 200.
pub ready-unseen :
    {F : Type 0} (token : Text) (query : Query) (a : Admin F)
    → query (codes "state") ≡ codes "false"
    → a.lifecycle.state ≡ state_ready
    → let (a', reply) = ready token token query a in
      (reply ≡ answer (ready_report a'.lifecycle))
      × (is_ready a'.lifecycle ≡ false)
      × ((readyz a'.lifecycle).code ≡ 200)
unfolding ready readyz is_ready set_ready_override
ready-unseen token query a e s =
    let set = set_false query a e in
    let same : ready token token query a ≡ set_ready query a =
      guarded_open token token (set_ready query) a (authenticate_own token) in
    subst
      (λ p.
        (p.1 ≡ answer (ready_report p.0.lifecycle))
        × (is_ready p.0.lifecycle ≡ false)
        × ((readyz p.0.lifecycle).code ≡ 200))
      (sym (same ∙ set)) (refl, refl, rw s refl)
