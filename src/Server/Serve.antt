-- ===== src/Server/Serve.antt =====
-- How the server answers a request: the chain of internal/server/server.go, with the middlewares of
-- internal/server/middleware.go.
use hotpod.Prelude.{
  ℕ, zero, suc, ◌≡◌, refl, sym, ap, ◌∙◌, subst, ◌⊎◌, inl, inr, ◌≢◌, Bool, true, false, Option, none,
  some, List, [], ◌∷◌, ◌++◌, arith, Bool-cases, length, Option-cases, get_elem?-Memᴰ, ◌≤◌,
}
use hotpod.Prelude.Int.{ℤ, pos, negsuc, ◌+ℤ◌}
use hotpod.Prelude.Text.{Text}
use hotpod.Prelude.Float.{Float}
use hotpod.Lifecycle.Defs.{track_request, request_done, should_reject_request}
use hotpod.Fault.Injector.{should_inject_error}
use hotpod.Server.Routes.{normalize_endpoint}
use hotpod.Server.Writer.{first_code, or_code, sent, pass_code, first_code-append}
use hotpod.Server.Middleware.{
  Call, Request, World, Reply, Handler, status_ok, new_response_writer, pass, logging, recovery,
  request_tracking, drain_check, count_request, leave_gauge, metrics, inject, error_injection,
  chain_loop, chain, server_handler,
}

-- The loop applies the last middleware first, so that the first one is outermost.
abbrev pub nested {ℓ} : {H : Type ℓ} → H → List (H → H) → H
nested h [] = h
nested h (m ∷ ms) = m (nested h ms)

chain_loop-cons {ℓ} :
    {H : Type ℓ} (m : H → H) (ms : List (H → H)) (i : ℕ) (h : H)
    → i ≤ length ms
    → chain_loop (m ∷ ms) (suc i) h ≡ m (chain_loop ms i h)
unfolding chain_loop
chain_loop-cons m ms zero h l = refl
chain_loop-cons m ms (suc i) h l =
    let (m', e, _) = get_elem?-Memᴰ ms i (omega arith) in
    rw (e, chain_loop) (chain_loop-cons m ms i (m' h) (omega arith))

-- The first middleware of the list is the outermost.
pub chain-nested {ℓ} : {H : Type ℓ} (ms : List (H → H)) (h : H) → chain h ms ≡ nested h ms
unfolding chain
chain-nested [] h = refl
chain-nested (m ∷ ms) h =
    chain_loop-cons m ms (length ms) h (omega arith) ∙ ap m (chain-nested ms h)

-- The status that stands for a handler that ends without one: it panicked, or not.
abbrev pub failed_as : Bool → ℤ
failed_as true = pos 500
failed_as false = status_ok

module _ (http_error : Text → ℤ → List Call)
    (says : (t : Text) (c : ℤ) → first_code (http_error t c) ≡ some c) where
  with_error :
      (cs : List Call) (t : Text)
      → or_code (first_code ((pass new_response_writer cs).1 ++ http_error t (pos 500))) status_ok
        ≡ or_code (first_code cs) (pos 500)
  with_error cs t =
      let (_, f, _, _) = pass_code cs in
      rw (first_code-append (pass new_response_writer cs).1 (http_error t (pos 500)), f)
        (elim (Option-cases (first_code cs)) [
          | inl e ↦ rw (e, says t (pos 500)) refl
          | inr (c, e) ↦ rw e refl
        ])

module _ {F : Type 0} ⦃fl : Float F⦄ where
  -- What the injector is to do with a request.
  unfoldable pub drawn : ℕ → F → ℕ → Request → World F → Option ℤ
  unfolding should_inject_error normalize_endpoint
  drawn now u i r w = elim w.injector [
    | none ↦ some (pos 0)
    | some inj ↦ should_inject_error now u i (normalize_endpoint r.path) inj
  ]

  -- The state in which the routes see a request.
  abbrev pub entered : World F → World F
  entered w = record w {
    lifecycle = track_request w.lifecycle;
    in_flight_requests = w.in_flight_requests +ℤ pos 1;
  }

  -- A request that is turned away: the reply, and the state that it leaves.
  abbrev pub Answers : Reply F → ℤ → World F → Type 0
  Answers reply status w =
      (reply.panicked ≡ false)
      × (first_code reply.calls ≡ some status)
      × (sent reply.calls ≡ status)
      × (reply.world ≡ w)

  -- A request that reaches the routes: `inner` is what they make of it.
  abbrev pub Serves : Reply F → Reply F → Request → World F → Type 0
  Serves reply inner r w =
      (reply.panicked ≡ false)
      × (reply.world.requests_total
          ≡ inner.world.requests_total
            ++ ((
              normalize_endpoint r.path,
              or_code (first_code inner.calls) (failed_as inner.panicked),
            )
                ∷ []))
      × (reply.world.faults_injected ≡ inner.world.faults_injected)
      × (reply.world.in_flight_requests ≡ inner.world.in_flight_requests +ℤ negsuc 0)
      × (reply.world.lifecycle ≡ request_done inner.world.lifecycle)
      × (reply.world.injector ≡ inner.world.injector)

  by_draw :
      (fault_body : ℤ → Text) (now : ℕ) (u : F) (i : ℕ) (next : Handler F) (r : Request)
      (w : World F)
      → error_injection fault_body now u i next r w ≡ inject fault_body (drawn now u i r w) next r w
  unfolding error_injection drawn inject
  by_draw fault_body now u i next r w = elim (Option-cases w.injector) [
    | inl e ↦ rw e refl
    | inr (inj, e) ↦ rw e refl
  ]

  inject_cases :
      (fault_body : ℤ → Text) (next : Handler F) (r : Request) (w : World F) (code : ℤ)
      → ((code ≢ pos 0)
          × Answers (inject fault_body (some code) next r w) code (record w {
            faults_injected = w.faults_injected ++ ((normalize_endpoint r.path, code) ∷ []);
          }))
        ⊎ ((code ≡ pos 0) × (inject fault_body (some code) next r w ≡ next r w))
  unfolding inject
  inject_cases fault_body next r w (pos zero) = inr (refl, refl)
  inject_cases fault_body next r w (pos (suc n)) = inl (ground arith, (refl, refl, refl, refl))
  inject_cases fault_body next r w (negsuc n) = inl (ground arith, (refl, refl, refl, refl))

  counted :
      (cs : List Call) (w' : World F) (b : Bool) (r : Request) (w : World F)
      → b ≡ false
      → let reply =
          request_tracking (metrics (λ _ _. record { calls = cs; world = w'; panicked = b })) r w in
        (reply.panicked ≡ false)
        × (reply.world.requests_total
            ≡ w'.requests_total
              ++ ((normalize_endpoint r.path, or_code (first_code cs) status_ok) ∷ []))
        × (reply.world.faults_injected ≡ w'.faults_injected)
        × (reply.world.in_flight_requests ≡ w'.in_flight_requests +ℤ negsuc 0)
        × (reply.world.lifecycle ≡ request_done w'.lifecycle)
        × (reply.world.injector ≡ w'.injector)
  unfolding request_tracking metrics count_request leave_gauge
  counted cs w' true r w e = absurd (ground (arith, e))
  counted cs w' false r w e = (
    refl,
    ap (λ c. w'.requests_total ++ ((normalize_endpoint r.path, c) ∷ [])) (pass_code cs).0,
    refl,
    refl,
    refl,
    refl,
  )

  module _ (http_error : Text → ℤ → List Call)
      (says : (t : Text) (c : ℤ) → first_code (http_error t c) ≡ some c) where
    inner_recovered :
        (cs : List Call) (w' : World F) (b : Bool) (r : Request) (w : World F)
        → let reply =
            recovery http_error
              (logging (λ _ _. record { calls = cs; world = w'; panicked = b }))
              r
              w in
          (reply.panicked ≡ false)
          × (or_code (first_code reply.calls) status_ok ≡ or_code (first_code cs) (failed_as b))
          × (reply.world.requests_total ≡ w'.requests_total)
          × (reply.world.faults_injected ≡ w'.faults_injected)
          × (reply.world.in_flight_requests ≡ w'.in_flight_requests)
          × (reply.world.lifecycle ≡ w'.lifecycle)
          × (reply.world.injector ≡ w'.injector)
    unfolding recovery logging
    inner_recovered cs w' true r w =
        (refl, with_error http_error says cs _, refl, refl, refl, refl, refl)
    inner_recovered cs w' false r w =
        (refl, ap (λ o. or_code o status_ok) (pass_code cs).1, refl, refl, refl, refl, refl)

    served :
        (mux : Handler F) (r : Request) (w : World F)
        → Serves
            (request_tracking (metrics (recovery http_error (logging mux))) r w)
            (mux r (entered w))
            r
            w
    unfolding request_tracking metrics logging recovery
    served mux r w =
        let inner = mux r (entered w) in
        let (p, c, t, f, g, l, j) =
          inner_recovered inner.calls inner.world inner.panicked r (entered w) in
        let reply = recovery http_error (logging mux) r (entered w) in
        let (p', t', f', g', l', j') = counted reply.calls reply.world reply.panicked r w p in
        (
          p',
          t'
              ∙ ap
                  (λ z.
                    z
                    ++ ((normalize_endpoint r.path, or_code (first_code reply.calls) status_ok)
                        ∷ []))
                  t
              ∙ ap (λ z. inner.world.requests_total ++ ((normalize_endpoint r.path, z) ∷ [])) c,
          f' ∙ f,
          g' ∙ ap (λ z. z +ℤ negsuc 0) g,
          l' ∙ ap request_done l,
          j' ∙ j,
        )

    -- Every request is answered without a panic, for a draw in range. While the server drains, with 503,
    -- and nothing else happens. Otherwise, if an error is drawn, with that code, which is counted, and
    -- the routes are not reached. Otherwise the routes see it, counted as in flight while they run, also
    -- if they panic, and it adds one count, under the name of its path and the first status that they
    -- set, or 500 for a panic before that.
    pub server_handler_cases :
        (fault_body : ℤ → Text) (now : ℕ) (u : F) (i : ℕ) (mux : Handler F) (r : Request)
        (w : World F) (code : ℤ)
        → drawn now u i r w ≡ some code
        → let reply = server_handler http_error fault_body now u i mux r w in
          ((should_reject_request w.lifecycle ≡ true) × Answers reply (pos 503) w)
          ⊎ ((should_reject_request w.lifecycle ≡ false)
              × (code ≢ pos 0)
              × Answers reply code (record w {
                faults_injected = w.faults_injected ++ ((normalize_endpoint r.path, code) ∷ []);
              }))
          ⊎ ((should_reject_request w.lifecycle ≡ false)
              × (code ≡ pos 0)
              × Serves reply (mux r (entered w)) r w)
    unfolding server_handler chain chain_loop drain_check error_injection drawn
    server_handler_cases fault_body now u i mux r w code e =
        elim (Bool-cases (should_reject_request w.lifecycle)) [
          | inl d ↦ inl (d, rw d (refl, refl, refl, refl))
          | inr d ↦
              rw
                (
                  d,
                  by_draw fault_body now u i
                      (request_tracking (metrics (recovery http_error (logging mux)))) r w,
                  e,
                )
                (elim (inject_cases fault_body
                  (request_tracking (metrics (recovery http_error (logging mux)))) r w code) [
                    | inl (n, a) ↦ inr (inl (refl, n, a))
                    | inr (z, same) ↦ inr (
                        inr (
                          refl,
                          z,
                          subst (λ y. Serves y (mux r (entered w)) r w) (sym same) (served mux r w),
                        ))
                  ])
        ]
