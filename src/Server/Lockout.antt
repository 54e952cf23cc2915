-- ===== src/Server/Lockout.antt =====
-- Sequences of requests to the server of internal/server/server.go, and what settings of
-- internal/fault/injector.go do to them.
use hotpod.Prelude.{
  ℕ, ◌≡◌, refl, sym, ap, ◌∙◌, subst, inl, inr, ◌≢◌, true, false, Option, some, List, [], ◌∷◌, ◌++◌,
  if◌then◌else◌, arith, Bool-cases, length, length-append, ◌+◌,
}
use hotpod.Prelude.Int.{ℤ, pos, negsuc, ◌+ℤ◌}
use hotpod.Prelude.Text.{Text, text_eq, text_eq_iff}
use hotpod.Prelude.Dict.{lookup}
use hotpod.Prelude.Float.{Float}
use hotpod.Lifecycle.Defs.{should_reject_request}
use hotpod.Fault.Injector.{
  Injector, ErrorConfig, should_inject_error, get_config, inject_by, live, or_else, is_expired,
  should_inject, select_code, set_endpoint_config,
}
use hotpod.Fault.Effective.{set-lookup, set-global}
use hotpod.Server.Routes.{normalize_endpoint, normalize_endpoint_known}
use hotpod.Server.Middleware.{Call, Request, World, Handler, server_handler}
use hotpod.Server.Writer.{first_code}
use hotpod.Server.Serve.{entered, drawn, server_handler_cases}

restored : (z : ℤ) → (z +ℤ pos 1) +ℤ negsuc 0 ≡ z
restored (pos n) = ground arith
restored (negsuc n) = ground arith

-- A request with the clock and the random numbers that it meets.
pub record Arrival (F : Type 0) : Type 0 where
  pub request : Request
  pub now : ℕ
  pub u : F
  pub i : ℕ

module _ {F : Type 0} ⦃fl : Float F⦄ where
  open fl use {leb_F, one_F, zero_F}

  -- Errors for all endpoints, at a rate of at least 1, with one code and without an end.
  abbrev pub Locked : ℤ → World F → Type 0
  Locked code w =
      (inj : Injector F) × (w.injector ≡ some inj)
      × (inj.configs ≡ [])
      × (c : ErrorConfig F) × (inj.global_config ≡ some c)
      × (c.codes ≡ code ∷ [])
      × (c.expires_at ≡ 0)
      × (leb_F c.rate zero_F ≡ false)
      × (leb_F one_F c.rate ≡ true)

  draw-Locked :
      (code : ℤ) (w : World F) (now : ℕ) (u : F) (i : ℕ) (r : Request)
      → Locked code w
      → drawn now u i r w ≡ some code
  unfolding drawn should_inject_error get_config inject_by live or_else is_expired should_inject
      select_code lookup
  draw-Locked code w now u i r (inj, e, n, c, g, s, x, lo, hi) =
      rw (e, n, lookup) (rw (g, x, s, lo, hi) refl)

  -- The routes leave the gauge and the two counters alone.
  abbrev pub Plain : Handler F → Type 0
  Plain mux =
      (r : Request) (w : World F)
      → ((mux r w).world.in_flight_requests ≡ w.in_flight_requests)
        × ((mux r w).world.requests_total ≡ w.requests_total)
        × ((mux r w).world.faults_injected ≡ w.faults_injected)

module _ {F : Type 0} ⦃fl : Float F⦄ (http_error : Text → ℤ → List Call)
    (fault_body : ℤ → Text) where
  -- The state after requests that arrive one after another.
  unfoldable pub serve_all : Handler F → World F → List (Arrival F) → World F
  serve_all mux w [] = w
  serve_all mux w (a ∷ arrivals) =
      serve_all mux (server_handler http_error fault_body a.now a.u a.i mux a.request w).world
        arrivals

  -- What the requests draw is in range, in the states that they meet.
  abbrev pub InRange : Handler F → World F → List (Arrival F) → Type 0
  InRange mux w [] = Unit
  InRange mux w (a ∷ arrivals) =
      ((code : ℤ) × (drawn a.now a.u a.i a.request w ≡ some code))
      × InRange mux (server_handler http_error fault_body a.now a.u a.i mux a.request w).world
          arrivals

  -- The requests that meet a draining server.
  abbrev pub drains : Handler F → World F → List (Arrival F) → ℕ
  drains mux w [] = 0
  drains mux w (a ∷ arrivals) =
      (if should_reject_request w.lifecycle then 1 else 0)
      + drains mux (server_handler http_error fault_body a.now a.u a.i mux a.request w).world
          arrivals

  module _ (says : (t : Text) (c : ℤ) → first_code (http_error t c) ≡ some c) where
    -- Where the injector has no settings for single endpoints, and a global one with a rate of at least 1,
    -- exactly one code, which is not 0, and no end: no sequence of requests changes the lifecycle or the
    -- injector, or adds to the counts of requests that reached the routes, whatever the routes do. So
    -- also none resets the injector. `http.Error` is taken to begin by writing its status.
    pub serve_all-Locked :
        (code : ℤ) (mux : Handler F) (w : World F) (arrivals : List (Arrival F))
        → Locked code w
        → code ≢ pos 0
        → ((serve_all mux w arrivals).injector ≡ w.injector)
          × ((serve_all mux w arrivals).lifecycle ≡ w.lifecycle)
          × ((serve_all mux w arrivals).requests_total ≡ w.requests_total)
    unfolding serve_all
    serve_all-Locked code mux w [] l n = (refl, refl, refl)
    serve_all-Locked code mux w (a ∷ arrivals) l n =
        let Kept : World F → Type 0 = λ v.
          ((serve_all mux v arrivals).injector ≡ w.injector)
          × ((serve_all mux v arrivals).lifecycle ≡ w.lifecycle)
          × ((serve_all mux v arrivals).requests_total ≡ w.requests_total) in
        let failed : World F = record w {
          faults_injected = w.faults_injected ++ ((normalize_endpoint a.request.path, code) ∷ []);
        } in
        elim (server_handler_cases http_error says fault_body a.now a.u a.i mux a.request w code
          (draw-Locked code w a.now a.u a.i a.request l)) [
            | inl (d, (_, _, _, e)) ↦ subst Kept (sym e) (serve_all-Locked code mux w arrivals l n)
            | inr (inl (d, _, (_, _, _, e))) ↦
                subst Kept (sym e) (serve_all-Locked code mux failed arrivals l n)
            | inr (inr (d, z, _)) ↦ absurd (n z)
          ]

    -- After any sequence of requests the gauge of requests in flight is as before them, and each
    -- request was counted once: as served, as failed by the injector, or as refused while draining.
    pub serve_all-counts :
        (mux : Handler F) (w : World F) (arrivals : List (Arrival F))
        → Plain mux
        → InRange mux w arrivals
        → ((serve_all mux w arrivals).in_flight_requests ≡ w.in_flight_requests)
          × (length (serve_all mux w arrivals).requests_total
                + length (serve_all mux w arrivals).faults_injected
                + drains mux w arrivals
              ≡ length w.requests_total + length w.faults_injected + length arrivals)
    unfolding serve_all
    serve_all-counts mux w [] p d = (refl, omega arith)
    serve_all-counts mux w (a ∷ arrivals) p ((code, e), ds) =
        let next = (server_handler http_error fault_body a.now a.u a.i mux a.request w).world in
        let (g, t) = serve_all-counts mux next arrivals p ds in
        elim (server_handler_cases http_error says fault_body a.now a.u a.i mux a.request w code
          e) [
            | inl (d, (_, _, _, same)) ↦
                let n : length next.requests_total ≡ length w.requests_total =
                  ap (λ v. length v.requests_total) same in
                let m : length next.faults_injected ≡ length w.faults_injected =
                  ap (λ v. length v.faults_injected) same in
                (g ∙ ap (λ v. v.in_flight_requests) same, rw d (omega (arith, t, n, m)))
            | inr (inl (d, _, (_, _, _, same))) ↦
                let n : length next.requests_total ≡ length w.requests_total =
                  ap (λ v. length v.requests_total) same in
                let m : length next.faults_injected ≡ length w.faults_injected + 1 =
                  ap (λ v. length v.faults_injected) same ∙ length-append w.faults_injected _ in
                (g ∙ ap (λ v. v.in_flight_requests) same, rw d (omega (arith, t, n, m)))
            | inr (inr (d, _, (_, c, f, i, _, _))) ↦
                let (pi, pr, pf) = p a.request (entered w) in
                let n : length next.requests_total ≡ length w.requests_total + 1 =
                  ap (λ l. length l) c
                  ∙ length-append (mux a.request (entered w)).world.requests_total _
                  ∙ ap (λ l. length l + 1) pr in
                let m : length next.faults_injected ≡ length w.faults_injected =
                  ap (λ l. length l) (f ∙ pf) in
                (
                  g ∙ i ∙ ap (λ z. z +ℤ negsuc 0) pi ∙ restored w.in_flight_requests,
                  rw d (omega (arith, t, n, m)),
                )
          ]

module _ {F : Type 0} ⦃fl : Float F⦄ where
  -- The settings for an endpoint whose name is not one under which requests are counted, such as
  -- `/fault/crash`, have no effect on any request.
  pub unnamed-idle :
      (now : ℕ) (u : F) (i : ℕ) (k path : Text) (c : Option (ErrorConfig F)) (inj : Injector F)
      → normalize_endpoint k ≢ k
      → should_inject_error now u i (normalize_endpoint path) (set_endpoint_config k c inj)
        ≡ should_inject_error now u i (normalize_endpoint path) inj
  unfolding should_inject_error get_config
  unnamed-idle now u i k path c inj n = elim (Bool-cases (text_eq k (normalize_endpoint path))) [
    | inl e ↦
        let same = (text_eq_iff k (normalize_endpoint path)).0 e in
        absurd (n (ap normalize_endpoint same ∙ (normalize_endpoint_known path).1 ∙ sym same))
    | inr e ↦ rw (set-lookup k (normalize_endpoint path) c inj, set-global k c inj, e) refl
  ]
