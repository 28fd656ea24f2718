-- ===== src/Gateway/Serve/Admission.antt =====
-- internal/gateway/gateway.go: which requests the gateway hands on to a provider.
use gem_gate.Prelude.{
  ℕ, ◌+◌, true, false, ◌≡◌, refl, inl, inr, Option, none, some, List, Option-cases, Bool-cases,
  subst, arith,
}
use gem_gate.Text.{Text, codes, text_eq}
use gem_gate.Header.{Header, header_set}
use gem_gate.Access.{ClientAuth, authenticate, is_operational_path}
use gem_gate.Cors.{CorsOutcome, passed, rejected, no_content, handle}
use gem_gate.RateLimit.{RateLimitBackend, RateLimitDecision, manager_allow}
use gem_gate.Gateway.{Gateway}
use gem_gate.Gateway.World.{World}
use gem_gate.Gateway.Streams.{IncomingRequest, UpstreamRequest}
use gem_gate.Gateway.Proxy.Passage.{Passage, proxy-Passage}
use gem_gate.Gateway.Replies.{
  Call, Texts, is_public, operations, operations_page, health_reply, readiness_reply,
}
use gem_gate.Gateway.Serve.{forward, limited, application, after_auth, call_of, serve_http, serve}
use gem_gate.Gateway.Settling.{settle, note_limit_error, limit_exceeded}

module _ {S E A P T V : Type 0} (world : World A P) (texts : Texts E T V)
    (backend : RateLimitBackend S E) (digest : Text → List ℕ) where
  -- A request that was let through to a provider.
  pub record Admitted (g : Gateway S T P) (r : IncomingRequest) (u : UpstreamRequest) : Type 0 where
    pub not_operational : is_operational_path r.path ≡ false
    pub not_options : text_eq r.method (codes "OPTIONS") ≡ false
    pub client : ClientAuth
    pub token : Text
    pub authenticated : authenticate g.runtime.access r.headers ≡ some (client, token)
    pub within_limit :
        (manager_allow backend digest g.rate_limits token client.rate_limit_rpm
          world.started_at).1.allowed
        ≡ true
    pub passage :
        Passage world g.runtime g.breakers r client.name
          (call_of world texts backend digest g r).id
          u

  forward-sent :
      (g : Gateway S T P) (w : Header) (c : Call) (auth : ClientAuth) (u : UpstreamRequest)
      → (forward world texts backend digest g w c auth).sent ≡ some u
      → Passage world g.runtime g.breakers c.request auth.name c.id u
  unfolding forward settle
  forward-sent g w c auth u h =
      proxy-Passage world
        (record g { metrics = record g.metrics { in_flight = g.metrics.in_flight + 1 } }) w
        c.request auth.name c.id u h

  note_limit_error-keeps :
      (g : Gateway S T P) (c : Call) (auth : ClientAuth) (d : RateLimitDecision) (e : E)
      → ((note_limit_error world texts g c auth d e).runtime ≡ g.runtime)
        × ((note_limit_error world texts g c auth d e).breakers ≡ g.breakers)
  unfolding note_limit_error
  note_limit_error-keeps g c auth d e = elim (Bool-cases d.allowed) [
    | inl through ↦ (rw through refl, rw through refl)
    | inr stopped ↦ (rw stopped refl, rw stopped refl)
  ]

  limited-sent :
      (g : Gateway S T P) (w : Header) (c : Call) (auth : ClientAuth)
      (answer : RateLimitDecision × Option E) (u : UpstreamRequest)
      → (limited world texts backend digest g w c auth answer).sent ≡ some u
      → (answer.0.allowed ≡ true) × Passage world g.runtime g.breakers c.request auth.name c.id u
  unfolding limited limit_exceeded
  limited-sent g w c auth (d, none) u h = elim (Bool-cases d.allowed) [
    | inl through ↦ (through, forward-sent g w c auth u (ground (arith, h, through)))
    | inr stopped ↦ absurd (ground (arith, h, stopped))
  ]
  limited-sent g w c auth (d, some e) u h = elim (Bool-cases d.allowed) [
    | inl through ↦
        let kept = note_limit_error-keeps g c auth d e in
        (
          through,
          subst (λ state. Passage world state g.breakers c.request auth.name c.id u) kept.0
              (subst
                (λ breakers.
                  Passage world (note_limit_error world texts g c auth d e).runtime breakers
                    c.request auth.name c.id u)
                kept.1
                (forward-sent (note_limit_error world texts g c auth d e) w c auth u
                  (ground (arith, h, through)))),
        )
    | inr stopped ↦ absurd (ground (arith, h, stopped))
  ]

  application-Admitted :
      (g : Gateway S T P) (w : Header) (c : Call) (u : UpstreamRequest)
      → (application world texts backend digest g w c).sent ≡ some u
      → (client : ClientAuth) × (token : Text) × (authenticate g.runtime.access c.request.headers
          ≡ some (client, token))
        × ((manager_allow backend digest g.rate_limits token client.rate_limit_rpm
              world.started_at).1.allowed
            ≡ true)
        × Passage world g.runtime g.breakers c.request client.name c.id u
  unfolding application after_auth
  application-Admitted g w c u h =
      elim (Option-cases (authenticate g.runtime.access c.request.headers)) [
        | inl unknown ↦ absurd (ground (arith, h, unknown))
        | inr ((client, token), known) ↦
            let (limits, decision, error) =
              manager_allow backend digest g.rate_limits token client.rate_limit_rpm
                world.started_at in
            let done =
              limited-sent (record g { rate_limits = limits }) w c client (decision, error) u
                (ground (arith, h, known)) in
            (client, token, known, done.0, done.1)
      ]

  pub operations-sent :
      (g : Gateway S T P) (w : Header) (c : Call) → (operations world texts g w c).sent ≡ none
  unfolding operations operations_page health_reply readiness_reply
  operations-sent g w c = ground arith

  serve_http-Admitted :
      (g : Gateway S T P) (h : Header) (r : IncomingRequest) (u : UpstreamRequest)
      → (serve_http world texts backend digest g h r).sent ≡ some u
      → Admitted g r u
  unfolding serve_http health_reply readiness_reply
  serve_http-Admitted g h r u e =
      let c = call_of world texts backend digest g r in
      elim (Bool-cases (is_public g r (codes "/_healthz"))) [
        | inl public ↦ absurd (ground (arith, e, public))
        | inr other ↦ elim (Bool-cases (is_public g r (codes "/_readyz"))) [
          | inl public ↦ absurd (ground (arith, e, other, public))
          | inr neither ↦ elim (Bool-cases (text_eq r.method (codes "OPTIONS"))) [
            | inl options ↦ absurd (ground (arith, e, other, neither, options))
            | inr method ↦ elim (Bool-cases (is_operational_path r.path)) [
              | inl path ↦ absurd (
                  ground (
                    arith,
                    e,
                    other,
                    neither,
                    method,
                    path,
                    operations-sent g (header_set h (codes "X-Request-ID") c.id) c,
                  ))
              | inr path ↦
                  let (client, token, known, within, passage) =
                    application-Admitted g (header_set h (codes "X-Request-ID") c.id) c u
                      (ground (arith, e, other, neither, method, path)) in
                  record {
                    not_operational = path;
                    not_options = method;
                    client = client;
                    token = token;
                    authenticated = known;
                    within_limit = within;
                    passage = passage;
                  }
            ]
          ]
        ]
      ]

  -- A request goes to a provider only if its path is not an operational one, its method is not
  -- OPTIONS, it carries the token of a client, the rate limit of that client admits it, its path
  -- names the provider, its body is within the limit and the provider's breaker admits it.
  pub serve-Admitted :
      (g : Gateway S T P) (h : Header) (r : IncomingRequest) (u : UpstreamRequest)
      → (serve world texts backend digest g h r).sent ≡ some u
      → Admitted g r u
  unfolding serve
  serve-Admitted g h r u e = after (handle world.itoa g.runtime.cors r.method r.headers h) refl
    where
      after :
          (outcome : CorsOutcome)
          → handle world.itoa g.runtime.cors r.method r.headers h ≡ outcome
          → Admitted g r u
      after (passed w) same = serve_http-Admitted g w r u (ground (arith, e, same))
      after (rejected text w) same = absurd (ground (arith, e, same))
      after (no_content w) same = absurd (ground (arith, e, same))
