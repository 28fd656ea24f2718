-- ===== src/Gateway/Serve/Accounting.antt =====
-- internal/gateway/gateway.go: what the counters hold of the requests of the application plane.
use gem_gate.Prelude.{
  ℕ, ◌+◌, true, false, ◌≡◌, refl, sym, subst, ap, ◌∙◌, inl, inr, Option, none, some, List,
  Bool-cases, arith,
}
use gem_gate.Text.{Text, codes}
use gem_gate.Header.{Header}
use gem_gate.Access.{ClientAuth, authenticate}
use gem_gate.Metrics.{Metrics, record_status, bump, is_2xx, is_4xx, is_5xx, u64}
use gem_gate.RateLimit.{RateLimitBackend, RateLimitDecision, manager_allow}
use gem_gate.Gateway.{Gateway}
use gem_gate.Gateway.Proxy.{proxy}
use gem_gate.Gateway.Exchange.{Passed}
use gem_gate.Gateway.World.{World}
use gem_gate.Gateway.Streams.{UpstreamRequest}
use gem_gate.Gateway.Proxy.Counters.{own, proxy-own}
use gem_gate.Gateway.Proxy.Status.{HasStatus, Underway, proxy-Underway}
use gem_gate.Gateway.Replies.{Call, Texts, deny, answered, http_error}
use gem_gate.Gateway.Serve.{forward, limited, application, after_auth}
use gem_gate.Gateway.Settling.{settle, limit_exceeded, note_limit_error, settled_metrics}

-- A request with a status is counted, and is in flight no more.
pub record Counted (m m2 : Metrics) (status : ℕ) : Type 0 where
  pub all : m2.requests ≡ u64 (m.requests + 1)
  pub class_2xx : m2.requests_2xx ≡ bump (is_2xx status) m.requests_2xx
  pub class_4xx : m2.requests_4xx ≡ bump (is_4xx status) m.requests_4xx
  pub class_5xx : m2.requests_5xx ≡ bump (is_5xx status) m.requests_5xx
  pub flight : m2.in_flight ≡ m.in_flight

-- What is counted from the same counters.
Counted-same :
    {m n m2 : Metrics} {status : ℕ}
    → n.requests ≡ m.requests
    → n.requests_2xx ≡ m.requests_2xx
    → n.requests_4xx ≡ m.requests_4xx
    → n.requests_5xx ≡ m.requests_5xx
    → n.in_flight ≡ m.in_flight
    → Counted n m2 status
    → Counted m m2 status
Counted-same {status = status} all ok client server flight counted = record {
  all = counted.all ∙ ap (λ k. u64 (k + 1)) all;
  class_2xx = counted.class_2xx ∙ ap (bump (is_2xx status)) ok;
  class_4xx = counted.class_4xx ∙ ap (bump (is_4xx status)) client;
  class_5xx = counted.class_5xx ∙ ap (bump (is_5xx status)) server;
  flight = counted.flight ∙ flight;
}

module _ {S E A P T V : Type 0} (world : World A P) (texts : Texts E T V)
    (backend : RateLimitBackend S E) (digest : Text → List ℕ) where
  settle-Counted :
      (m : Metrics) (c : Call) (auth : ClientAuth) (p : Passed S T P)
      → world.gone_later ≡ false
      → Underway p
      → own p.gateway.metrics ≡ own (record m { in_flight = m.in_flight + 1 })
      → Counted m
          (settle world texts c auth p).gateway.metrics
          (settle world texts c auth p).reply.status
  unfolding settle settled_metrics record_status
  settle-Counted m c auth p stays underway same =
      let requests = ap (λ o. o.requests) same in
      let ok = ap (λ o. o.requests_2xx) same in
      let client = ap (λ o. o.requests_4xx) same in
      let server = ap (λ o. o.requests_5xx) same in
      let flight = ap (λ o. o.in_flight) same in
      record {
        all = ground (arith, stays, requests);
        class_2xx = ground (arith, stays, underway, ok);
        class_4xx = ground (arith, stays, underway, client);
        class_5xx = ground (arith, stays, underway, server);
        flight = ground (arith, stays, flight);
      }

  -- The error of the backend is noted.
  abbrev noted : Gateway S T P → Call → ClientAuth → RateLimitDecision → E → Metrics
  noted g c auth d e = (note_limit_error world texts g c auth d e).metrics

  noted-Counted :
      (g : Gateway S T P) (c : Call) (auth : ClientAuth) (d : RateLimitDecision) (e : E)
      → d.allowed ≡ false
      → Counted g.metrics (noted g c auth d e) 503
  unfolding note_limit_error record_status
  noted-Counted g c auth d e stopped = record {
    all = ground (arith, stopped);
    class_2xx = ground (arith, stopped);
    class_4xx = ground (arith, stopped);
    class_5xx = ground (arith, stopped);
    flight = ground (arith, stopped);
  }

  noted-same :
      (g : Gateway S T P) (c : Call) (auth : ClientAuth) (d : RateLimitDecision) (e : E)
      → d.allowed ≡ true
      → {m2 : Metrics} {status : ℕ} → Counted (noted g c auth d e) m2 status
      → Counted g.metrics m2 status
  unfolding note_limit_error
  noted-same g c auth d e through =
      Counted-same (ground (arith, through)) (ground (arith, through)) (ground (arith, through))
        (ground (arith, through)) (ground (arith, through))

  limited-through :
      (g : Gateway S T P) (w : Header) (c : Call) (auth : ClientAuth) (d : RateLimitDecision)
      (e : E)
      → d.allowed ≡ true
      → limited world texts backend digest g w c auth (d, some e)
        ≡ forward world texts backend digest (note_limit_error world texts g c auth d e) w c auth
  unfolding limited
  limited-through g w c auth d e through = ground (arith, through)

  limited-stopped :
      (g : Gateway S T P) (w : Header) (c : Call) (auth : ClientAuth) (d : RateLimitDecision)
      (e : E)
      → d.allowed ≡ false
      → limited world texts backend digest g w c auth (d, some e)
        ≡ answered
            (note_limit_error world texts g c auth d e)
            (http_error texts w 503 (codes "rate limit backend unavailable"))
  unfolding limited
  limited-stopped g w c auth d e stopped = ground (arith, stopped)

  module _ (statuses : (u : UpstreamRequest) → HasStatus (world.exchange u)) where
    forward-Counted :
        (g : Gateway S T P) (w : Header) (c : Call) (auth : ClientAuth)
        → world.gone_later ≡ false
        → Counted g.metrics
            (forward world texts backend digest g w c auth).gateway.metrics
            (forward world texts backend digest g w c auth).reply.status
    unfolding forward
    forward-Counted g w c auth stays =
        let begun = record g {
          metrics = record g.metrics { in_flight = g.metrics.in_flight + 1 };
        } in
        settle-Counted g.metrics c auth (proxy world begun w c.request auth.name c.id) stays
          (proxy-Underway world statuses begun w c.request auth.name c.id)
          (proxy-own world begun w c.request auth.name c.id)

    limited-Counted :
        (g : Gateway S T P) (w : Header) (c : Call) (auth : ClientAuth)
        (answer : RateLimitDecision × Option E)
        → world.gone_later ≡ false
        → Counted g.metrics
            (limited world texts backend digest g w c auth answer).gateway.metrics
            (limited world texts backend digest g w c auth answer).reply.status
    unfolding limited limit_exceeded record_status
    limited-Counted g w c auth (d, none) stays = elim (Bool-cases d.allowed) [
      | inl through ↦ rw through (forward-Counted g w c auth stays)
      | inr stopped ↦ rw stopped counted
    ]
      where
        counted : Counted g.metrics (limit_exceeded world texts g w c auth d).gateway.metrics 429
        counted = record {
          all = refl;
          class_2xx = refl;
          class_4xx = refl;
          class_5xx = refl;
          flight = refl;
        }
    limited-Counted g w c auth (d, some e) stays = elim (Bool-cases d.allowed) [
      | inl through ↦
          subst (λ s. Counted g.metrics s.gateway.metrics s.reply.status)
            (sym (limited-through g w c auth d e through))
            (noted-same g c auth d e through
              (forward-Counted (note_limit_error world texts g c auth d e) w c auth stays))
      | inr stopped ↦
          subst (λ s. Counted g.metrics s.gateway.metrics s.reply.status)
            (sym (limited-stopped g w c auth d e stopped)) (noted-Counted g c auth d e stopped)
    ]

    after_auth-Counted :
        (g : Gateway S T P) (w : Header) (c : Call) (known : Option (ClientAuth × Text))
        → world.gone_later ≡ false
        → Counted g.metrics
            (after_auth world texts backend digest g w c known).gateway.metrics
            (after_auth world texts backend digest g w c known).reply.status
    unfolding after_auth deny record_status
    after_auth-Counted g w c none stays = record {
      all = refl;
      class_2xx = refl;
      class_4xx = refl;
      class_5xx = refl;
      flight = refl;
    }
    after_auth-Counted g w c (some (client, token)) stays =
        let (limits, decision, error) =
          manager_allow backend digest g.rate_limits token client.rate_limit_rpm world.started_at in
        limited-Counted (record g { rate_limits = limits }) w c client (decision, error) stays

    -- Every request of the application plane whose client stays is counted once, in the class of the
    -- status that the client gets, whatever becomes of it, and it is in flight no more when it is
    -- answered, if the responses of the providers have a status.
    pub application-Counted :
        (g : Gateway S T P) (w : Header) (c : Call)
        → world.gone_later ≡ false
        → Counted g.metrics
            (application world texts backend digest g w c).gateway.metrics
            (application world texts backend digest g w c).reply.status
    unfolding application
    application-Counted g w c =
        after_auth-Counted g w c (authenticate g.runtime.access c.request.headers)
