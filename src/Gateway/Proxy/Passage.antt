-- ===== src/Gateway/Proxy/Passage.antt =====
-- internal/gateway/proxy.go: which requests go to a provider.
use gem_gate.Prelude.{
  ℕ, true, ◌≡◌, refl, sym, ap, ◌∙◌, inl, inr, Option, some, ℤ, List, ok, Result-cases, Bool-cases,
  arith,
}
use gem_gate.Text.{Text}
use gem_gate.Header.{Header}
use gem_gate.Circuit.{CircuitBreaker, CircuitPermit}
use gem_gate.Circuit
use gem_gate.Route.{Stream, resolve_provider, prepare_body}
use gem_gate.Transport.{ProviderTransport, Start, refused, started, start_exchange}
use gem_gate.Gateway.{Gateway, RuntimeSnapshot, ProviderRuntime}
use gem_gate.Gateway.Proxy.{
  transport_of, do_request, after_start, received, relay, proxy, after_build, after_body,
  after_route,
}
use gem_gate.Gateway.Exchange.{build_request, breaker_of, count_in, traced}
use gem_gate.Gateway.World.{World, Answer, no_answer, answer}
use gem_gate.Gateway.Streams.{IncomingRequest, UpstreamRequest}

some_injective {ℓ} : {A : Type ℓ} {a b : A} → some a ≡ some b → a ≡ b
some_injective h = cc

start_exchange-started :
    (itoa : ℕ → Text) (t : ProviderTransport) (now : ℕ) (permit : CircuitPermit)
    → (start_exchange itoa t now).1 ≡ started permit
    → (Circuit.allow t.breaker now).1.allowed ≡ true
unfolding start_exchange
start_exchange-started itoa t now permit h =
    elim (Bool-cases (Circuit.allow t.breaker now).1.allowed) [
      | inl through ↦ through
      | inr stopped ↦ absurd (ground (arith, h, stopped))
    ]

module _ {A P T : Type 0} (world : World A P) where
  -- Why a request goes to a provider.
  pub record Passage (runtime : RuntimeSnapshot T P) (breakers : List (Text × CircuitBreaker))
      (r : IncomingRequest) (client id : Text) (u : UpstreamRequest) : Type 0 where
    pub provider : ProviderRuntime
    pub target : Text
    pub body : Option Stream × ℤ
    pub routed :
        resolve_provider runtime.default_provider runtime.providers r.path ≡ ok (provider, target)
    pub fits : prepare_body runtime.cfg.request_body_limit r.body r.content_length ≡ ok body
    pub admitted :
        (Circuit.allow (breaker_of breakers provider.identity.name) world.started_at).1.allowed
        ≡ true
    pub plain : UpstreamRequest
    pub built : build_request world runtime r client id provider target body ≡ ok plain
    pub sent_traced : traced world plain ≡ u

module _ {S A P T : Type 0} (world : World A P) where
  received-sent :
      (g : Gateway S T P) (t : ProviderTransport) (permit : CircuitPermit) (p : ProviderRuntime)
      (w : Header) (v u : UpstreamRequest) (a : Answer)
      → (received world g t permit p w v a).sent ≡ some u
      → v ≡ u
  unfolding received relay
  received-sent g t permit p w v u (no_answer aborted) h = some_injective h
  received-sent g t permit p w v u (answer status headers reading) h = some_injective h

  after_start-sent :
      (g : Gateway S T P) (p : ProviderRuntime) (w : Header) (v u : UpstreamRequest)
      (t : ProviderTransport) (start : Start)
      → (after_start world g p w v t start).sent ≡ some u
      → (permit : CircuitPermit) × (start ≡ started permit) × (traced world v ≡ u)
  unfolding after_start relay
  after_start-sent g p w v u t (refused r) h = absurd (ground (arith, h))
  after_start-sent g p w v u t (started permit) h = (
    permit,
    refl,
    received-sent g t permit p w (traced world v) u (world.exchange (traced world v)) h,
  )

  do_request-sent :
      (g : Gateway S T P) (p : ProviderRuntime) (w : Header) (v u : UpstreamRequest)
      → (do_request world g p w v).sent ≡ some u
      → ((Circuit.allow (breaker_of g.breakers p.identity.name) world.started_at).1.allowed ≡ true)
        × (traced world v ≡ u)
  unfolding do_request
  do_request-sent g p w v u h =
      let t = transport_of world g p.identity.name in
      let begin = start_exchange world.itoa t world.started_at in
      let (permit, begun, same) = after_start-sent g p w v u begin.0 begin.1 h in
      (start_exchange-started world.itoa t world.started_at permit begun, same)

  -- The way of a request that meets no error before the exchange.
  pub proxy-goes :
      (g : Gateway S T P) (w : Header) (r : IncomingRequest) (client id : Text)
      (p : ProviderRuntime) (v : UpstreamRequest) (target : Text) (body : Option Stream × ℤ)
      → resolve_provider g.runtime.default_provider g.runtime.providers r.path ≡ ok (p, target)
      → prepare_body g.runtime.cfg.request_body_limit r.body r.content_length ≡ ok body
      → build_request world g.runtime r client id p target body ≡ ok v
      → proxy world g w r client id
        ≡ do_request world (record g { metrics = count_in g.metrics body.1 }) p w v
  unfolding proxy after_route after_body after_build
  proxy-goes g w r client id p v target body routed fits built = ground (arith, routed, fits, built)

  -- A request goes to a provider only if its path names the provider, its body is within the limit,
  -- the request can be built, and the provider's breaker admits it; what goes is that request, with
  -- the trace context that the transport adds.
  pub proxy-Passage :
      (g : Gateway S T P) (w : Header) (r : IncomingRequest) (client id : Text)
      (u : UpstreamRequest)
      → (proxy world g w r client id).sent ≡ some u
      → Passage world g.runtime g.breakers r client id u
  unfolding proxy after_route after_body after_build
  proxy-Passage g w r client id u h =
      elim (Result-cases (resolve_provider g.runtime.default_provider g.runtime.providers r.path)) [
        | inl (e, wrong) ↦ absurd (ground (arith, h, wrong))
        | inr ((p, target), routed) ↦
            elim (Result-cases
              (prepare_body g.runtime.cfg.request_body_limit r.body r.content_length)) [
                | inl (e, wrong) ↦ absurd (ground (arith, h, routed, wrong))
                | inr (body, fits) ↦
                    elim (Result-cases (build_request world g.runtime r client id p target body)) [
                      | inl (e, wrong) ↦ absurd (ground (arith, h, routed, fits, wrong))
                      | inr (v, built) ↦
                          let done =
                            do_request-sent (record g { metrics = count_in g.metrics body.1 }) p w v
                              u
                              (ap (λ x. x.sent)
                                  (sym
                                    (proxy-goes g w r client id p v target body routed fits built))
                                ∙ h) in
                          record {
                            provider = p;
                            target = target;
                            body = body;
                            routed = routed;
                            fits = fits;
                            admitted = done.0;
                            plain = v;
                            built = built;
                            sent_traced = done.1;
                          }
                    ]
              ]
      ]
