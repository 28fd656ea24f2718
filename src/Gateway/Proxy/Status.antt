-- ===== src/Gateway/Proxy/Status.antt =====
-- internal/gateway/proxy.go: a response that is under way has a status.
use gem_gate.Prelude.{ℕ, ◌==◌, true, false, ◌≡◌, refl, Option, ℤ, Result, ok, err, arith}
use gem_gate.Text.{Text}
use gem_gate.Header.{Header}
use gem_gate.Circuit.{CircuitPermit}
use gem_gate.Route.{Stream, RouteError, BodyError, resolve_provider, prepare_body}
use gem_gate.Transport.{
  ProviderTransport, Response, Start, refused, started, start_exchange, refusal,
}
use gem_gate.Gateway.{Gateway, ProviderRuntime}
use gem_gate.Gateway.Proxy.{
  proxy, after_route, after_body, after_build, do_request, after_start, received, relay,
  transport_of,
}
use gem_gate.Gateway.Exchange.{Passed, ProxyError, build_request, count_in, traced}
use gem_gate.Gateway.World.{World, Answer, no_answer, answer}
use gem_gate.Gateway.Streams.{IncomingRequest, UpstreamRequest}

-- Every response of net/http has a status code.
abbrev pub HasStatus : Answer → Type 0
HasStatus (no_answer aborted) = Unit
HasStatus (answer status headers reading) = (status == 0) ≡ false

abbrev pub Underway : {S T P : Type 0} → Passed S T P → Type 0
Underway p = p.result.response_started ≡ true → (p.result.status == 0) ≡ false

refused_status :
    (itoa : ℕ → Text) (t : ProviderTransport) (now : ℕ) (r : Response)
    → (start_exchange itoa t now).1 ≡ refused r
    → (r.status == 0) ≡ false
unfolding start_exchange refusal
refused_status itoa t now r h = ground (arith, h)

module _ {S A P T : Type 0} (world : World A P)
    (statuses : (u : UpstreamRequest) → HasStatus (world.exchange u)) where
  received-Underway :
      (g : Gateway S T P) (t : ProviderTransport) (permit : CircuitPermit) (p : ProviderRuntime)
      (w : Header) (u : UpstreamRequest) (a : Answer)
      → HasStatus a
      → Underway (received world g t permit p w u a)
  unfolding received relay
  received-Underway g t permit p w u (no_answer aborted) status h = absurd (cc h)
  received-Underway g t permit p w u (answer status headers reading) known h = known

  after_start-Underway :
      (g : Gateway S T P) (p : ProviderRuntime) (w : Header) (u : UpstreamRequest)
      (t : ProviderTransport) (start : Start)
      → ((r : Response) → start ≡ refused r → (r.status == 0) ≡ false)
      → Underway (after_start world g p w u t start)
  unfolding after_start relay
  after_start-Underway g p w u t (refused r) status h = status r refl
  after_start-Underway g p w u t (started permit) status h =
      received-Underway g t permit p w (traced world u) (world.exchange (traced world u))
        (statuses (traced world u)) h

  do_request-Underway :
      (g : Gateway S T P) (p : ProviderRuntime) (w : Header) (u : UpstreamRequest)
      → Underway (do_request world g p w u)
  unfolding do_request
  do_request-Underway g p w u =
      let t = transport_of world g p.identity.name in
      let begin = start_exchange world.itoa t world.started_at in
      after_start-Underway g p w u begin.0 begin.1 (refused_status world.itoa t world.started_at)

  after_build-Underway :
      (g : Gateway S T P) (w : Header) (p : ProviderRuntime)
      (built : Result ProxyError UpstreamRequest)
      → Underway (after_build world g w p built)
  unfolding after_build
  after_build-Underway g w p (err e) h = absurd (cc h)
  after_build-Underway g w p (ok u) h = do_request-Underway g p w u h

  after_body-Underway :
      (g : Gateway S T P) (w : Header) (r : IncomingRequest) (client id : Text)
      (p : ProviderRuntime) (target : Text) (body : Result BodyError (Option Stream × ℤ))
      → Underway (after_body world g w r client id p target body)
  unfolding after_body
  after_body-Underway g w r client id p target (err e) h = absurd (cc h)
  after_body-Underway g w r client id p target (ok body) h =
      after_build-Underway (record g { metrics = count_in g.metrics body.1 }) w p
        (build_request world g.runtime r client id p target body) h

  after_route-Underway :
      (g : Gateway S T P) (w : Header) (r : IncomingRequest) (client id : Text)
      (route : Result RouteError (ProviderRuntime × Text))
      → Underway (after_route world g w r client id route)
  unfolding after_route
  after_route-Underway g w r client id (err e) h = absurd (cc h)
  after_route-Underway g w r client id (ok (p, target)) h =
      after_body-Underway g w r client id p target
        (prepare_body g.runtime.cfg.request_body_limit r.body r.content_length) h

  pub proxy-Underway :
      (g : Gateway S T P) (w : Header) (r : IncomingRequest) (client id : Text)
      → Underway (proxy world g w r client id)
  unfolding proxy
  proxy-Underway g w r client id =
      after_route-Underway g w r client id
        (resolve_provider g.runtime.default_provider g.runtime.providers r.path)
