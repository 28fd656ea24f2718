-- ===== src/Gateway/Proxy/Counters.antt =====
-- internal/gateway/proxy.go: the counters that the exchange with a provider leaves alone.
use gem_gate.Prelude.{
  ℕ, suc, zero, ◌-◌, ◌==◌, ◌++◌, Bool, false, ◌≡◌, refl, ◌∙◌, inl, inr, Option, none, some, ℤ, pos,
  negsuc, List, [], ◌∷◌, Option-cases, Result, ok, err, Bool-cases,
}
use gem_gate.Text.{Text, is_empty, trim_space}
use gem_gate.Header.{Header}
use gem_gate.Circuit.{CircuitPermit}
use gem_gate.Circuit
use gem_gate.Metrics.{Metrics, provider_begin, provider_finish}
use gem_gate.Route.{Stream, RouteError, BodyError, resolve_provider, prepare_body}
use gem_gate.Transport.{
  ProviderTransport, Body, BodyCall, Ending, request_failed, without_body, body_ended, Start,
  refused, started, start_exchange, end_exchange, call_body, call_all, finish_argument,
}
use gem_gate.Gateway.{Gateway, ProviderRuntime}
use gem_gate.Gateway.Proxy.{
  proxy, after_build, after_body, after_route, do_request, received, after_start, relay,
  with_transport, transport_of,
}
use gem_gate.Gateway.Exchange.{
  refusal_reading, ProxyError, count_in, count_out, build_request, traced,
}
use gem_gate.Gateway.World.{World, Answer, no_answer, answer}
use gem_gate.Gateway.Streams.{IncomingRequest, UpstreamRequest, Reading, copy_and_flush, reads_made}

-- The counters of the gateway's own requests, which the exchange with a provider leaves alone.
pub record Own : Type 0 where
  pub requests : ℕ
  pub requests_2xx : ℕ
  pub requests_4xx : ℕ
  pub requests_5xx : ℕ
  pub in_flight : ℕ
  pub upstream_errors : ℕ
  pub auth_failures : ℕ
  pub rate_limited : ℕ
  pub rate_limit_backend_errors : ℕ

abbrev pub own : Metrics → Own
own m = record {
  requests = m.requests;
  requests_2xx = m.requests_2xx;
  requests_4xx = m.requests_4xx;
  requests_5xx = m.requests_5xx;
  in_flight = m.in_flight;
  upstream_errors = m.upstream_errors;
  auth_failures = m.auth_failures;
  rate_limited = m.rate_limited;
  rate_limit_backend_errors = m.rate_limit_backend_errors;
}

provider_begin-own : (m : Metrics) (name : Text) → own (provider_begin m name) ≡ own m
unfolding provider_begin
provider_begin-own m name = elim (Bool-cases (is_empty (trim_space name))) [
  | inl blank ↦ rw blank refl
  | inr named ↦ rw named refl
]

provider_finish-own :
    (m : Metrics) (name : Text) (status duration : ℕ) (failed : Bool) (now : ℕ)
    → own (provider_finish m name status duration failed now) ≡ own m
unfolding provider_finish
provider_finish-own m name status duration failed now =
    elim (Bool-cases (is_empty (trim_space name))) [
      | inl blank ↦ rw blank refl
      | inr named ↦ rw named refl
    ]

count_in-own : (m : Metrics) (z : ℤ) → own (count_in m z) ≡ own m
unfolding count_in
count_in-own m (pos (suc n)) = refl
count_in-own m (pos zero) = refl
count_in-own m (negsuc n) = refl

count_out-own : (m : Metrics) (n : ℕ) → own (count_out m n) ≡ own m
unfolding count_out
count_out-own m n = elim (Bool-cases (n == 0)) [
  | inl nothing ↦ rw nothing refl
  | inr some_bytes ↦ rw some_bytes refl
]

end_exchange-own :
    (t : ProviderTransport) (permit : CircuitPermit) (e : Ending) (duration now : ℕ)
    → own (end_exchange t permit e duration now).metrics ≡ own t.metrics
unfolding end_exchange
end_exchange-own t permit (request_failed aborted) duration now =
    provider_finish-own t.metrics t.provider _ _ _ _
end_exchange-own t permit (without_body status) duration now =
    provider_finish-own t.metrics t.provider _ _ _ _
end_exchange-own t permit (body_ended status failed aborted) duration now =
    provider_finish-own t.metrics t.provider _ _ _ _

call_body-own :
    (permit : CircuitPermit) (status begun_at : ℕ) (b : Body) (call : BodyCall) (aborted : Bool)
    (now : ℕ)
    → own (call_body permit status begun_at b call aborted now).transport.metrics
      ≡ own b.transport.metrics
unfolding call_body
call_body-own permit status begun_at b call aborted now =
    elim (Option-cases (finish_argument call)) [
      | inl nothing ↦ rw nothing refl
      | inr (failed, ends) ↦ elim (Bool-cases b.done) [
        | inl done ↦ rw ends (rw done refl)
        | inr open_body ↦ rw ends (
            rw open_body (
              end_exchange-own b.transport permit (body_ended status failed aborted)
                (now - begun_at) now))
      ]
    ]

call_all-own :
    (permit : CircuitPermit) (status begun_at : ℕ) (b : Body) (calls : List (BodyCall × Bool × ℕ))
    → own (call_all permit status begun_at b calls).transport.metrics ≡ own b.transport.metrics
unfolding call_all
call_all-own permit status begun_at b [] = refl
call_all-own permit status begun_at b ((call, aborted, now) ∷ calls) =
    call_all-own permit status begun_at (call_body permit status begun_at b call aborted now) calls
    ∙ call_body-own permit status begun_at b call aborted now

start_exchange-own :
    (itoa : ℕ → Text) (t : ProviderTransport) (now : ℕ)
    → own (start_exchange itoa t now).0.metrics ≡ own t.metrics
unfolding start_exchange
start_exchange-own itoa t now = elim (Bool-cases (Circuit.allow t.breaker now).1.allowed) [
  | inl through ↦ rw through (provider_begin-own t.metrics t.provider)
  | inr stopped ↦ rw stopped refl
]

module _ {S A P T : Type 0} (world : World A P) where
  relay-own :
      (g : Gateway S T P) (sent : Option UpstreamRequest) (p : ProviderRuntime) (w : Header)
      (status : ℕ) (headers : Header) (reading : Reading)
      → own (relay world g sent p w status headers reading).gateway.metrics ≡ own g.metrics
  unfolding relay
  relay-own g sent p w status headers reading = count_out-own g.metrics (copy_and_flush 0 reading).0

  received-own :
      (g : Gateway S T P) (t : ProviderTransport) (permit : CircuitPermit) (p : ProviderRuntime)
      (w : Header) (u : UpstreamRequest) (a : Answer)
      → own (received world g t permit p w u a).gateway.metrics ≡ own t.metrics
  unfolding received
  received-own g t permit p w u (no_answer aborted) =
      end_exchange-own t permit (request_failed aborted) _ _
  received-own g t permit p w u (answer status headers reading) =
      let body =
        call_all permit status world.started_at (record { transport = t; done = false })
          (reads_made reading ++ world.close ∷ []) in
      relay-own (with_transport world g body.transport) (some u) p w status headers reading
      ∙ call_all-own permit status world.started_at (record { transport = t; done = false })
          (reads_made reading ++ world.close ∷ [])

  after_start-own :
      (g : Gateway S T P) (p : ProviderRuntime) (w : Header) (u : UpstreamRequest)
      (t : ProviderTransport) (start : Start)
      → own (after_start world g p w u t start).gateway.metrics ≡ own t.metrics
  unfolding after_start
  after_start-own g p w u t (refused r) =
      relay-own (with_transport world g t) none p w r.status r.headers
        (refusal_reading world.refusal_write r)
  after_start-own g p w u t (started permit) =
      received-own g t permit p w (traced world u) (world.exchange (traced world u))

  do_request-own :
      (g : Gateway S T P) (p : ProviderRuntime) (w : Header) (u : UpstreamRequest)
      → own (do_request world g p w u).gateway.metrics ≡ own g.metrics
  unfolding do_request
  do_request-own g p w u =
      let begin =
        start_exchange world.itoa (transport_of world g p.identity.name) world.started_at in
      after_start-own g p w u begin.0 begin.1
      ∙ start_exchange-own world.itoa (transport_of world g p.identity.name) world.started_at

  after_build-own :
      (g : Gateway S T P) (w : Header) (p : ProviderRuntime)
      (built : Result ProxyError UpstreamRequest)
      → own (after_build world g w p built).gateway.metrics ≡ own g.metrics
  unfolding after_build
  after_build-own g w p (err e) = refl
  after_build-own g w p (ok u) = do_request-own g p w u

  after_body-own :
      (g : Gateway S T P) (w : Header) (r : IncomingRequest) (client id : Text)
      (p : ProviderRuntime) (target : Text) (body : Result BodyError (Option Stream × ℤ))
      → own (after_body world g w r client id p target body).gateway.metrics ≡ own g.metrics
  unfolding after_body
  after_body-own g w r client id p target (err e) = refl
  after_body-own g w r client id p target (ok body) =
      after_build-own (record g { metrics = count_in g.metrics body.1 }) w p
        (build_request world g.runtime r client id p target body)
      ∙ count_in-own g.metrics body.1

  after_route-own :
      (g : Gateway S T P) (w : Header) (r : IncomingRequest) (client id : Text)
      (route : Result RouteError (ProviderRuntime × Text))
      → own (after_route world g w r client id route).gateway.metrics ≡ own g.metrics
  unfolding after_route
  after_route-own g w r client id (err e) = refl
  after_route-own g w r client id (ok (p, target)) =
      after_body-own g w r client id p target
        (prepare_body g.runtime.cfg.request_body_limit r.body r.content_length)

  -- The exchange with a provider leaves the counters of the gateway's own requests as they are.
  pub proxy-own :
      (g : Gateway S T P) (w : Header) (r : IncomingRequest) (client id : Text)
      → own (proxy world g w r client id).gateway.metrics ≡ own g.metrics
  unfolding proxy
  proxy-own g w r client id =
      after_route-own g w r client id
        (resolve_provider g.runtime.default_provider g.runtime.providers r.path)
