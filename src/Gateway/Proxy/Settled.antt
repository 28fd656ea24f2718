-- ===== src/Gateway/Proxy/Settled.antt =====
-- internal/gateway/proxy.go and provider_metrics_transport.go: a request leaves no probe behind.
use gem_gate.Prelude.{
  ℕ, ◌-◌, Bool, true, false, ◌≡◌, ap, ◌∙◌, inl, inr, Option, none, some, ℤ, List, [], ◌∷◌, ◌++◌,
  Result, ok, err, Bool-cases, Option-cases, arith,
}
use gem_gate.Text.{Text}
use gem_gate.Header.{Header}
use gem_gate.Table.{assign, find-assign}
use gem_gate.Circuit.{
  CircuitBreaker, CircuitPermit, CircuitState, circuit_open, circuit_closed, circuit_half_open,
}
use gem_gate.Circuit
use gem_gate.Route.{Stream, RouteError, BodyError, resolve_provider, prepare_body}
use gem_gate.Transport.{
  ProviderTransport, BodyCall, Ending, request_failed, without_body, body_ended, Start, refused,
  started, start_exchange, end_exchange, finish_argument, call_all,
}
use gem_gate.Transport.Endings.{first_end, call_all_once}
use gem_gate.Gateway.{Gateway, ProviderRuntime}
use gem_gate.Gateway.Proxy.{
  proxy, after_route, after_body, after_build, do_request, after_start, received, relay,
  transport_of,
}
use gem_gate.Gateway.Exchange.{ProxyError, build_request, count_in, breaker_of, traced}
use gem_gate.Gateway.World.{World, Answer, no_answer, answer}
use gem_gate.Gateway.Streams.{IncomingRequest, UpstreamRequest, reads_made}

abbrev pub probing : CircuitBreaker → Bool
probing b = elim b.state [ circuit_half_open ↦ true | _ ↦ false ]

-- The state in which an admission leaves the breaker is one that `finish` ends.
finish-quiet :
    (b : CircuitBreaker) (now : ℕ) (failed : Bool) (later : ℕ)
    → probing b ≡ false
    → (Circuit.allow b now).1.allowed ≡ true
    → probing (Circuit.finish (Circuit.allow b now).0 (Circuit.allow b now).1.permit failed later)
      ≡ false
unfolding Circuit.allow Circuit.finish
finish-quiet b now failed later quiet through = ground (arith, quiet, through)

refused-quiet :
    (b : CircuitBreaker) (now : ℕ)
    → probing b ≡ false
    → (Circuit.allow b now).1.allowed ≡ false
    → probing (Circuit.allow b now).0 ≡ false
unfolding Circuit.allow
refused-quiet b now quiet stopped = ground (arith, quiet, stopped)

-- However the exchange ends.
abbrev AllQuiet : ProviderTransport → CircuitPermit → Type 0
AllQuiet t permit =
    (failed : Bool) (later : ℕ) → probing (Circuit.finish t.breaker permit failed later) ≡ false

end_exchange-quiet :
    (t : ProviderTransport) (permit : CircuitPermit) (e : Ending) (duration now : ℕ)
    → AllQuiet t permit
    → probing (end_exchange t permit e duration now).breaker ≡ false
unfolding end_exchange
end_exchange-quiet t permit (request_failed aborted) duration now quiet = quiet _ now
end_exchange-quiet t permit (without_body status) duration now quiet = quiet _ now
end_exchange-quiet t permit (body_ended status failed aborted) duration now quiet = quiet _ now

first_end-close :
    (permit : CircuitPermit) (status begun_at : ℕ) (calls : List (BodyCall × Bool × ℕ))
    (close : BodyCall × Bool × ℕ) (e : Bool)
    → finish_argument close.0 ≡ some e
    → (found : Bool × Bool × ℕ) × (first_end permit status begun_at (calls ++ close ∷ [])
        ≡ some found)
first_end-close permit status begun_at [] close e ends =
    ((e, close.1, close.2), ground (arith, ends))
first_end-close permit status begun_at ((call, aborted, now) ∷ calls) close e ends =
    elim (Option-cases (finish_argument call)) [
      | inl goes_on ↦
          let (found, rest) = first_end-close permit status begun_at calls close e ends in
          (found, ground (arith, goes_on, rest))
      | inr (failed, stops) ↦ ((failed, aborted, now), ground (arith, stops))
    ]

call_all-quiet :
    (t : ProviderTransport) (permit : CircuitPermit) (status begun_at : ℕ)
    (calls : List (BodyCall × Bool × ℕ)) (close : BodyCall × Bool × ℕ) (e : Bool)
    → finish_argument close.0 ≡ some e
    → AllQuiet t permit
    → probing
        (call_all permit status begun_at
          (record { transport = t; done = false })
          (calls ++ close ∷ [])).transport.breaker
      ≡ false
call_all-quiet t permit status begun_at calls close e ends quiet =
    let ((failed, aborted, now), found) =
      first_end-close permit status begun_at calls close e ends in
    ap (λ u. probing u.breaker) (call_all_once permit status begun_at t (calls ++ close ∷ []))
    ∙ ending (first_end permit status begun_at (calls ++ close ∷ [])) found
  where
    ending :
        (end : Option (Bool × Bool × ℕ))
        → end ≡ some (first_end-close permit status begun_at calls close e ends).0
        → probing
            (elim end as (λ x. ProviderTransport) [
              | none ↦ t
              | some (failed, aborted, now) ↦
                  end_exchange t permit (body_ended status failed aborted) (now - begun_at) now
            ]).breaker
          ≡ false
    ending none h = absurd (cc h)
    ending (some (failed, aborted, now)) h =
        end_exchange-quiet t permit (body_ended status failed aborted) (now - begun_at) now quiet

-- No breaker has a probe in flight.
abbrev pub Quiet : List (Text × CircuitBreaker) → Type 0
Quiet breakers = (j : Text) → probing (breaker_of breakers j) ≡ false

assign-Quiet :
    (breakers : List (Text × CircuitBreaker)) (name : Text) (b : CircuitBreaker)
    → Quiet breakers
    → probing b ≡ false
    → Quiet (assign breakers name b)
assign-Quiet breakers name b quiet still j =
    ground (arith, quiet j, still, find-assign breakers name j b)

-- The transport after the start of an exchange: its breaker is quiet if the request is refused, and
-- is so after any end of the exchange if it is admitted.
abbrev Ready : ProviderTransport → Start → Type 0
Ready t (refused r) = probing t.breaker ≡ false
Ready t (started permit) = AllQuiet t permit

start_exchange-Ready :
    (itoa : ℕ → Text) (t : ProviderTransport) (now : ℕ)
    → probing t.breaker ≡ false
    → Ready (start_exchange itoa t now).0 (start_exchange itoa t now).1
unfolding start_exchange
start_exchange-Ready itoa t now quiet = elim (Bool-cases (Circuit.allow t.breaker now).1.allowed) [
  | inl through ↦ rw through (λ failed later. finish-quiet t.breaker now failed later quiet through)
  | inr stopped ↦ rw stopped (refused-quiet t.breaker now quiet stopped)
]

module _ {S A P T : Type 0} (world : World A P) (e : Bool)
    (closes : finish_argument world.close.0 ≡ some e) where
  received-Quiet :
      (g : Gateway S T P) (t : ProviderTransport) (permit : CircuitPermit) (p : ProviderRuntime)
      (w : Header) (u : UpstreamRequest) (a : Answer)
      → Quiet g.breakers
      → AllQuiet t permit
      → Quiet (received world g t permit p w u a).gateway.breakers
  unfolding received relay
  received-Quiet g t permit p w u (no_answer aborted) quiet settled =
      assign-Quiet g.breakers _ _ quiet (
        end_exchange-quiet t permit (request_failed aborted) (world.answered_at - world.started_at)
          world.answered_at settled)
  received-Quiet g t permit p w u (answer status headers reading) quiet settled =
      assign-Quiet g.breakers _ _ quiet (
        call_all-quiet t permit status world.started_at (reads_made reading) world.close e closes
          settled)

  after_start-Quiet :
      (g : Gateway S T P) (p : ProviderRuntime) (w : Header) (u : UpstreamRequest)
      (t : ProviderTransport) (start : Start)
      → Quiet g.breakers
      → Ready t start
      → Quiet (after_start world g p w u t start).gateway.breakers
  unfolding after_start relay
  after_start-Quiet g p w u t (refused r) quiet ready =
      assign-Quiet g.breakers t.provider t.breaker quiet ready
  after_start-Quiet g p w u t (started permit) quiet ready =
      received-Quiet g t permit p w (traced world u) (world.exchange (traced world u)) quiet ready

  do_request-Quiet :
      (g : Gateway S T P) (p : ProviderRuntime) (w : Header) (u : UpstreamRequest)
      → Quiet g.breakers
      → Quiet (do_request world g p w u).gateway.breakers
  unfolding do_request
  do_request-Quiet g p w u quiet =
      let t = transport_of world g p.identity.name in
      let begin = start_exchange world.itoa t world.started_at in
      after_start-Quiet g p w u begin.0 begin.1 quiet
        (start_exchange-Ready world.itoa t world.started_at (quiet p.identity.name))

  after_build-Quiet :
      (g : Gateway S T P) (w : Header) (p : ProviderRuntime)
      (made : Result ProxyError UpstreamRequest)
      → Quiet g.breakers
      → Quiet (after_build world g w p made).gateway.breakers
  unfolding after_build
  after_build-Quiet g w p (err e) quiet = quiet
  after_build-Quiet g w p (ok u) quiet = do_request-Quiet g p w u quiet

  after_body-Quiet :
      (g : Gateway S T P) (w : Header) (r : IncomingRequest) (client id : Text)
      (p : ProviderRuntime) (target : Text) (body : Result BodyError (Option Stream × ℤ))
      → Quiet g.breakers
      → Quiet (after_body world g w r client id p target body).gateway.breakers
  unfolding after_body
  after_body-Quiet g w r client id p target (err e) quiet = quiet
  after_body-Quiet g w r client id p target (ok body) quiet =
      after_build-Quiet (record g { metrics = count_in g.metrics body.1 }) w p
        (build_request world g.runtime r client id p target body) quiet

  after_route-Quiet :
      (g : Gateway S T P) (w : Header) (r : IncomingRequest) (client id : Text)
      (route : Result RouteError (ProviderRuntime × Text))
      → Quiet g.breakers
      → Quiet (after_route world g w r client id route).gateway.breakers
  unfolding after_route
  after_route-Quiet g w r client id (err e) quiet = quiet
  after_route-Quiet g w r client id (ok (p, target)) quiet =
      after_body-Quiet g w r client id p target
        (prepare_body g.runtime.cfg.request_body_limit r.body r.content_length) quiet

  -- A request leaves no probe behind: if no breaker has one in flight before `proxy`, none has one
  -- after it, whatever the provider answers, however the copy ends and whether or not the client
  -- stays, since the body is closed in the end.
  pub proxy-Quiet :
      (g : Gateway S T P) (w : Header) (r : IncomingRequest) (client id : Text)
      → Quiet g.breakers
      → Quiet (proxy world g w r client id).gateway.breakers
  unfolding proxy
  proxy-Quiet g w r client id =
      after_route-Quiet g w r client id
        (resolve_provider g.runtime.default_provider g.runtime.providers r.path)
