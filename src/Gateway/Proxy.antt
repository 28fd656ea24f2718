-- ===== src/Gateway/Proxy.antt =====
-- internal/gateway/proxy.go: `proxy`.
pub mod Passage
pub mod Counters
pub mod Status
pub mod Settled
use gem_gate.Prelude.{
  ℕ, zero, suc, ◌+◌, ◌-◌, ◌==◌, Bool, true, false, not, ◌&&◌, Option, none, some, ℤ, pos, negsuc,
  List, [], ◌∷◌, ◌++◌, if◌then◌else◌, Result, ok, err,
}
use gem_gate.Text.{Text, codes, text_eq, trim_prefix}
use gem_gate.Header.{Header}
use gem_gate.Table.{find_name, assign}
use gem_gate.ClientIp.{NetIp, resolve_client_ip}
use gem_gate.Circuit.{
  CircuitBreaker, CircuitPermit, default_circuit_policy, new_circuit_breaker_with_policy,
}
use gem_gate.Config.Checks.{Url}
use gem_gate.Forward.{copy_response_headers}
use gem_gate.Metrics.{Metrics, u64}
use gem_gate.Provider.{ApplyError}
use gem_gate.Route.{
  RouteError, route_status, resolve_provider, single_joining_slash, Stream, BodyError,
  body_too_large, read_failed, prepare_body,
}
use gem_gate.Transport.{
  ProviderTransport, Response, Start, refused, started, start_exchange, end_exchange,
  request_failed, Body, BodyCall, read_more, read_eof, read_error, call_all,
}
use gem_gate.Upstream.{upstream_headers}
use gem_gate.Gateway.Streams.{
  IncomingRequest, UpstreamRequest, Write, Reading, more, end_of_file, read_failure, CopyError,
  write_failed, short_write, stream_failed, copy_and_flush, reads_made,
}
use gem_gate.Gateway.World.{Answer, no_answer, answer, World}
use gem_gate.Gateway.{Gateway, RuntimeSnapshot, ProviderRuntime}
use gem_gate.Gateway.Exchange.{
  ProxyResult, ProxyError, bad_route, bad_body, bad_request, bad_auth, provider_failed, canceled,
  bad_stream, is_canceled, body_status, copy_outcome, Passed, count_in, count_out, breaker_of,
  begun, refusal_reading, build_request, traced,
}

module _ {S A P T : Type 0} (world : World A P) where
  abbrev pub transport_of : Gateway S T P → Text → ProviderTransport
  transport_of g name = record {
    provider = name;
    breaker = breaker_of g.breakers name;
    metrics = g.metrics;
  }

  -- What the transport changes is the gateway's.
  abbrev pub with_transport : Gateway S T P → ProviderTransport → Gateway S T P
  with_transport g t = record g {
    breakers = assign g.breakers t.provider t.breaker;
    metrics = t.metrics;
  }

  -- From the response on: its headers and its body go to the client.
  relay :
      Gateway S T P
      → Option UpstreamRequest
      → ProviderRuntime
      → Header
      → ℕ
      → Header
      → Reading
      → Passed S T P
  unfolding copy_and_flush copy_outcome count_out
  relay g sent p w status headers reading =
      let (n, error) = copy_and_flush 0 reading in
      record {
        gateway = record g { metrics = count_out g.metrics n };
        sent = sent;
        result = record (begun p) { status = status; bytes_out = n; response_started = true };
        error = copy_outcome world.gone error;
        headers = copy_response_headers w headers;
      }

  -- The answer of the provider's server, after the breaker has admitted the request.
  received :
      Gateway S T P
      → ProviderTransport
      → CircuitPermit
      → ProviderRuntime
      → Header
      → UpstreamRequest
      → Answer
      → Passed S T P
  unfolding relay reads_made
  received g t permit p w u (no_answer aborted) = record {
    gateway = with_transport g (
        end_exchange t permit (request_failed aborted) (world.answered_at - world.started_at)
          world.answered_at);
    sent = some u;
    result = record (begun p) { status = 502 };
    error = some provider_failed;
    headers = w;
  }
  received g t permit p w u (answer status headers reading) =
      let body =
        call_all permit status world.started_at (record { transport = t; done = false })
          (reads_made reading ++ world.close ∷ []) in
      relay (with_transport g body.transport) (some u) p w status headers reading

  after_start :
      Gateway S T P
      → ProviderRuntime
      → Header
      → UpstreamRequest
      → ProviderTransport
      → Start
      → Passed S T P
  unfolding received relay
  after_start g p w u t (refused r) =
      relay (with_transport g t) none p w r.status r.headers (refusal_reading world.refusal_write r)
  after_start g p w u t (started permit) =
      received g t permit p w (traced world u) (world.exchange (traced world u))

  -- `p.client.Do`, which follows no redirect, and what comes after it.
  unfoldable pub do_request :
      Gateway S T P → ProviderRuntime → Header → UpstreamRequest → Passed S T P
  unfolding after_start
  do_request g p w u =
      let (t, start) =
        start_exchange world.itoa (transport_of g p.identity.name) world.started_at in
      after_start g p w u t start

  abbrev pub stopped : Gateway S T P → Header → ProxyResult → ProxyError → Passed S T P
  stopped g w result e = record {
    gateway = g;
    sent = none;
    result = result;
    error = some e;
    headers = w;
  }

  after_build :
      Gateway S T P → Header → ProviderRuntime → Result ProxyError UpstreamRequest → Passed S T P
  unfolding do_request
  after_build g w p (err e) = stopped g w (record (begun p) { status = 500 }) e
  after_build g w p (ok u) = do_request g p w u

  after_body :
      Gateway S T P
      → Header
      → IncomingRequest
      → Text
      → Text
      → ProviderRuntime
      → Text
      → Result BodyError (Option Stream × ℤ)
      → Passed S T P
  unfolding after_build build_request count_in
  after_body g w r client_name request_id p target (err e) =
      stopped g w (record (begun p) { status = body_status e }) (bad_body e)
  after_body g w r client_name request_id p target (ok body) =
      after_build (record g { metrics = count_in g.metrics body.1 }) w p
        (build_request world g.runtime r client_name request_id p target body)

  after_route :
      Gateway S T P
      → Header
      → IncomingRequest
      → Text
      → Text
      → Result RouteError (ProviderRuntime × Text)
      → Passed S T P
  unfolding after_body
  after_route g w r client_name request_id (err e) =
      stopped g w
        (record { status = route_status e; bytes_out = 0; response_started = false; provider = [] })
        (bad_route e)
  after_route g w r client_name request_id (ok (p, target)) =
      after_body g w r client_name request_id p target
        (prepare_body g.runtime.cfg.request_body_limit r.body r.content_length)

  unfoldable pub proxy : Gateway S T P → Header → IncomingRequest → Text → Text → Passed S T P
  unfolding after_route
  proxy g w r client_name request_id =
      after_route g w r client_name request_id
        (resolve_provider g.runtime.default_provider g.runtime.providers r.path)
