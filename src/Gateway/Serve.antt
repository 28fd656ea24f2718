-- ===== src/Gateway/Serve.antt =====
-- internal/gateway/gateway.go: `ServeHTTP` and `serveHTTP`, and internal/gateway/operations_listener.go.
-- One request is one step. Tracing is left out.
pub mod Admission
pub mod Accounting
pub mod Planes
use gem_gate.Prelude.{
  ℕ, ◌+◌, ◌-◌, ◌*◌, ◌/◌, ◌==◌, Bool, true, false, not, ◌&&◌, ◌||◌, Option, none, some, ℤ, List, [],
  ◌∷◌, ◌++◌, if◌then◌else◌, ltb,
}
use gem_gate.Text.{Text, codes, text_eq, trim_space}
use gem_gate.Header.{Header, header_get, header_set}
use gem_gate.Access.{ClientAuth, authenticate, operations_authorized, is_operational_path}
use gem_gate.ClientIp.{resolve_client_ip}
use gem_gate.Cors.{CorsOutcome, passed, rejected, no_content, handle}
use gem_gate.Cors
use gem_gate.LogRing.{LogEntry, add}
use gem_gate.Metrics.{Metrics, Health, u64, record_status}
use gem_gate.RateLimit.{RateLimitBackend, RateLimitDecision, hex_prefix, manager_allow}
use gem_gate.Report.{valid_request_id, public_proxy_error, level_for_status}
use gem_gate.Gateway.{Gateway}
use gem_gate.Gateway.Operations.{
  Readiness, SafeConfig, write_health, write_readiness, safe_config, circuit_snapshots,
}
use gem_gate.Circuit.{CircuitSnapshot}
use gem_gate.Gateway.Proxy.{proxy}
use gem_gate.Gateway.Exchange.{ProxyResult, ProxyError, Passed}
use gem_gate.Gateway.World.{World}
use gem_gate.Gateway.Streams.{IncomingRequest, UpstreamRequest}
use gem_gate.Gateway.Replies.{
  Content, empty, message, streamed, Reply, Served, Texts, request_id, Call, entry_of,
  limit_retry_seconds, logged, deny, http_error, answered, is_public, health_reply, readiness_reply,
  operations,
}
use gem_gate.Gateway.Settling.{note_limit_error, limit_exceeded, settle}

module _ {S E A P T V : Type 0} (world : World A P) (texts : Texts E T V)
    (backend : RateLimitBackend S E) (digest : Text → List ℕ) where
  unfoldable pub forward : Gateway S T P → Header → Call → ClientAuth → Served S T P V
  unfolding settle
  forward g w c auth = settle world texts c auth (
      proxy world (record g { metrics = record g.metrics { in_flight = g.metrics.in_flight + 1 } })
        w c.request auth.name c.id)

  -- The answer of the rate limit, and what the request comes to with it.
  unfoldable pub limited :
      Gateway S T P → Header → Call → ClientAuth → RateLimitDecision × Option E → Served S T P V
  unfolding forward limit_exceeded note_limit_error
  limited g w c auth (decision, none) =
      if not decision.allowed
      then limit_exceeded world texts g w c auth decision
      else forward g w c auth
  limited g w c auth (decision, some e) =
      if not decision.allowed
      then answered (note_limit_error world texts g c auth decision e)
          (http_error texts w 503 (codes "rate limit backend unavailable"))
      else forward (note_limit_error world texts g c auth decision e) w c auth

  -- After `authenticate`, whose answer is the client and its token.
  after_auth : Gateway S T P → Header → Call → Option (ClientAuth × Text) → Served S T P V
  unfolding limited deny
  after_auth g w c none =
      answered (deny world texts g c (codes "anonymous") (codes "auth failed"))
        (http_error texts w 401 (codes "invalid proxy token"))
  after_auth g w c (some (auth, token)) =
      let (limits, decision, error) =
        manager_allow backend digest g.rate_limits token auth.rate_limit_rpm world.started_at in
      limited (record g { rate_limits = limits }) w c auth (decision, error)

  unfoldable pub application : Gateway S T P → Header → Call → Served S T P V
  unfolding after_auth
  application g w c = after_auth g w c (authenticate g.runtime.access c.request.headers)

  unfoldable pub call_of : Gateway S T P → IncomingRequest → Call
  unfolding request_id
  call_of g r = record {
    request = r;
    id = request_id world.itoa world.random world.finished_at r.headers;
    client_ip = resolve_client_ip world.net g.runtime.cfg.trusted_proxies r.remote_addr r.headers;
    start = world.started_at;
    duration = world.finished_at - world.started_at;
  }

  abbrev no_content_reply : Header → Reply V
  no_content_reply w = record { status = 204; headers = w; content = empty }

  unfoldable pub serve_http : Gateway S T P → Header → IncomingRequest → Served S T P V
  unfolding operations application call_of health_reply readiness_reply
  serve_http g h r =
      let c = call_of g r in
      let w = header_set h (codes "X-Request-ID") c.id in
      if is_public g r (codes "/_healthz")
      then health_reply world texts g w
      else if is_public g r (codes "/_readyz")
      then readiness_reply world texts g w
      else if text_eq r.method (codes "OPTIONS")
      then answered g (no_content_reply w)
      else if is_operational_path r.path
      then operations world texts g w c
      else application g w c

  -- `ServeHTTP`: the CORS policy comes first.
  unfoldable pub serve : Gateway S T P → Header → IncomingRequest → Served S T P V
  unfolding serve_http
  serve g h r = elim (handle world.itoa g.runtime.cors r.method r.headers h) [
    | passed w ↦ serve_http g w r
    | rejected text w ↦ answered g (http_error texts w 403 text)
    | no_content w ↦ answered g (no_content_reply w)
  ]

  -- The listener of the operations plane alone.
  unfoldable pub serve_operations : Gateway S T P → Header → IncomingRequest → Served S T P V
  unfolding operations call_of health_reply readiness_reply
  serve_operations g h r =
      let c = call_of g r in
      let w = header_set h (codes "X-Request-ID") c.id in
      if not (is_operational_path r.path)
      then answered g (http_error texts w 404 texts.not_found_message)
      else if is_public g r (codes "/_healthz")
      then health_reply world texts g w
      else if is_public g r (codes "/_readyz")
      then readiness_reply world texts g w
      else if text_eq r.method (codes "OPTIONS")
      then answered g (no_content_reply w)
      else operations world texts g w c

  -- The application listener after `IsolateOperationsEndpoints`.
  unfoldable pub serve_isolated : Gateway S T P → Header → IncomingRequest → Served S T P V
  unfolding serve
  serve_isolated g h r =
      if is_operational_path r.path
      then answered g (http_error texts h 404 texts.not_found_message)
      else serve g h r
