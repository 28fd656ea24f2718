-- ===== src/Gateway/Replies.antt =====
-- internal/gateway/gateway.go: what a request is answered with, the operations plane of `serveHTTP`,
-- and `requestID` of internal/gateway/http_helpers.go. Tracing is left out.
use gem_gate.Prelude.{
  ℕ, ◌+◌, ◌/◌, Bool, not, ◌&&◌, Option, none, some, List, [], ◌++◌, if◌then◌else◌, ltb,
}
use gem_gate.Text.{Text, codes, text_eq, trim_space}
use gem_gate.Header.{Header, header_get, header_set}
use gem_gate.Access.{operations_authorized}
use gem_gate.LogRing.{LogEntry, add}
use gem_gate.Metrics.{Metrics, Health, u64, record_status}
use gem_gate.RateLimit.{hex_prefix}
use gem_gate.Report.{valid_request_id}
use gem_gate.Gateway.{Gateway}
use gem_gate.Gateway.Operations.{
  Readiness, SafeConfig, write_health, write_readiness, safe_config, circuit_snapshots,
}
use gem_gate.Circuit.{CircuitSnapshot}
use gem_gate.Gateway.Exchange.{ProxyError}
use gem_gate.Gateway.World.{World}
use gem_gate.Gateway.Streams.{IncomingRequest, UpstreamRequest}

-- What the body of a response is.
pub data Content (V : Type 0) : Type 0 where
  empty : Content V
  message : Text → Content V
  streamed : ℕ → Content V
  health : List (Text × Health) → Content V
  readiness : Readiness → Content V
  counters : Metrics → List (Text × CircuitSnapshot) → Content V
  settings : SafeConfig V → Content V

pub record Reply (V : Type 0) : Type 0 where
  pub status : ℕ
  pub headers : Header
  pub content : Content V

-- A served request: the gateway after it, the reply, and what went to a provider.
pub record Served (S T P V : Type 0) : Type 0 where
  pub gateway : Gateway S T P
  pub reply : Reply V
  pub sent : Option UpstreamRequest

-- `http.Error` and `http.NotFound`: the headers that they leave, and the texts of errors.
pub record Texts (E T V : Type 0) : Type 0 where
  pub error_headers : Header → Header
  pub not_found_message : Text
  pub limit_error : E → Text
  pub proxy_error : ProxyError → Text
  pub master_name : Text → Option Text
  pub telemetry_told : T → V

-- The request's id: the caller's, or a random one, or one made of the time if there are no random
-- bytes.
unfoldable pub request_id : (ℕ → Text) → Option (List ℕ) → ℕ → Header → Text
request_id itoa random now h =
    let id = trim_space (header_get h (codes "X-Request-ID")) in
    if valid_request_id id then id else elim random [
      | none ↦ codes "req-" ++ itoa now
      | some bytes ↦ codes "req-" ++ hex_prefix 8 bytes
    ]

-- What is known of a request when it is served.
pub record Call : Type 0 where
  pub request : IncomingRequest
  pub id : Text
  pub client_ip : Text
  pub start : ℕ
  pub duration : ℕ

unfoldable pub entry_of : Call → Text → Text → Text → ℕ → Text → LogEntry
entry_of c level client path status text = record {
  time = c.start;
  level = level;
  client = client;
  client_ip = c.client_ip;
  provider = [];
  method = c.request.method;
  path = path;
  status = status;
  bytes = 0;
  duration = c.duration;
  request_id = c.id;
  message = text;
}

-- `max(1, int(d.Round(time.Second).Seconds()))`
unfoldable pub limit_retry_seconds : ℕ → ℕ
limit_retry_seconds d =
    let seconds = (d + 500000000) / 1000000000 in if ltb 1 seconds then seconds else 1

abbrev pub http_error : {E T V : Type 0} → Texts E T V → Header → ℕ → Text → Reply V
http_error texts w status text = record {
  status = status;
  headers = texts.error_headers w;
  content = message text;
}

abbrev pub json_header : Header → Header
json_header w = header_set w (codes "Content-Type") (codes "application/json")

abbrev pub answered : {S T P V : Type 0} → Gateway S T P → Reply V → Served S T P V
answered g reply = record { gateway = g; reply = reply; sent = none }

abbrev pub is_public : {S T P : Type 0} → Gateway S T P → IncomingRequest → Text → Bool
is_public g r path = text_eq r.path path && g.runtime.cfg.config.server.public_health

module _ {S E A P T V : Type 0} (world : World A P) (texts : Texts E T V) where
  abbrev pub logged : Gateway S T P → LogEntry → Gateway S T P
  logged g e = record g { logs = add g.logs e world.finished_at }

  -- A request that is refused for its token.
  unfoldable pub deny : Gateway S T P → Call → Text → Text → Gateway S T P
  unfolding entry_of
  deny g c client text =
      logged
        (record g {
          metrics =
              record_status (record g.metrics { auth_failures = u64 (g.metrics.auth_failures + 1) })
                401;
        })
        (entry_of c (codes "warn") client c.request.path 401 text)

  unfoldable pub health_reply : Gateway S T P → Header → Served S T P V
  unfolding write_health
  health_reply g w =
      answered g
        (record { status = 200; headers = json_header w; content = health (write_health g) })

  unfoldable pub readiness_reply : Gateway S T P → Header → Served S T P V
  unfolding write_readiness
  readiness_reply g w =
      let (status, page) = write_readiness g world.answered_at in
      answered g (record {
        status = status;
        headers = json_header (header_set w (codes "X-GemGate-Readiness") (codes "passive"));
        content = readiness page;
      })

  -- The `switch` over the operational paths.
  unfoldable pub operations_page : Gateway S T P → Header → IncomingRequest → Served S T P V
  unfolding health_reply readiness_reply safe_config circuit_snapshots
  operations_page g w r =
      if text_eq r.path (codes "/_healthz")
      then health_reply g w
      else if text_eq r.path (codes "/_readyz")
      then readiness_reply g w
      else if text_eq r.path (codes "/_metrics")
      then answered g (record {
        status = 200;
        headers = header_set w (codes "Content-Type") (codes "text/plain; version=0.0.4");
        content =
            counters g.metrics (circuit_snapshots g.breakers g.runtime.providers world.answered_at);
      })
      else answered g (record {
        status = 200;
        headers = json_header w;
        content = settings (safe_config texts.master_name texts.telemetry_told g.runtime);
      })

  unfoldable pub operations : Gateway S T P → Header → Call → Served S T P V
  unfolding operations_page deny
  operations g w c =
      if not (operations_authorized g.runtime.access c.request.headers)
      then answered (deny g c (codes "operations") (codes "operations auth failed")) (
          http_error texts
            (header_set w (codes "WWW-Authenticate") (codes "Bearer realm=\"gemgate-operations\""))
            401 (codes "invalid operations token"))
      else operations_page g w c.request
