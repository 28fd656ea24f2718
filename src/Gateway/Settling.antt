-- ===== src/Gateway/Settling.antt =====
-- internal/gateway/gateway.go: what `serveHTTP` counts, logs and answers after the rate limit and
-- after `proxy`.
use gem_gate.Prelude.{
  ℕ, ◌+◌, ◌-◌, ◌==◌, Bool, false, not, Option, none, some, [], ◌++◌, if◌then◌else◌, ltb,
}
use gem_gate.Text.{Text, codes}
use gem_gate.Header.{Header, header_set}
use gem_gate.Access.{ClientAuth}
use gem_gate.LogRing.{LogEntry}
use gem_gate.Metrics.{Metrics, u64, record_status}
use gem_gate.RateLimit.{RateLimitDecision}
use gem_gate.Report.{public_proxy_error, level_for_status}
use gem_gate.Gateway.{Gateway}
use gem_gate.Gateway.Exchange.{ProxyError, Passed}
use gem_gate.Gateway.World.{World}
use gem_gate.Gateway.Replies.{
  empty, streamed, Reply, Served, Texts, Call, entry_of, limit_retry_seconds, logged, http_error,
  answered,
}

abbrev pub error_text : {E T V : Type 0} → Texts E T V → Option ProxyError → Text
error_text texts none = []
error_text texts (some e) = texts.proxy_error e

module _ {S E A P T V : Type 0} (world : World A P) (texts : Texts E T V) where
  -- After the rate limit's answer: the error is counted and logged, and with `fail_open` no more.
  unfoldable pub note_limit_error :
      Gateway S T P → Call → ClientAuth → RateLimitDecision → E → Gateway S T P
  unfolding entry_of
  note_limit_error g c auth decision e =
      let counted = record g {
        metrics = record g.metrics {
          rate_limit_backend_errors = u64 (g.metrics.rate_limit_backend_errors + 1);
        };
      } in
      if not decision.allowed
      then logged world texts (record counted { metrics = record_status counted.metrics 503 })
          (entry_of c (codes "error") auth.name c.request.path 503
            (codes "rate limit backend unavailable: " ++ texts.limit_error e))
      else logged world texts counted (
          entry_of c (codes "warn") auth.name c.request.path 0 (
            codes "rate limit backend unavailable; fail-open allowed request: "
            ++ texts.limit_error e))

  unfoldable pub limit_exceeded :
      Gateway S T P → Header → Call → ClientAuth → RateLimitDecision → Served S T P V
  unfolding entry_of limit_retry_seconds
  limit_exceeded g w c auth decision =
      let metrics = record g.metrics { rate_limited = u64 (g.metrics.rate_limited + 1) } in
      let headers =
        if ltb 0 decision.retry_after
        then header_set w (codes "Retry-After")
            (world.itoa (limit_retry_seconds decision.retry_after))
        else w in
      answered
        (logged world texts (record g { metrics = record_status metrics 429 })
          (entry_of c (codes "warn") auth.name c.request.path 429 (codes "rate limit exceeded")))
        (http_error texts headers 429 (codes "client rate limit exceeded"))

  -- Whether the client went away: `err != nil && r.Context().Err() != nil`.
  abbrev pub client_aborted : Passed S T P → Bool
  client_aborted p = elim p.error [ none ↦ false | some e ↦ world.gone_later ]

  -- The status that is counted and logged.
  abbrev pub settled_status : Passed S T P → ℕ
  settled_status p = elim p.error [
    | none ↦ p.result.status
    | some e ↦
        if world.gone_later
        then p.result.status
        else if p.result.status == 0
        then 502
        else p.result.status
  ]

  -- To a client that is gone before the response nothing is written, which status 0 stands for.
  abbrev settled_reply : Passed S T P → Reply V
  settled_reply p =
      let response : Reply V = record {
        status = p.result.status;
        headers = p.headers;
        content = streamed p.result.bytes_out;
      } in
      elim p.error [
        | none ↦ response
        | some e ↦
            if p.result.response_started
            then response
            else if world.gone_later
            then record { status = 0; headers = p.headers; content = empty }
            else http_error texts p.headers (settled_status p)
                (public_proxy_error (settled_status p))
      ]

  unfoldable pub settled_metrics : Passed S T P → Metrics
  settled_metrics p =
      let m = p.gateway.metrics in
      elim p.error [
        | none ↦ record_status m (settled_status p)
        | some e ↦
            if world.gone_later
            then m
            else record_status (record m { upstream_errors = u64 (m.upstream_errors + 1) })
                (settled_status p)
      ]

  unfoldable pub settled_entry : Call → ClientAuth → Passed S T P → LogEntry
  unfolding entry_of
  settled_entry c auth p =
      if client_aborted p
      then record (entry_of c (codes "info") auth.name c.request.request_uri 0
          (codes "client canceled request")) {
            provider = p.result.provider;
            bytes = p.result.bytes_out;
          }
      else record (entry_of c (level_for_status (settled_status p)) auth.name c.request.request_uri
          (settled_status p) (error_text texts p.error)) {
            provider = p.result.provider;
            bytes = p.result.bytes_out;
          }

  -- What `serveHTTP` does after `proxy`, with the deferred end of the request's flight.
  unfoldable pub settle : Call → ClientAuth → Passed S T P → Served S T P V
  unfolding settled_metrics settled_entry
  settle c auth p = record {
    gateway =
        logged world texts
          (record p.gateway {
            metrics = record (settled_metrics p) { in_flight = (settled_metrics p).in_flight - 1 };
          })
          (settled_entry c auth p);
    reply = settled_reply p;
    sent = p.sent;
  }
