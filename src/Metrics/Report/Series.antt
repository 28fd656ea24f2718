-- ===== src/Metrics/Report/Series.antt =====
-- internal/gateway/metrics.go: the series that `Prometheus` writes, with their help and their kind.
use gem_gate.Prelude.{ℕ, List, [], ◌∷◌}
use gem_gate.Text.{Text, codes}
use gem_gate.Metrics.{Metrics}

pub record Total : Type 0 where
  pub metric : Text
  pub help : Text
  pub kind : Text
  pub value : ℕ

abbrev pub totals_of : Metrics → List Total
totals_of m =
    record {
      metric = codes "gemgate_requests_total";
      help = codes "Total proxied requests.";
      kind = codes "counter";
      value = m.requests;
    }
    ∷ record {
      metric = codes "gemgate_requests_2xx_total";
      help = codes "Total upstream 2xx responses.";
      kind = codes "counter";
      value = m.requests_2xx;
    }
    ∷ record {
      metric = codes "gemgate_requests_4xx_total";
      help = codes "Total upstream/client 4xx responses.";
      kind = codes "counter";
      value = m.requests_4xx;
    }
    ∷ record {
      metric = codes "gemgate_requests_5xx_total";
      help = codes "Total upstream/proxy 5xx responses.";
      kind = codes "counter";
      value = m.requests_5xx;
    }
    ∷ record {
      metric = codes "gemgate_inflight";
      help = codes "Current in-flight requests.";
      kind = codes "gauge";
      value = m.in_flight;
    }
    ∷ record {
      metric = codes "gemgate_bytes_in_total";
      help = codes "Request bytes received.";
      kind = codes "counter";
      value = m.bytes_in;
    }
    ∷ record {
      metric = codes "gemgate_bytes_out_total";
      help = codes "Response bytes sent.";
      kind = codes "counter";
      value = m.bytes_out;
    }
    ∷ record {
      metric = codes "gemgate_auth_failures_total";
      help = codes "Authentication failures.";
      kind = codes "counter";
      value = m.auth_failures;
    }
    ∷ record {
      metric = codes "gemgate_rate_limited_total";
      help = codes "Requests rejected by per-client rate limits.";
      kind = codes "counter";
      value = m.rate_limited;
    }
    ∷ record {
      metric = codes "gemgate_rate_limit_backend_errors_total";
      help = codes "Rate-limit backend operation errors.";
      kind = codes "counter";
      value = m.rate_limit_backend_errors;
    }
    ∷ record {
      metric = codes "gemgate_upstream_errors_total";
      help = codes "Upstream transport/proxy errors.";
      kind = codes "counter";
      value = m.upstream_errors;
    }
    ∷ []

abbrev pub provider_requests : Text
provider_requests = codes "gemgate_provider_requests_total"

abbrev pub provider_inflight : Text
provider_inflight = codes "gemgate_provider_inflight"

abbrev pub provider_transport_errors : Text
provider_transport_errors = codes "gemgate_provider_transport_errors_total"

abbrev pub provider_duration : Text
provider_duration = codes "gemgate_provider_request_duration_seconds"

abbrev pub provider_duration_sum : Text
provider_duration_sum = codes "gemgate_provider_request_duration_seconds_sum"

abbrev pub provider_duration_count : Text
provider_duration_count = codes "gemgate_provider_request_duration_seconds_count"

abbrev pub provider_failures : Text
provider_failures = codes "gemgate_provider_consecutive_failures"

abbrev pub circuit_state : Text
circuit_state = codes "gemgate_provider_circuit_state"

abbrev pub circuit_retry_after : Text
circuit_retry_after = codes "gemgate_provider_circuit_retry_after_seconds"

pub record Series : Type 0 where
  pub metric : Text
  pub help : Text
  pub kind : Text

abbrev pub provider_series : List Series
provider_series =
    record {
      metric = provider_requests;
      help = codes "Completed provider requests by response class.";
      kind = codes "counter";
    }
    ∷ record {
      metric = provider_inflight;
      help = codes "Current in-flight requests by provider.";
      kind = codes "gauge";
    }
    ∷ record {
      metric = provider_transport_errors;
      help = codes "Provider transport failures.";
      kind = codes "counter";
    }
    ∷ record {
      metric = provider_duration;
      help = codes "Provider request duration including streamed response body.";
      kind = codes "summary";
    }
    ∷ record {
      metric = provider_failures;
      help = codes "Consecutive provider transport/5xx failures.";
      kind = codes "gauge";
    }
    ∷ []

abbrev pub circuit_series : List Series
circuit_series =
    record {
      metric = circuit_state;
      help =
          codes "Current circuit-breaker state; exactly one state series per provider has value 1.";
      kind = codes "gauge";
    }
    ∷ record {
      metric = circuit_retry_after;
      help = codes "Remaining open interval before a half-open probe may be admitted.";
      kind = codes "gauge";
    }
    ∷ []
