-- ===== src/Transport.antt =====
-- internal/gateway/provider_metrics_transport.go: the transport of one provider, around the
-- exchange that net/http makes, and internal/gateway/request_context.go. Tracing is left out.
pub mod Endings
pub mod RetryHint
mod Tests
use gem_gate.Prelude.{
  ℕ, ◌+◌, ◌-◌, ◌/◌, Bool, true, false, not, ◌&&◌, ◌||◌, Option, none, some, List, [], ◌∷◌, leb, ltb,
  if◌then◌else◌, length,
}
use gem_gate.Text.{Text, codes}
use gem_gate.Header.{Header, header_set}
use gem_gate.Circuit.{CircuitBreaker, CircuitPermit, second}
use gem_gate.Circuit
use gem_gate.Metrics.{Metrics, provider_begin, provider_finish}

-- The breaker and the metrics are shared by the copies of the transport's pointer: they are its
-- state.
pub record ProviderTransport : Type 0 where
  pub provider : Text
  pub breaker : CircuitBreaker
  pub metrics : Metrics

pub record Response : Type 0 where
  pub status : ℕ
  pub headers : Header
  pub body : Text
  pub content_length : ℕ

-- The delay in whole seconds, rounded up, and one at least.
unfoldable pub retry_seconds : ℕ → ℕ
retry_seconds retry_after =
    let seconds = (retry_after + second - 1) / second in if ltb seconds 1 then 1 else seconds

abbrev circuit_open_body : Text
circuit_open_body = codes "{\"error\":\"provider circuit open\"}"

abbrev no_headers : Header
no_headers = []

-- The response that the transport makes itself; `strconv.Itoa` is the first argument.
unfoldable pub refusal : (ℕ → Text) → ℕ → Response
refusal itoa retry_after = record {
  status = 503;
  headers =
      header_set
        (header_set (header_set no_headers (codes "Content-Type") (codes "application/json"))
          (codes "Retry-After") (itoa (retry_seconds retry_after)))
        (codes "X-GemGate-Circuit") (codes "open");
  body = circuit_open_body;
  content_length = length circuit_open_body;
}

pub data Start : Type 0 where
  refused : Response → Start
  started : CircuitPermit → Start

-- `RoundTrip` up to the exchange: the breaker's answer, and the start in the metrics.
unfoldable pub start_exchange : (ℕ → Text) → ProviderTransport → ℕ → ProviderTransport × Start
start_exchange itoa t now =
    let (breaker, admission) = Circuit.allow t.breaker now in
    if not admission.allowed
    then (record t { breaker = breaker }, refused (refusal itoa admission.retry_after))
    else (
      record t { breaker = breaker; metrics = provider_begin t.metrics t.provider },
      started admission.permit,
    )

-- How an exchange ends: with an error, with a response that has no body, or with the end of the
-- body, which may be an error. `aborted` is `downstreamRequestAborted` at that time.
pub data Ending : Type 0 where
  request_failed : Bool → Ending
  without_body : ℕ → Ending
  body_ended : ℕ → Bool → Bool → Ending

abbrev pub finish_with :
    ProviderTransport → CircuitPermit → ℕ → Bool → Bool → ℕ → ℕ → ProviderTransport
finish_with t permit status transport_error failed duration now = record t {
  metrics = provider_finish t.metrics t.provider status duration transport_error now;
  breaker = Circuit.finish t.breaker permit failed now;
}

unfoldable pub end_exchange : ProviderTransport → CircuitPermit → Ending → ℕ → ℕ → ProviderTransport
end_exchange t permit (request_failed aborted) duration now =
    let provider_failure = not aborted in
    finish_with t permit 0 provider_failure provider_failure duration now
end_exchange t permit (without_body status) duration now =
    finish_with t permit status false (leb 500 status) duration now
end_exchange t permit (body_ended status body_error aborted) duration now =
    let transport_error = body_error && not aborted in
    finish_with t permit status transport_error (transport_error || leb 500 status) duration now

-- The calls of a body's methods, with what the wrapped body answers.
pub data BodyCall : Type 0 where
  read_more read_eof read_error close_ok close_error : BodyCall

-- What the method hands to `finish`: nothing, or whether there is an error.
abbrev pub finish_argument : BodyCall → Option Bool
finish_argument read_more = none
finish_argument read_eof = some false
finish_argument read_error = some true
finish_argument close_ok = some false
finish_argument close_error = some true

-- The transport and `once` of a body, and a call at a time; `aborted` may change between calls.
pub record Body : Type 0 where
  pub transport : ProviderTransport
  pub done : Bool

module _ (permit : CircuitPermit) (status begun_at : ℕ) where
  finish_body : Body → Option Bool → Bool → ℕ → Body
  finish_body b none aborted now = b
  finish_body b (some body_error) aborted now = if b.done then b else record {
    transport =
        end_exchange b.transport permit (body_ended status body_error aborted) (now - begun_at) now;
    done = true;
  }

  unfoldable pub call_body : Body → BodyCall → Bool → ℕ → Body
  unfolding finish_body
  call_body b call aborted now = finish_body b (finish_argument call) aborted now

  unfoldable pub call_all : Body → List (BodyCall × Bool × ℕ) → Body
  call_all b [] = b
  call_all b ((call, aborted, now) ∷ calls) = call_all (call_body b call aborted now) calls
