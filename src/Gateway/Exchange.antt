-- ===== src/Gateway/Exchange.antt =====
-- internal/gateway/proxy.go: the request that `proxy` sends, and what it counts and returns.
use gem_gate.Prelude.{
  ℕ, suc, ◌+◌, ◌==◌, Bool, false, not, Option, none, some, ℤ, pos, List, if◌then◌else◌, Result, ok,
  err,
}
use gem_gate.Text.{Text, codes, trim_prefix}
use gem_gate.Header.{Header}
use gem_gate.Table.{find_name}
use gem_gate.ClientIp.{resolve_client_ip}
use gem_gate.Circuit.{CircuitBreaker, default_circuit_policy, new_circuit_breaker_with_policy}
use gem_gate.Metrics.{Metrics, u64}
use gem_gate.Provider.{ApplyError}
use gem_gate.Route.{
  RouteError, single_joining_slash, Stream, BodyError, body_too_large, read_failed,
}
use gem_gate.Transport.{Response}
use gem_gate.Upstream.{upstream_headers, inject}
use gem_gate.Gateway.Streams.{
  IncomingRequest, UpstreamRequest, Write, Reading, more, end_of_file, CopyError, write_failed,
  short_write, stream_failed,
}
use gem_gate.Gateway.World.{World}
use gem_gate.Gateway.{Gateway, RuntimeSnapshot, ProviderRuntime}

pub record ProxyResult : Type 0 where
  pub status : ℕ
  pub bytes_out : ℕ
  pub response_started : Bool
  pub provider : Text

pub data ProxyError : Type 0 where
  bad_route : RouteError → ProxyError
  bad_body : BodyError → ProxyError
  bad_request : ProxyError
  bad_auth : ApplyError → ProxyError
  provider_failed canceled : ProxyError
  bad_stream : CopyError → ProxyError

abbrev pub is_canceled : CopyError → Bool
is_canceled (write_failed c) = c
is_canceled short_write = false
is_canceled (stream_failed c) = c

abbrev pub body_status : BodyError → ℕ
body_status body_too_large = 413
body_status read_failed = 400

-- The error of `proxy` after the copy.
unfoldable pub copy_outcome : Bool → Option CopyError → Option ProxyError
copy_outcome gone none = if gone then some canceled else none
copy_outcome gone (some e) =
    if gone
    then some canceled
    else if not (is_canceled e)
    then some (bad_stream e)
    else some canceled

-- What a request leaves: the gateway, what goes to the provider, and the result with the headers of
-- the response.
pub record Passed (S T P : Type 0) : Type 0 where
  pub gateway : Gateway S T P
  pub sent : Option UpstreamRequest
  pub result : ProxyResult
  pub error : Option ProxyError
  pub headers : Header

unfoldable pub count_in : Metrics → ℤ → Metrics
count_in m (pos (suc n)) = record m { bytes_in = u64 (m.bytes_in + suc n) }
count_in m _ = m

unfoldable pub count_out : Metrics → ℕ → Metrics
count_out m n = if n == 0 then m else record m { bytes_out = u64 (m.bytes_out + n) }

-- The breaker that the transport of a provider has.
abbrev pub breaker_of : List (Text × CircuitBreaker) → Text → CircuitBreaker
breaker_of breakers name = elim (find_name breakers name) [
  | none ↦ new_circuit_breaker_with_policy default_circuit_policy
  | some b ↦ b
]

abbrev pub begun : ProviderRuntime → ProxyResult
begun p = record { status = 0; bytes_out = 0; response_started = false; provider = p.identity.name }

-- The body of a refusal, which is not the provider's: one write, and the end.
abbrev pub refusal_reading : Write → Response → Reading
refusal_reading w r =
    more (record w { size = r.content_length }) (end_of_file (record w { size = 0 }))

module _ {A P T : Type 0} (world : World A P) where
  -- The request that goes to the provider, with its body and length.
  unfoldable pub build_request :
      RuntimeSnapshot T P
      → IncomingRequest
      → Text
      → Text
      → ProviderRuntime
      → Text
      → Option Stream × ℤ
      → Result ProxyError UpstreamRequest
  build_request state r client_name request_id p target body =
      let path = single_joining_slash p.base_url.path (trim_prefix target (codes "/")) in
      let url = record p.base_url { path = path; raw_query = r.raw_query } in
      let client_ip =
        resolve_client_ip world.net state.cfg.trusted_proxies r.remote_addr r.headers in
      if not (world.request_valid r.method url)
      then err bad_request
      else elim (upstream_headers p.identity r.headers client_ip client_name request_id path) [
        | err e ↦ err (bad_auth e)
        | ok headers ↦ ok (record {
          method = r.method;
          url = url;
          headers = headers;
          body = body.0;
          content_length = body.1;
        })
      ]

-- The request as the transport sends it on, with the trace context.
abbrev pub traced : {A P : Type 0} → World A P → UpstreamRequest → UpstreamRequest
traced world u = record u { headers = inject u.headers world.trace_context }
