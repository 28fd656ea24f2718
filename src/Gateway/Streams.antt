-- ===== src/Gateway/Streams.antt =====
-- internal/gateway/http_helpers.go: `copyAndFlush`, and the requests that `proxy` of
-- internal/gateway/proxy.go takes and makes.
pub mod Copying
use gem_gate.Prelude.{
  ℕ, zero, suc, ◌+◌, ◌-◌, ◌==◌, Bool, true, false, not, ◌&&◌, Option, none, some, ℤ, pos, negsuc,
  List, [], ◌∷◌, ◌++◌, if◌then◌else◌, Result, ok, err,
}
use gem_gate.Text.{Text, codes, text_eq, trim_prefix}
use gem_gate.Header.{Header}
use gem_gate.Table.{find_name, assign}
use gem_gate.ClientIp.{NetIp, resolve_client_ip}
use gem_gate.Circuit.{
  CircuitBreaker, CircuitPermit, default_circuit_policy, new_circuit_breaker_with_policy,
}
use gem_gate.Config.Checks.{Url}
use gem_gate.Forward.{copy_response_headers}
use gem_gate.Metrics.{Metrics, u64}
use gem_gate.Provider.{ApplyError}
use gem_gate.Route.{
  RouteError, route_status, resolve_provider, single_joining_slash, Stream, BodyError,
  body_too_large, read_failed, prepare_body,
}
use gem_gate.Transport.{
  ProviderTransport, Response, Start, refused, started, start_exchange, end_exchange,
  request_failed, Body, BodyCall, read_more, read_eof, read_error, call_all,
}
use gem_gate.Upstream.{upstream_headers}
use gem_gate.Gateway.{Gateway, RuntimeSnapshot, ProviderRuntime}

pub record IncomingRequest : Type 0 where
  pub method : Text
  pub path : Text
  pub raw_query : Text
  pub request_uri : Text
  pub remote_addr : Text
  pub headers : Header
  pub body : Option Stream
  pub content_length : ℤ

pub record UpstreamRequest : Type 0 where
  pub method : Text
  pub url : Url
  pub headers : Header
  pub body : Option Stream
  pub content_length : ℤ

-- The write of the `size` bytes that a read delivers: how many are written, and the error, with
-- whether it is `context.Canceled`. `aborted` and `at` are `downstreamRequestAborted` and the time
-- at the read.
pub record Write : Type 0 where
  pub size : ℕ
  pub wrote : ℕ
  pub failed : Option Bool
  pub aborted : Bool
  pub at : ℕ

-- The reads of a body: without an error, with EOF, or with an error, which may be `context.Canceled`.
pub data Reading : Type 0 where
  more : Write → Reading → Reading
  end_of_file : Write → Reading
  read_failure : Write → Bool → Reading

pub data CopyError : Type 0 where
  write_failed : Bool → CopyError
  short_write : CopyError
  stream_failed : Bool → CopyError

-- The bytes written so far, and the error.
after_write : ℕ → Write → ℕ × Option CopyError
after_write written w = if w.size == 0 then (written, none) else (
  written + w.wrote,
  elim w.failed [
    | some canceled ↦ some (write_failed canceled)
    | none ↦ if not (w.wrote == w.size) then some short_write else none
  ],
)

unfoldable pub copy_and_flush : ℕ → Reading → ℕ × Option CopyError
unfolding after_write
copy_and_flush written (more w rest) =
    let (n, error) = after_write written w in
    let further = copy_and_flush n rest in elim error [ none ↦ further | some e ↦ (n, some e) ]
copy_and_flush written (end_of_file w) = after_write written w
copy_and_flush written (read_failure w canceled) =
    let (n, error) = after_write written w in
    elim error [ none ↦ (n, some (stream_failed canceled)) | some e ↦ (n, some e) ]

-- The reads that `copyAndFlush` makes of the body.
unfoldable pub reads_made : Reading → List (BodyCall × Bool × ℕ)
unfolding after_write
reads_made (more w rest) =
    let further = reads_made rest in
    (read_more, w.aborted, w.at) ∷ elim (after_write 0 w).1 [ none ↦ further | some e ↦ [] ]
reads_made (end_of_file w) = (read_eof, w.aborted, w.at) ∷ []
reads_made (read_failure w canceled) = (read_error, w.aborted, w.at) ∷ []
