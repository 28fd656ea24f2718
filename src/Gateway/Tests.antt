-- ===== src/Gateway/Tests.antt =====
-- The theorems about the gateway at a small one.
mod Reloads
use gem_gate.Gateway.Console.{Names}
use gem_gate.Upstream.{upstream_headers}
use gem_gate.Route.{resolve_provider, prepare_body}
use gem_gate.RateWindow
use gem_gate.Config.Load.{load}
use gem_gate.Config.Validation.Loops.{names}
use gem_gate.Gateway.Snapshot.{build_runtime_snapshot}
use gem_gate.Gateway.Snapshot.Total.{load-builds}
use gem_gate.Gateway.Snapshot.Built.{snapshot_breakers}
use gem_gate.Gateway.Reload.{DeepEqual, ReloadResult, rejected, listen_changed, reloaded, reload}
use gem_gate.Gateway.Reload.Atomic.{KeptBy, reload-KeptBy, InEffect}
use gem_gate.Access.{is_operational_path, authenticate, bearer_token, find_token}
use gem_gate.Cors
use gem_gate.Prelude.{
  arith, ℕ, ◌+◌, Bool, true, false, ◌&&◌, ◌||◌, ◌≡◌, ◌≢◌, refl, Option, some, ℤ, pos, List, [], ◌∷◌,
  map, leb, if◌then◌else◌, length, is_some, content_of, is_ok, value_of, ok,
}
use gem_gate.Text.{
  Text, codes, text_eq, is_empty, has_prefix, contains, trim_space, cut, equal_fold, cut_prefix,
  to_lower, trim_right, trim_prefix,
}
use gem_gate.Header.{Header, header_get, header_values, stored, canonical_key}
use gem_gate.Table.{find_name, assign}
use gem_gate.Circuit.{
  CircuitBreaker, CircuitPolicy, default_circuit_policy, new_circuit_breaker_with_policy,
}
use gem_gate.Circuit
use gem_gate.ClientIp.{NetIp}
use gem_gate.Config.{Config, Runtime}
use gem_gate.Config.Tests.{decoded, parse_url, platform, runtime, loads}
use gem_gate.LogRing.{new_log_ring}
use gem_gate.Provider.{auth_none, apply_headers, set_custom, authorized, lookup, normalize_type}
use gem_gate.Metrics.{Metrics, new_metrics}
use gem_gate.RateLimit.{
  Windows, memory_backend, manager_allow, memory_allow, decide_or_degrade, find_window,
}
use gem_gate.Gateway.{Gateway, RuntimeSnapshot, ProviderRuntime}
use gem_gate.Gateway.Proxy.{proxy}
use gem_gate.Gateway.World.{World, answer}
use gem_gate.Gateway.Streams.{Write, IncomingRequest, UpstreamRequest, end_of_file, more}
use gem_gate.Gateway.Replies.{Texts}
use gem_gate.Gateway.Fixtures.{provider, settings, gateway, a_write, world, texts, request}
use gem_gate.Access.{operations_authorized}
use gem_gate.Gateway.Replies.{Call, is_public}
use gem_gate.Gateway.Serve.{serve, application, serve_operations}
use gem_gate.Gateway.Serve.Accounting.{Counted, application-Counted}
use gem_gate.Gateway.Serve.Planes.{Local, serve_operations-Local, may_see, page_authorized}
use gem_gate.Gateway.Proxy.{proxy}
use gem_gate.Gateway.Streams.{copy_and_flush}
use gem_gate.Gateway.Proxy.Settled.{Quiet, proxy-Quiet}
use gem_gate.Gateway.Streams.Copying.{delivered, ends_well, copy_and_flush_complete}
use gem_gate.Gateway.Operations.{write_readiness}
use gem_gate.Gateway.Operations.Ready.{ready_admits}
use gem_gate.Gateway.Serve.Admission.{Admitted, serve-Admitted}
use gem_gate.Transport.{close_ok, start_exchange}

goes : is_some (serve world texts memory_backend (λ t. t) gateway [] request).sent ≡ true
unfolding serve Cors.handle text_eq is_operational_path authenticate bearer_token cut trim_space
    header_get header_values stored canonical_key equal_fold find_token manager_allow memory_allow
    decide_or_degrade RateWindow.allow RateWindow.prune find_window proxy resolve_provider
    cut_prefix prepare_body upstream_headers apply_headers set_custom authorized start_exchange
    Circuit.allow find_name new_circuit_breaker_with_policy
goes = refl

-- The request of the client `local` goes to its provider.
serve-Admitted_example :
    Admitted world texts memory_backend
      (λ t. t)
      gateway
      request
      (content_of (serve world texts memory_backend (λ t. t) gateway [] request).sent goes).0
serve-Admitted_example =
    serve-Admitted world texts memory_backend (λ t. t) gateway [] request
      (content_of (serve world texts memory_backend (λ t. t) gateway [] request).sent goes).0
      (content_of (serve world texts memory_backend (λ t. t) gateway [] request).sent goes).1

-- A request with a body that is one byte too long.
abbrev served : Call
served = record {
  request = record request {
    body = some (record { content = 1 ∷ []; fails = false });
    content_length = pos 9;
  };
  id = codes "id";
  client_ip = [];
  start = 10;
  duration = 20;
}

application-Counted_example :
    Counted gateway.metrics
      (application world texts memory_backend (λ t. t) gateway [] served).gateway.metrics
      (application world texts memory_backend (λ t. t) gateway [] served).reply.status
application-Counted_example =
    application-Counted world texts memory_backend (λ t. t) (λ u. refl) gateway [] served refl

still : Quiet gateway.breakers
unfolding find_name new_circuit_breaker_with_policy
still j = ground arith

proxy-Quiet_example :
    Quiet (proxy world gateway [] request (codes "local") (codes "id")).gateway.breakers
proxy-Quiet_example =
    proxy-Quiet world false refl gateway [] request (codes "local") (codes "id") still

serve_operations-Local_example :
    Local world texts memory_backend
      (λ t. t)
      gateway
      (serve_operations world texts memory_backend (λ t. t) gateway [] request)
serve_operations-Local_example =
    serve_operations-Local world texts memory_backend (λ t. t) gateway [] request

-- An operator asks for the configuration.
abbrev operator : IncomingRequest
operator = record request {
  method = codes "GET";
  path = codes "/_config";
  headers = (codes "Authorization", codes "Bearer ops" ∷ []) ∷ [];
}

page_authorized_example :
    may_see
      (operations_authorized gateway.runtime.access operator.headers)
      gateway.runtime.cfg.config.server.public_health
      operator.path
      (serve_operations world texts memory_backend (λ t. t) gateway [] operator).reply.content
    ≡ true
page_authorized_example = page_authorized world texts memory_backend (λ t. t) gateway [] operator

ready : (write_readiness gateway 5).0 ≡ 200
unfolding write_readiness text_eq find_name Circuit.snapshot new_circuit_breaker_with_policy
ready = refl

-- Short secrets look alike.
abbrev hide : Text → Text
hide t = if is_empty (trim_space t) then t else if leb (length t) 8 then codes "hidden" else t

abbrev console_names : Names
console_names = record {
  backend_name = codes "memory";
  backend_mode = codes "local";
  url_text = λ u. u.host;
  duration_text = λ d. [];
}
