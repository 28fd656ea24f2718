-- ===== src/Upstream.antt =====
-- internal/gateway/proxy.go: the headers of the request that `proxy` sends to a provider, and
-- internal/gateway/provider_metrics_transport.go: the trace context that the transport adds to them.
pub mod Secrecy
mod Tests
use gem_gate.Prelude.{List, [], ◌∷◌, if◌then◌else◌, Result}
use gem_gate.Text.{Text, codes, is_empty}
use gem_gate.Header.{Header, header_set}
use gem_gate.Forward.{copy_request_headers}
use gem_gate.Provider.{Spec, ApplyError, apply_headers}

-- The fields of `providerRuntime` that the headers are made of.
pub record ProviderIdentity : Type 0 where
  pub name : Text
  pub spec : Spec
  pub api_key : Text
  pub headers : List (Text × Text)

abbrev no_headers : Header
no_headers = []

set_client_ip : Header → Text → Header
set_client_ip h client_ip =
    if is_empty client_ip
    then h
    else header_set (header_set h (codes "X-Forwarded-For") client_ip) (codes "X-Real-IP") client_ip

set_gateway : Header → Text → Text → Text → Header
set_gateway h request_id client_name provider_name =
    header_set
      (header_set
        (header_set (header_set h (codes "X-Request-ID") request_id) (codes "X-GemGate-Client")
          client_name)
        (codes "X-GemGate-Provider") provider_name)
      (codes "Via") (codes "1.1 gemgate")

-- The headers of the caller's request, its address, its name, the request's id and the path of the
-- upstream URL.
unfoldable pub upstream_headers :
    ProviderIdentity → Header → Text → Text → Text → Text → Result ApplyError Header
unfolding set_gateway set_client_ip
upstream_headers p source client_ip client_name request_id path =
    apply_headers p.spec
      (set_gateway (set_client_ip (copy_request_headers no_headers source) client_ip) request_id
        client_name p.name)
      path p.api_key p.headers

-- `TraceContext.Inject` sets these headers, which are none where the transport does not propagate.
unfoldable pub inject : Header → List (Text × Text) → Header
inject h [] = h
inject h ((k, v) ∷ rest) = inject (header_set h k v) rest
