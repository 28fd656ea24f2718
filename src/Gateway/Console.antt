-- ===== src/Gateway/Console.antt =====
-- internal/gateway/gateway.go: `ConfigSnapshot`, by which the terminal interface sees the gateway.
-- `D` is what is told of the telemetry settings.
pub mod Redacted
use gem_gate.Prelude.{Bool, false, not, ℤ, Option, none, some, List, map}
use gem_gate.Text.{Text, is_empty}
use gem_gate.Config.{ProviderConfig, ClientConfig, CircuitBreakerRuntime}
use gem_gate.Config.Checks.{Url}
use gem_gate.Cors.{is_enabled}
use gem_gate.Provider.{Spec, lookup}
use gem_gate.Report.{redact}
use gem_gate.Gateway.{Gateway}
use gem_gate.Gateway.Snapshot.{circuit_policy_for}

pub record ClientSnapshot : Type 0 where
  pub name : Text
  pub enabled : Bool
  pub token : Text
  pub rate_limit_rpm : ℤ

pub record ProviderSnapshot : Type 0 where
  pub name : Text
  pub type : Text
  pub base_url : Text
  pub api_key : Text
  pub timeout : Text
  pub open_ai_compatible : Bool
  pub circuit_enabled : Bool
  pub circuit_failure_threshold : ℤ
  pub circuit_open_for : Text

pub record ConfigSnapshot (D : Type 0) : Type 0 where
  pub listen : Text
  pub public_health : Bool
  pub request_body_limit : Text
  pub trusted_proxies : List Text
  pub dedicated_operations_auth : Bool
  pub rate_limit_backend : Text
  pub rate_limit_mode : Text
  pub rate_limit_fail_open : Bool
  pub telemetry : D
  pub upstream_base_url : Text
  pub upstream_api_key : Text
  pub default_provider : Text
  pub providers : List ProviderSnapshot
  pub log_recent : ℤ
  pub clients : List ClientSnapshot
  pub cors_enabled : Bool
  pub cors_origins : List Text

-- The backend's name and mode, and how an URL and a duration are written.
pub record Names : Type 0 where
  pub backend_name : Text
  pub backend_mode : Text
  pub url_text : Url → Text
  pub duration_text : ℤ → Text

unfoldable pub client_snapshot : ClientConfig → ClientSnapshot
client_snapshot c = record {
  name = c.name;
  enabled = c.enabled;
  token = redact c.token;
  rate_limit_rpm = c.rate_limit_rpm;
}

-- `spec, _ := provider.Lookup(p.Type)`
abbrev compatible : Option Spec → Bool
compatible none = false
compatible (some spec) = spec.open_ai_compatible

unfoldable pub provider_snapshot :
    Names → List (Text × CircuitBreakerRuntime) → ProviderConfig → ProviderSnapshot
unfolding circuit_policy_for
provider_snapshot names circuits p =
    let policy = circuit_policy_for circuits p.name in
    record {
      name = p.name;
      type = p.type;
      base_url = p.base_url;
      api_key = redact p.api_key;
      timeout = p.timeout;
      open_ai_compatible = compatible (lookup p.type);
      circuit_enabled = policy.enabled;
      circuit_failure_threshold = policy.failure_threshold;
      circuit_open_for = names.duration_text policy.open_for;
    }

unfoldable pub config_snapshot :
    {S T P D : Type 0} → Names → (T → D) → Gateway S T P → ConfigSnapshot D
unfolding client_snapshot provider_snapshot
config_snapshot names told g =
    let state = g.runtime in
    let c = state.cfg.config in
    record {
      listen = c.server.listen;
      public_health = c.server.public_health;
      request_body_limit = c.server.request_body_limit;
      trusted_proxies = c.server.trusted_proxies;
      dedicated_operations_auth = not (is_empty state.access.operations_token);
      rate_limit_backend = names.backend_name;
      rate_limit_mode = names.backend_mode;
      rate_limit_fail_open = g.rate_limits.fail_open;
      telemetry = told c.telemetry;
      upstream_base_url = names.url_text state.default_provider.base_url;
      upstream_api_key = redact state.default_provider.identity.api_key;
      default_provider = c.default_provider;
      providers = map (provider_snapshot names state.cfg.provider_circuits) c.providers;
      log_recent = c.logging.recent;
      clients = map client_snapshot c.clients;
      cors_enabled = is_enabled c.server.cors.enabled;
      cors_origins = c.server.cors.allowed_origins;
    }
