-- ===== src/Gateway/Operations.antt =====
-- internal/gateway/health.go and readiness.go, with `circuitSnapshots` of circuitbreaker.go and
-- `activeProviderMetrics` and `safeConfig` of proxy.go. A page is the data that the code encodes as
-- JSON, less the times and the constants.
pub mod Ready
pub mod Secrecy
use gem_gate.Prelude.{
  ℕ, ◌+◌, ◌/◌, Bool, true, false, not, ◌&&◌, ◌||◌, Option, none, some, ℤ, List, [], ◌∷◌, map,
  if◌then◌else◌, ltb,
}
use gem_gate.Text.{Text, codes, text_eq, is_empty, trim_space}
use gem_gate.Table.{find_name}
use gem_gate.Circuit.{
  CircuitBreaker, CircuitPolicy, CircuitSnapshot, SnapshotState, disabled, in_state, circuit_open,
  circuit_half_open, circuit_closed,
}
use gem_gate.Circuit
use gem_gate.Config.{Config, Runtime, ProviderConfig, ClientConfig, CircuitBreakerRuntime}
use gem_gate.Cors.{CorsConfig, is_enabled}
use gem_gate.Metrics.{ProviderMetrics, Health, unknown, provider_health}
use gem_gate.Report.{redact}
use gem_gate.Gateway.{Gateway, RuntimeSnapshot, ProviderRuntime}
use gem_gate.Gateway.Exchange.{breaker_of}
use gem_gate.Gateway.Snapshot.{circuit_policy_for}

-- The metrics of the providers that the snapshot has.
unfoldable pub active_provider_metrics :
    List (Text × ProviderMetrics) → List (Text × ProviderRuntime) → List (Text × ProviderMetrics)
active_provider_metrics [] providers = []
active_provider_metrics ((name, m) ∷ all) providers =
    let rest = active_provider_metrics all providers in
    elim (find_name providers name) [ none ↦ rest | some p ↦ (name, m) ∷ rest ]

unfoldable pub provider_health_snapshot : List (Text × ProviderMetrics) → List (Text × Health)
provider_health_snapshot [] = []
provider_health_snapshot ((name, m) ∷ all) =
    (name, provider_health m) ∷ provider_health_snapshot all

unfoldable pub circuit_snapshots :
    List (Text × CircuitBreaker) → List (Text × ProviderRuntime) → ℕ → List (Text × CircuitSnapshot)
circuit_snapshots breakers [] now = []
circuit_snapshots breakers ((name, p) ∷ providers) now =
    (name, Circuit.snapshot (breaker_of breakers name) now)
    ∷ circuit_snapshots breakers providers now

pub record ReadinessProvider : Type 0 where
  pub health : Health
  pub circuit : SnapshotState
  pub retry_after_ms : ℕ

-- The snapshot of a provider that has none is the zero value with a closed circuit.
abbrev or_closed : Option CircuitSnapshot → CircuitSnapshot
or_closed none = record { state = in_state circuit_closed; failures = 0; retry_after = 0 }
or_closed (some c) = c

abbrev or_unknown : Option Health → Health
or_unknown none = unknown
or_unknown (some h) = h

abbrev pub refuses : SnapshotState → Bool
refuses (in_state circuit_open) = true
refuses (in_state circuit_half_open) = true
refuses _ = false

-- `Round(time.Millisecond).Milliseconds()` of nanoseconds.
abbrev pub milliseconds : ℕ → ℕ
milliseconds d = (d + 500000) / 1000000

unfoldable pub readiness_entry :
    List (Text × Health) → List (Text × CircuitSnapshot) → Text → ReadinessProvider
readiness_entry health circuits name =
    let circuit = or_closed (find_name circuits name) in
    record {
      health = or_unknown (find_name health name);
      circuit = circuit.state;
      retry_after_ms = if ltb 0 circuit.retry_after then milliseconds circuit.retry_after else 0;
    }

-- The loop over the providers: the entries, and `ready`.
unfoldable pub readiness_loop :
    List (Text × Health)
    → List (Text × CircuitSnapshot)
    → Text
    → List (Text × ProviderRuntime)
    → List (Text × ReadinessProvider) × Bool
unfolding readiness_entry
readiness_loop health circuits default [] = ([], true)
readiness_loop health circuits default ((name, p) ∷ providers) =
    let (entries, ready) = readiness_loop health circuits default providers in
    let entry = readiness_entry health circuits name in
    (
      (name, entry) ∷ entries,
      if text_eq name default && refuses entry.circuit then false else ready,
    )

pub record Readiness : Type 0 where
  pub ready : Bool
  pub default_provider : Text
  pub providers : List (Text × ReadinessProvider)

pub record SafeClient : Type 0 where
  pub name : Text
  pub enabled : Bool
  pub token : Text
  pub rate_limit_rpm : ℤ

pub record SafeProvider : Type 0 where
  pub name : Text
  pub type : Text
  pub base_url : Text
  pub api_key : Text
  pub timeout : Text
  pub circuit_breaker : CircuitPolicy

pub record SafeCors : Type 0 where
  pub enabled : Bool
  pub allowed_origins : List Text
  pub allowed_methods : List Text
  pub allowed_headers : List Text
  pub allow_credentials : Bool
  pub max_age : Text

pub record SafeRateLimit : Type 0 where
  pub backend : Text
  pub fail_open : Bool
  pub configured : Bool
  pub mode : Text
  pub key_prefix : Text
  pub timeout : Text

-- The page of `/_config`; `V` is what is told of the telemetry settings.
pub record SafeConfig (V : Type 0) : Type 0 where
  pub listen : Text
  pub public_health : Bool
  pub request_body_limit : Text
  pub trusted_proxies : List Text
  pub cors : SafeCors
  pub dedicated_auth : Bool
  pub rate_limit : SafeRateLimit
  pub telemetry : V
  pub default_provider : Text
  pub providers : List SafeProvider
  pub clients : List SafeClient

unfoldable pub safe_client : ClientConfig → SafeClient
safe_client c = record {
  name = c.name;
  enabled = c.enabled;
  token = redact c.token;
  rate_limit_rpm = c.rate_limit_rpm;
}

module _ {S P T : Type 0} where
  unfoldable pub write_health : Gateway S T P → List (Text × Health)
  unfolding active_provider_metrics provider_health_snapshot
  write_health g =
      provider_health_snapshot (active_provider_metrics g.metrics.providers g.runtime.providers)

  unfoldable pub write_readiness : Gateway S T P → ℕ → ℕ × Readiness
  unfolding readiness_loop circuit_snapshots active_provider_metrics provider_health_snapshot
  write_readiness g now =
      let health =
        provider_health_snapshot
          (active_provider_metrics g.metrics.providers g.runtime.providers) in
      let circuits = circuit_snapshots g.breakers g.runtime.providers now in
      let (entries, ready) =
        readiness_loop health circuits g.runtime.cfg.config.default_provider g.runtime.providers in
      (
        if not ready then 503 else 200,
        record {
          ready = ready;
          default_provider = g.runtime.cfg.config.default_provider;
          providers = entries;
        },
      )

-- `redisRateLimitMode`; `master_name` is that parameter of a URL that can be parsed.
unfoldable pub redis_rate_limit_mode : (Text → Option Text) → Text → Text
redis_rate_limit_mode master_name url = elim (master_name url) [
  | none ↦ codes "invalid"
  | some name ↦ if not (is_empty name) then codes "sentinel" else codes "standalone"
]

unfoldable pub safe_provider : List (Text × CircuitBreakerRuntime) → ProviderConfig → SafeProvider
unfolding circuit_policy_for
safe_provider circuits p = record {
  name = p.name;
  type = p.type;
  base_url = p.base_url;
  api_key = redact p.api_key;
  timeout = p.timeout;
  circuit_breaker = circuit_policy_for circuits p.name;
}

module _ {P T V : Type 0} where
  -- `told` is what is told of the telemetry settings.
  unfoldable pub safe_config : (Text → Option Text) → (T → V) → RuntimeSnapshot T P → SafeConfig V
  unfolding safe_client safe_provider redis_rate_limit_mode
  safe_config master_name told s =
      let c = s.cfg.config in
      let configured = not (is_empty (trim_space c.rate_limit.redis.url)) in
      record {
        listen = c.server.listen;
        public_health = c.server.public_health;
        request_body_limit = c.server.request_body_limit;
        trusted_proxies = c.server.trusted_proxies;
        cors = record {
          enabled = is_enabled c.server.cors.enabled;
          allowed_origins = c.server.cors.allowed_origins;
          allowed_methods = c.server.cors.allowed_methods;
          allowed_headers = c.server.cors.allowed_headers;
          allow_credentials = c.server.cors.allow_credentials;
          max_age = c.server.cors.max_age;
        };
        dedicated_auth = not (is_empty s.access.operations_token);
        rate_limit = record {
          backend = c.rate_limit.backend;
          fail_open = c.rate_limit.redis.fail_open;
          configured = configured;
          mode =
              if text_eq c.rate_limit.backend (codes "redis") && configured
              then redis_rate_limit_mode master_name c.rate_limit.redis.url
              else [];
          key_prefix = c.rate_limit.redis.key_prefix;
          timeout = c.rate_limit.redis.timeout;
        };
        telemetry = told c.telemetry;
        default_provider = c.default_provider;
        providers = map (safe_provider s.cfg.provider_circuits) c.providers;
        clients = map safe_client c.clients;
      }
