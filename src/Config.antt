-- ===== src/Config.antt =====
-- internal/config/config.go: the configuration file's data, and the settings that the gateway runs
-- with. The telemetry settings are a parameter, of which this package only checks the form. A
-- duration that may be negative is an integer of nanoseconds.
pub mod Defaults
pub mod Secrets
pub mod Numbers
pub mod Proxies
pub mod Checks
pub mod Validation
pub mod Load
pub mod Accepted
pub mod Completed
pub mod Tests
use gem_gate.Prelude.{ℕ, Bool, true, Option, none, some, ℤ, pos, List, ◌*◌}
use gem_gate.Text.{Text, codes}
use gem_gate.Cors.{CorsConfig}

pub record CircuitBreakerConfig : Type 0 where
  pub enabled : Option Bool
  pub failure_threshold : ℤ
  pub open_for : Text

-- `CircuitBreakerConfig.IsEnabled`
abbrev pub breaker_enabled : CircuitBreakerConfig → Bool
breaker_enabled c = elim c.enabled [ none ↦ true | some b ↦ b ]

pub record CircuitBreakerRuntime : Type 0 where
  pub enabled : Bool
  pub failure_threshold : ℤ
  pub open_for : ℤ

pub record OperationsConfig : Type 0 where
  pub token : Text
  pub token_file : Text

pub record RedisRateLimitConfig : Type 0 where
  pub url : Text
  pub url_file : Text
  pub key_prefix : Text
  pub timeout : Text
  pub fail_open : Bool

pub record RateLimitConfig : Type 0 where
  pub backend : Text
  pub redis : RedisRateLimitConfig

pub record UpstreamConfig : Type 0 where
  pub base_url : Text
  pub api_key : Text
  pub api_key_file : Text
  pub timeout : Text

pub record ProviderConfig : Type 0 where
  pub name : Text
  pub type : Text
  pub base_url : Text
  pub api_key : Text
  pub api_key_file : Text
  pub timeout : Text
  pub headers : List (Text × Text)
  pub circuit_breaker : CircuitBreakerConfig

pub record ClientConfig : Type 0 where
  pub name : Text
  pub token : Text
  pub token_file : Text
  pub enabled : Bool
  pub rate_limit_rpm : ℤ

pub record LoggingConfig : Type 0 where
  pub recent : ℤ
  pub log_body : Bool
  pub log_headers : Bool

pub record ServerConfig : Type 0 where
  pub listen : Text
  pub read_timeout : Text
  pub write_timeout : Text
  pub idle_timeout : Text
  pub public_health : Bool
  pub request_body_limit : Text
  pub trusted_proxies : List Text
  pub cors : CorsConfig

-- `T` is the type of the telemetry settings.
pub record Config (T : Type 0) : Type 0 where
  pub server : ServerConfig
  pub upstream : UpstreamConfig
  pub providers : List ProviderConfig
  pub default_provider : Text
  pub operations : OperationsConfig
  pub clients : List ClientConfig
  pub rate_limit : RateLimitConfig
  pub telemetry : T
  pub logging : LoggingConfig

-- `P` is the type of address prefixes.
pub record Runtime (T P : Type 0) : Type 0 where
  pub config : Config T
  pub read_timeout : ℤ
  pub write_timeout : ℤ
  pub idle_timeout : ℤ
  pub upstream_timeout : ℤ
  pub provider_timeouts : List (Text × ℤ)
  pub provider_circuits : List (Text × CircuitBreakerRuntime)
  pub trusted_proxies : List P
  pub request_body_limit : ℤ
  pub cors_max_age : ℤ
  pub rate_limit_timeout : ℤ

abbrev pub default_circuit_failure_threshold : ℤ
default_circuit_failure_threshold = pos 5

abbrev pub default_circuit_open_for : ℤ
default_circuit_open_for = pos (30 * 1000000000)

abbrev pub default_rate_limit_backend : Text
default_rate_limit_backend = codes "memory"

abbrev pub default_redis_rate_limit_prefix : Text
default_redis_rate_limit_prefix = codes "gemgate:ratelimit:"
