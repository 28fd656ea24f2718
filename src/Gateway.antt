-- ===== src/Gateway.antt =====
-- internal/gateway/gateway.go: the gateway's state. The providers of the current runtime snapshot are
-- immutable; their breakers, which the code shares through pointers, are a store of their own, by
-- the provider's name.
pub mod Snapshot
pub mod Reload
pub mod Streams
pub mod World
pub mod Exchange
pub mod Proxy
pub mod Replies
pub mod Settling
pub mod Serve
pub mod Start
pub mod Operations
pub mod Console
pub mod Fixtures
mod Tests
use gem_gate.Prelude.{ℤ, List}
use gem_gate.Text.{Text}
use gem_gate.Access.{AccessState}
use gem_gate.Circuit.{CircuitBreaker}
use gem_gate.Config.{Runtime}
use gem_gate.Config.Checks.{Url}
use gem_gate.Cors.{CorsHandler}
use gem_gate.LogRing.{LogRing}
use gem_gate.Metrics.{Metrics}
use gem_gate.RateLimit.{RateLimitManager}
use gem_gate.Upstream.{ProviderIdentity}

pub record ProviderRuntime : Type 0 where
  pub identity : ProviderIdentity
  pub base_url : Url
  pub timeout : ℤ

pub record RuntimeSnapshot (T P : Type 0) : Type 0 where
  pub cfg : Runtime T P
  pub providers : List (Text × ProviderRuntime)
  pub default_provider : ProviderRuntime
  pub access : AccessState
  pub cors : CorsHandler

pub record Gateway (S T P : Type 0) : Type 0 where
  pub runtime : RuntimeSnapshot T P
  pub breakers : List (Text × CircuitBreaker)
  pub rate_limits : RateLimitManager S
  pub metrics : Metrics
  pub logs : LogRing
