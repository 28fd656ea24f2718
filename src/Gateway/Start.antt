-- ===== src/Gateway/Start.antt =====
-- internal/gateway/gateway.go: `New`, less the settings of net/http's server and transport.
use gem_gate.Prelude.{ℕ, ◌≡◌, ap, Option, List, [], Result, ok, err, arith}
use gem_gate.Text.{Text}
use gem_gate.Table.{find_name}
use gem_gate.Circuit.{new_circuit_breaker_with_policy}
use gem_gate.Config.{Config, Runtime}
use gem_gate.Config.Checks.{Url}
use gem_gate.Config.Load.{Platform, load}
use gem_gate.LogRing.{new_log_ring}
use gem_gate.Metrics.{new_metrics}
use gem_gate.RateLimit.{RateLimitBackend, RateLimitManager, retain_tokens}
use gem_gate.Gateway.{Gateway, RuntimeSnapshot}
use gem_gate.Gateway.Snapshot.{Building, BuildError, build_runtime_snapshot, breaker_for}
use gem_gate.Gateway.Snapshot.Built.{build_fields, snapshot_breakers}
use gem_gate.Gateway.Snapshot.Total.{load-builds}
use gem_gate.Gateway.Reload.{token_keys}
use gem_gate.Gateway.Proxy.Settled.{Quiet}

pub data StartError (F : Type 0) : Type 0 where
  no_rate_limits : F → StartError F
  no_snapshot : BuildError → StartError F

module _ {T P : Type 0} (parse_url : Text → Option Url) where
  built-Quiet :
      (rt : Runtime T P) (now : ℕ) (s : RuntimeSnapshot T P)
      → (build_runtime_snapshot parse_url rt [] now new_metrics).1 ≡ ok s
      → Quiet (build_runtime_snapshot parse_url rt [] now new_metrics).0.breakers
  unfolding breaker_for find_name new_circuit_breaker_with_policy
  built-Quiet rt now s made j =
      ground (arith, snapshot_breakers parse_url rt [] now new_metrics s j made)

module _ {S E T P F : Type 0} (parse_url : Text → Option Url) (backend : RateLimitBackend S E)
    (digest : Text → List ℕ) where
  started :
      Runtime T P
      → RateLimitManager S
      → Building × Result BuildError (RuntimeSnapshot T P)
      → Result (StartError F) (Gateway S T P)
  unfolding token_keys
  started rt limits (b, err e) = err (no_snapshot e)
  started rt limits (b, ok state) = ok (record {
    runtime = state;
    breakers = b.breakers;
    rate_limits = retain_tokens backend digest limits (token_keys state.access.tokens);
    metrics = b.metrics;
    logs = new_log_ring rt.config.logging.recent;
  })

  -- The second argument is the result of `newRateLimitManager`.
  unfoldable pub new_gateway :
      Runtime T P → Result F (RateLimitManager S) → ℕ → Result (StartError F) (Gateway S T P)
  unfolding started
  new_gateway rt (err e) now = err (no_rate_limits e)
  new_gateway rt (ok limits) now =
      started rt limits (build_runtime_snapshot parse_url rt [] now new_metrics)

  started-Quiet :
      (rt : Runtime T P) (limits : RateLimitManager S) (now : ℕ) (s : RuntimeSnapshot T P)
      → (build_runtime_snapshot parse_url rt [] now new_metrics).1 ≡ ok s
      → (g : Gateway S T P) × (new_gateway rt (ok limits) now ≡ ok g)
        × (g.runtime.cfg ≡ rt)
        × Quiet g.breakers
  unfolding new_gateway started
  started-Quiet rt limits now s made =
      let out = build_runtime_snapshot parse_url rt [] now new_metrics in
      (
        record {
          runtime = s;
          breakers = out.0.breakers;
          rate_limits = retain_tokens backend digest limits (token_keys s.access.tokens);
          metrics = out.0.metrics;
          logs = new_log_ring rt.config.logging.recent;
        },
        ap (λ r. started rt limits (out.0, r)) made,
        (build_fields parse_url rt [] now new_metrics s made).0,
        built-Quiet parse_url rt now s made,
      )

-- A gateway starts from every configuration that `Load` returns, once its rate limits are there: it
-- runs that configuration, and no breaker has a probe in flight.
pub new_gateway-Quiet :
    {S E A T P F : Type 0} (backend : RateLimitBackend S E) (digest : Text → List ℕ)
    (platform : Platform A P) (base_dir : Text) (decoded : Config T) (rt : Runtime T P)
    (limits : RateLimitManager S) (now : ℕ)
    → load platform base_dir decoded ≡ ok rt
    → (g : Gateway S T P) × (new_gateway {F = F} platform.parse_url backend digest rt
          (ok limits)
          now
        ≡ ok g)
      × (g.runtime.cfg ≡ rt)
      × Quiet g.breakers
new_gateway-Quiet backend digest platform base_dir decoded rt limits now h =
    let (s, made) = load-builds platform base_dir decoded rt [] now new_metrics h in
    started-Quiet platform.parse_url backend digest rt limits now s made
