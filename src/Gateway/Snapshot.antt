-- ===== src/Gateway/Snapshot.antt =====
-- internal/gateway/runtime.go: `buildRuntimeSnapshot` and `circuitPolicyFor`.
pub mod Breakers
pub mod Built
pub mod Tokens
pub mod Total
use gem_gate.Prelude.{
  ℕ, Bool, true, false, ◌||◌, Option, none, some, ℤ, pos, List, [], ◌∷◌, if◌then◌else◌, Result, ok,
  err, is_positive,
}
use gem_gate.Text.{Text, is_empty, trim_right}
use gem_gate.Table.{find_name, assign}
use gem_gate.Access.{ClientAuth}
use gem_gate.Circuit.{
  CircuitBreaker, CircuitPolicy, default_circuit_policy, new_circuit_breaker_with_policy,
  clone_with_policy, default_circuit_failure_threshold, default_circuit_open_for,
}
use gem_gate.Config.{Runtime, ProviderConfig, ClientConfig, CircuitBreakerRuntime}
use gem_gate.Config.Checks.{Url}
use gem_gate.Cors.{new_cors_policy}
use gem_gate.Metrics.{Metrics, update_provider}
use gem_gate.Provider.{Spec, lookup}
use gem_gate.Gateway.{ProviderRuntime, RuntimeSnapshot}

pub data BuildError : Type 0 where
  unsupported_provider_type bad_provider_url missing_default_provider : Text → BuildError

abbrev policy_of : Option CircuitBreakerRuntime → CircuitPolicy
policy_of none = default_circuit_policy
policy_of (some c) = record {
  enabled = c.enabled;
  failure_threshold =
      if is_positive c.failure_threshold
      then c.failure_threshold
      else pos default_circuit_failure_threshold;
  open_for = if is_positive c.open_for then c.open_for else pos default_circuit_open_for;
}

unfoldable pub circuit_policy_for : List (Text × CircuitBreakerRuntime) → Text → CircuitPolicy
circuit_policy_for circuits name = policy_of (find_name circuits name)

-- The breaker of a provider: a new one, or a copy of the one that it had.
unfoldable pub breaker_for :
    List (Text × CircuitBreaker) → Text → CircuitPolicy → ℕ → CircuitBreaker
breaker_for previous name policy now = elim (find_name previous name) [
  | none ↦ new_circuit_breaker_with_policy policy
  | some old ↦ clone_with_policy (some old) policy now
]

-- The tokens of the enabled clients.
unfoldable pub add_tokens : List (Text × ClientAuth) → List ClientConfig → List (Text × ClientAuth)
add_tokens tokens [] = tokens
add_tokens tokens (c ∷ cs) =
    add_tokens
      (if c.enabled
        then assign tokens c.token (record { name = c.name; rate_limit_rpm = c.rate_limit_rpm })
        else tokens)
      cs

abbrev usable : Option Url → Option Url
usable none = none
usable (some u) = if is_empty u.scheme || is_empty u.host then none else some u

-- What the loop over the providers builds; the metrics get an entry for each.
pub record Building : Type 0 where
  pub metrics : Metrics
  pub providers : List (Text × ProviderRuntime)
  pub breakers : List (Text × CircuitBreaker)

abbrev pub duration_or_zero : Option ℤ → ℤ
duration_or_zero none = pos 0
duration_or_zero (some d) = d

module _ {T P : Type 0} (parse_url : Text → Option Url) (rt : Runtime T P)
    (previous : List (Text × CircuitBreaker)) (now : ℕ) where
  added : Building → ProviderConfig → Spec → Url → Building
  unfolding circuit_policy_for breaker_for
  added b p spec u = record {
    metrics = record b.metrics { providers = update_provider b.metrics.providers p.name (λ m. m) };
    providers = assign b.providers p.name (record {
      identity = record { name = p.name; spec = spec; api_key = p.api_key; headers = p.headers };
      base_url = u;
      timeout = duration_or_zero (find_name rt.provider_timeouts p.name);
    });
    breakers =
        assign b.breakers p.name
          (breaker_for previous p.name (circuit_policy_for rt.provider_circuits p.name) now);
  }

  -- The second component is the error at which the loop stopped.
  unfoldable pub build_providers : Building → List ProviderConfig → Building × Option BuildError
  unfolding added
  build_providers b [] = (b, none)
  build_providers b (p ∷ ps) = elim (lookup p.type) [
    | none ↦ (b, some (unsupported_provider_type p.name))
    | some spec ↦ elim (usable (parse_url (trim_right p.base_url b'/'))) [
      | none ↦ (b, some (bad_provider_url p.name))
      | some u ↦ build_providers (added b p spec u) ps
    ]
  ]

  snapshot_of : Building → ProviderRuntime → RuntimeSnapshot T P
  unfolding add_tokens
  snapshot_of b default = record {
    cfg = rt;
    providers = b.providers;
    default_provider = default;
    access = record {
      tokens = add_tokens [] rt.config.clients;
      operations_token = rt.config.operations.token;
    };
    cors = new_cors_policy rt.config.server.cors rt.cors_max_age;
  }

  after_loop : Building × Option BuildError → Building × Result BuildError (RuntimeSnapshot T P)
  unfolding snapshot_of
  after_loop (b, some e) = (b, err e)
  after_loop (b, none) = (
    b,
    elim (find_name b.providers rt.config.default_provider) [
      | none ↦ err (missing_default_provider rt.config.default_provider)
      | some default ↦ ok (snapshot_of b default)
    ],
  )

  -- The metrics and the breakers stand beside the snapshot.
  unfoldable pub build_runtime_snapshot :
      Metrics → Building × Result BuildError (RuntimeSnapshot T P)
  unfolding build_providers after_loop
  build_runtime_snapshot metrics = after_loop (
      build_providers (record { metrics = metrics; providers = []; breakers = [] })
        rt.config.providers)
