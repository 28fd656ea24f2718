-- ===== src/Metrics.antt =====
-- internal/gateway/metrics.go: counters of the gateway and of each provider. `atomic.Uint64` and
-- `uint64` wrap; `inFlight` of a provider is never below 0. Durations are nanoseconds. The snapshots
-- and the Prometheus text are the child module `Report`.
pub mod Counts
mod Tests
pub mod Trend
pub mod Report
use gem_gate.Prelude.{
  ℕ, zero, suc, ◌+◌, ◌-◌, ◌*◌, ◌/◌, ◌%◌, ◌^◌, Bool, true, false, ◌&&◌, ◌||◌, Option, none, some,
  List, [], ◌∷◌, leb, ltb, ◌==◌, if◌then◌else◌,
}
use gem_gate.Text.{Text, text_eq, is_empty, trim_space}

abbrev pub u64 : ℕ → ℕ
u64 n = n % 2 ^ 64

pub record ProviderMetrics : Type 0 where
  pub requests : ℕ
  pub requests_2xx : ℕ
  pub requests_4xx : ℕ
  pub requests_5xx : ℕ
  pub transport_errors : ℕ
  pub in_flight : ℕ
  pub duration : ℕ
  pub last_duration : ℕ
  pub last_status : ℕ
  pub last_request : ℕ
  pub consecutive_failures : ℕ

-- The counters that requests change; `StartedAt` is left out.
pub record Metrics : Type 0 where
  pub requests : ℕ
  pub requests_2xx : ℕ
  pub requests_4xx : ℕ
  pub requests_5xx : ℕ
  pub bytes_in : ℕ
  pub bytes_out : ℕ
  pub in_flight : ℕ
  pub upstream_errors : ℕ
  pub auth_failures : ℕ
  pub rate_limited : ℕ
  pub rate_limit_backend_errors : ℕ
  pub providers : List (Text × ProviderMetrics)

pub data Health : Type 0 where
  unknown degraded warning healthy : Health

abbrev pub new_provider_metrics : ProviderMetrics
new_provider_metrics = record {
  requests = 0;
  requests_2xx = 0;
  requests_4xx = 0;
  requests_5xx = 0;
  transport_errors = 0;
  in_flight = 0;
  duration = 0;
  last_duration = 0;
  last_status = 0;
  last_request = 0;
  consecutive_failures = 0;
}

abbrev pub new_metrics : Metrics
new_metrics = record {
  requests = 0;
  requests_2xx = 0;
  requests_4xx = 0;
  requests_5xx = 0;
  bytes_in = 0;
  bytes_out = 0;
  in_flight = 0;
  upstream_errors = 0;
  auth_failures = 0;
  rate_limited = 0;
  rate_limit_backend_errors = 0;
  providers = [];
}

abbrev pub is_2xx : ℕ → Bool
is_2xx status = leb 200 status && ltb status 300

abbrev pub is_4xx : ℕ → Bool
is_4xx status = leb 400 status && ltb status 500

abbrev pub is_5xx : ℕ → Bool
is_5xx status = leb 500 status

-- One more, if the test of the `switch` holds.
abbrev pub bump : Bool → ℕ → ℕ
bump b n = if b then u64 (n + 1) else n

unfoldable pub record_status : Metrics → ℕ → Metrics
record_status m status = record m {
  requests = u64 (m.requests + 1);
  requests_2xx = bump (is_2xx status) m.requests_2xx;
  requests_4xx = bump (is_4xx status) m.requests_4xx;
  requests_5xx = bump (is_5xx status) m.requests_5xx;
}

-- `m.providers[name]`
unfoldable pub find_provider : List (Text × ProviderMetrics) → Text → Option ProviderMetrics
find_provider [] name = none
find_provider ((k, p) ∷ ps) name = if text_eq k name then some p else find_provider ps name

-- The entry of `name`, made if it is not there, is changed by `f`: `p := m.provider(name)` and the
-- assignments through the pointer.
unfoldable pub update_provider :
    List (Text × ProviderMetrics)
    → Text
    → (ProviderMetrics → ProviderMetrics)
    → List (Text × ProviderMetrics)
update_provider [] name f = (name, f new_provider_metrics) ∷ []
update_provider ((k, p) ∷ ps) name f =
    if text_eq k name then (k, f p) ∷ ps else (k, p) ∷ update_provider ps name f

begun : ProviderMetrics → ProviderMetrics
begun p = record p { in_flight = p.in_flight + 1 }

unfoldable pub provider_begin : Metrics → Text → Metrics
unfolding begun
provider_begin m name =
    if is_empty (trim_space name)
    then m
    else record m { providers = update_provider m.providers name begun }

unfoldable pub finished : ℕ → ℕ → Bool → ℕ → ProviderMetrics → ProviderMetrics
finished status duration transport_error now p = record p {
  in_flight = p.in_flight - 1;
  requests = u64 (p.requests + 1);
  duration = p.duration + duration;
  last_duration = duration;
  last_status = status;
  last_request = now;
  requests_2xx = bump (is_2xx status) p.requests_2xx;
  requests_4xx = bump (is_4xx status) p.requests_4xx;
  requests_5xx = bump (is_5xx status) p.requests_5xx;
  transport_errors = bump transport_error p.transport_errors;
  consecutive_failures =
      if transport_error || is_5xx status then u64 (p.consecutive_failures + 1) else 0;
}

-- `now` is the time that `time.Now()` gives.
unfoldable pub provider_finish : Metrics → Text → ℕ → ℕ → Bool → ℕ → Metrics
provider_finish m name status duration transport_error now =
    if is_empty (trim_space name) then m else record m {
      providers = update_provider m.providers name (finished status duration transport_error now);
    }

unfoldable pub provider_health : ProviderMetrics → Health
provider_health p =
    if p.requests == 0
    then unknown
    else if leb 3 p.consecutive_failures
    then degraded
    else if ltb 0 p.consecutive_failures
    then warning
    else healthy

-- `AverageDuration` of a snapshot.
unfoldable pub average_duration : ProviderMetrics → ℕ
average_duration p = if ltb 0 p.requests then p.duration / p.requests else 0
