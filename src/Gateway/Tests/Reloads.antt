-- ===== src/Gateway/Tests/Reloads.antt =====
-- The theorems about snapshots and reloads at a small gateway.
use gem_gate.Config.Load.{load}
use gem_gate.Config.Validation.Loops.{names}
use gem_gate.Gateway.Snapshot.{build_runtime_snapshot}
use gem_gate.Gateway.Snapshot.Total.{load-builds}
use gem_gate.Gateway.Snapshot.Built.{snapshot_breakers}
use gem_gate.Gateway.Snapshot.Breakers.{due}
use gem_gate.Gateway.Reload.{DeepEqual, ReloadResult, rejected, listen_changed, reload}
use gem_gate.Gateway.Start.{new_gateway, new_gateway-Quiet}
use gem_gate.Gateway.Proxy.Settled.{Quiet}
use gem_gate.Gateway.Reload.Atomic.{KeptBy, reload-KeptBy}
use gem_gate.Prelude.{true, ◌≡◌, refl, none, some, pos, [], ◌∷◌, if◌then◌else◌, is_ok, value_of, ok}
use gem_gate.Text.{
  Text, codes, text_eq, contains, trim_space, cut, to_lower, trim_right, trim_prefix,
}
use gem_gate.Table.{find_name, assign}
use gem_gate.Config.{Runtime}
use gem_gate.Config.Tests.{decoded, parse_url, platform, runtime, loads}
use gem_gate.Provider.{lookup, normalize_type}
use gem_gate.Metrics.{new_metrics}
use gem_gate.RateLimit.{Windows, memory_backend}
use gem_gate.Gateway.{Gateway, RuntimeSnapshot}
use gem_gate.Gateway.Fixtures.{settings, gateway}

-- The configuration file of the tests of `Load` makes a snapshot.
load-builds_example :
    (s : RuntimeSnapshot Unit Text) × ((build_runtime_snapshot platform.parse_url runtime [] 5
        new_metrics).1
      ≡ ok s)
load-builds_example =
    load-builds platform [] decoded runtime [] 5 new_metrics
      (value_of (load platform [] decoded) loads).1

-- A gateway starts from that file.
new_gateway-Quiet_example :
    (g : Gateway Windows Unit Text) × (new_gateway {F = Unit} platform.parse_url memory_backend
        (λ t. t)
        runtime
        (ok gateway.rate_limits)
        5
      ≡ ok g)
    × (g.runtime.cfg ≡ runtime)
    × Quiet g.breakers
new_gateway-Quiet_example =
    new_gateway-Quiet memory_backend (λ t. t) platform [] decoded runtime gateway.rate_limits 5
      (value_of (load platform [] decoded) loads).1

-- The provider that the settings name.
abbrev listed : Runtime Unit Text
listed = record settings {
  config = record settings.config {
    providers =
        record {
          name = codes "ai";
          type = codes "groq";
          base_url = codes "https://ai.test";
          api_key = [];
          api_key_file = [];
          timeout = [];
          headers = [];
          circuit_breaker = record {
            enabled = none;
            failure_threshold = pos 5;
            open_for = codes "30s";
          };
        }
        ∷ [];
  };
}

builds : is_ok (build_runtime_snapshot parse_url listed gateway.breakers 5 new_metrics).1 ≡ true
unfolding build_runtime_snapshot lookup text_eq normalize_type to_lower trim_space cut trim_right
    trim_prefix find_name assign
builds = refl

abbrev snapshot : RuntimeSnapshot Unit Text
snapshot =
    (value_of (build_runtime_snapshot parse_url listed gateway.breakers 5 new_metrics).1 builds).0

snapshot_breakers_example :
    find_name
      (build_runtime_snapshot parse_url listed gateway.breakers 5 new_metrics).0.breakers
      (codes "ai")
    ≡ (if contains (names listed.config.providers) (codes "ai")
        then some (
            due
              (find_name listed.provider_circuits (codes "ai"))
              (find_name gateway.breakers (codes "ai"))
              5)
        else none)
snapshot_breakers_example =
    snapshot_breakers parse_url listed gateway.breakers 5 new_metrics snapshot (codes "ai")
      (value_of (build_runtime_snapshot parse_url listed gateway.breakers 5 new_metrics).1 builds).1

abbrev same : DeepEqual Unit
same = record {
  same_config = λ a b. text_eq a.server.request_body_limit b.server.request_body_limit;
  same_rate_limit = λ a b. text_eq a.backend b.backend;
  same_telemetry = λ a b. true;
}

-- The settings at another address, and with another limit.
abbrev moved : Runtime Unit Text
moved = record listed {
  config = record listed.config {
    server = record listed.config.server { listen = codes ":9"; request_body_limit = codes "1" };
  };
}

abbrev narrowed : Runtime Unit Text
narrowed = record listed {
  config = record listed.config {
    server = record listed.config.server { request_body_limit = codes "1" };
  };
}

abbrev reloads : Runtime Unit Text → Gateway Windows Unit Text × ReloadResult
reloads rt = reload same parse_url memory_backend (λ t. t) (λ e. []) (λ n m. []) gateway rt 5

refuses_move : (reloads moved).1 ≡ rejected listen_changed
unfolding reload text_eq
refuses_move = refl

reload-KeptBy_example :
    KeptBy same parse_url memory_backend
      (λ t. t)
      (λ e. [])
      (λ n m. [])
      gateway
      (reloads moved).0
      listen_changed
      5
reload-KeptBy_example =
    reload-KeptBy same parse_url memory_backend (λ t. t) (λ e. []) (λ n m. []) gateway moved 5
      listen_changed refuses_move
