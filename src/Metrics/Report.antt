-- ===== src/Metrics/Report.antt =====
-- internal/gateway/metrics.go: `Snapshot` and `providerSnapshots`. The time since the start is left out.
pub mod Prometheus
pub mod Reader
pub mod Series
pub mod Lines
pub mod Exposition
pub mod Ordered
use gem_gate.Prelude.{ℕ, Option, none, some, List, [], ◌∷◌, ◌++◌, ◌==◌, if◌then◌else◌, length}
use gem_gate.Text.{Text, codes}
use gem_gate.Sorting.{sort, text_le}
use gem_gate.Circuit.{
  SnapshotState, disabled, in_state, circuit_closed, circuit_open, circuit_half_open,
  CircuitSnapshot,
}
use gem_gate.Metrics.{
  ProviderMetrics, Metrics, Health, find_provider, provider_health, average_duration,
}

-- The counters that a snapshot copies stand in `counted`.
pub record ProviderMetricsSnapshot : Type 0 where
  pub name : Text
  pub counted : ProviderMetrics
  pub average : ℕ
  pub health : Health

pub record MetricsSnapshot : Type 0 where
  pub totals : Metrics
  pub providers : List ProviderMetricsSnapshot
  pub circuits : List (Text × CircuitSnapshot)

unfoldable pub names_of : List (Text × ProviderMetrics) → List Text
names_of [] = []
names_of ((name, p) ∷ ps) = name ∷ names_of ps

unfoldable pub snapshot_of : Text → ProviderMetrics → ProviderMetricsSnapshot
snapshot_of name p = record {
  name = name;
  counted = p;
  average = average_duration p;
  health = provider_health p;
}

-- The second loop; each name is one of the map's.
unfoldable pub snapshots_in :
    List (Text × ProviderMetrics) → List Text → List ProviderMetricsSnapshot
unfolding snapshot_of
snapshots_in entries [] = []
snapshots_in entries (name ∷ names) = elim (find_provider entries name) [
  | none ↦ snapshots_in entries names
  | some p ↦ snapshot_of name p ∷ snapshots_in entries names
]

unfoldable pub provider_snapshots : List (Text × ProviderMetrics) → List ProviderMetricsSnapshot
unfolding names_of snapshots_in sort text_le
provider_snapshots providers = snapshots_in providers (sort text_le (names_of providers))

-- `Gateway.Metrics`, less the uptime.
unfoldable pub metrics_snapshot : Metrics → List (Text × CircuitSnapshot) → MetricsSnapshot
unfolding provider_snapshots
metrics_snapshot m circuits = record {
  totals = m;
  providers = provider_snapshots m.providers;
  circuits = circuits;
}

unfoldable pub state_text : SnapshotState → Text
state_text disabled = codes "disabled"
state_text (in_state circuit_closed) = codes "closed"
state_text (in_state circuit_open) = codes "open"
state_text (in_state circuit_half_open) = codes "half_open"
