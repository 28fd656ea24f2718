-- ===== src/Metrics/Tests.antt =====
-- The theorems about the metrics at concrete inputs.
use gem_gate.Prelude.{ℕ, ◌+◌, ◌%◌, ◌≡◌, refl, some, true, false, List, [], ◌∷◌, arith}
use gem_gate.Metrics.{new_metrics, ProviderMetrics, new_provider_metrics, find_provider, unknown}
use mathlib.Core.List.{Permᴰ}
use gem_gate.Text.{Text}
use gem_gate.Text.Equality.{text_eq_iff}
use gem_gate.Circuit.{in_state, circuit_half_open}
use gem_gate.Metrics.Report.{MetricsSnapshot, names_of, provider_snapshots}
use gem_gate.Metrics.Report.Prometheus.{Format, prometheus}
use gem_gate.Metrics.Report.Reader.{read}
use gem_gate.Metrics.Report.Lines.{one_line}
use gem_gate.Metrics.Report.Exposition.{samples, read-prometheus}
use gem_gate.Metrics.Report.Ordered.{provider_snapshots-perm}
use gem_gate.Metrics.Trend.{Completion}

abbrev completions : List Completion
completions =
    record { status = 200; duration = 9; transport_error = false; now = 20 }
    ∷ record { status = 502; duration = 4; transport_error = false; now = 30 }
    ∷ record { status = 0; duration = 5; transport_error = true; now = 40 }
    ∷ []

-- One decimal digit for every number.
abbrev digit : Format
digit = record { decimal = λ n. (b'0' + n % 10) ∷ []; seconds = λ places n. (b'0' + n % 10) ∷ [] }

one_digit : (n : ℕ) → one_line ((b'0' + n % 10) ∷ []) ≡ true
unfolding one_line
one_digit n = ground arith

-- A provider whose name holds a quote and a line feed.
abbrev odd_name : MetricsSnapshot
odd_name = record {
  totals = new_metrics;
  providers =
      record {
        name = b'a' ∷ b'"' ∷ b'\n' ∷ [];
        counted = new_provider_metrics;
        average = 0;
        health = unknown;
      }
      ∷ [];
  circuits =
      (b'a' ∷ [], record { state = in_state circuit_half_open; failures = 1; retry_after = 7 })
      ∷ [];
}

read-prometheus_example : read (prometheus digit odd_name) ≡ some (samples digit odd_name)
read-prometheus_example =
    read-prometheus digit
      (record { decimal_line = one_digit; seconds_line = λ places n. one_digit n }) odd_name

-- Two walks of the map of two providers.
abbrev busy : ProviderMetrics
busy = record new_provider_metrics { requests = 3; duration = 10 }

abbrev one_walk : List (Text × ProviderMetrics)
one_walk = (b'b' ∷ [], busy) ∷ (b'a' ∷ [], new_provider_metrics) ∷ []

abbrev other_walk : List (Text × ProviderMetrics)
other_walk = (b'a' ∷ [], new_provider_metrics) ∷ (b'b' ∷ [], busy) ∷ []

walks_agree : (name : Text) → find_provider one_walk name ≡ find_provider other_walk name
unfolding find_provider
walks_agree name = ground (arith, text_eq_iff (b'a' ∷ []) name, text_eq_iff (b'b' ∷ []) name)

provider_snapshots-perm_example : provider_snapshots one_walk ≡ provider_snapshots other_walk
provider_snapshots-perm_example =
    provider_snapshots-perm one_walk other_walk walks_agree
      (unfold names_of in Permᴰ.swap refl refl)
