-- ===== src/Metrics/Report/Prometheus.antt =====
-- internal/gateway/metrics.go: `Prometheus`. How package fmt writes a number and a number of seconds
-- is a parameter.
use gem_gate.Prelude.{ℕ, Option, none, some, List, [], ◌∷◌, ◌++◌, ◌==◌, if◌then◌else◌}
use gem_gate.Text.{Text, codes}
use gem_gate.Circuit.{CircuitSnapshot}
use gem_gate.Metrics.{ProviderMetrics}
use gem_gate.Metrics.Report.{ProviderMetricsSnapshot, MetricsSnapshot, state_text}
use gem_gate.Metrics.Report.Series.{
  Total, totals_of, provider_requests, provider_inflight, provider_transport_errors,
  provider_duration_sum, provider_duration_count, provider_failures, circuit_state,
  circuit_retry_after, Series, provider_series, circuit_series,
}

unfoldable pub label_byte : ℕ → Text
label_byte c =
    if c == b'\\'
    then codes "\\\\"
    else if c == b'\n'
    then codes "\\n"
    else if c == b'"'
    then codes "\\\""
    else c ∷ []

unfoldable pub prometheus_label : Text → Text
unfolding label_byte
prometheus_label [] = []
prometheus_label (c ∷ s) = label_byte c ++ prometheus_label s

-- The pieces of the text take what follows them.
-- A `# HELP` line with its `# TYPE` line.
unfoldable pub described : Text → Text → Text → Text → Text
described metric help kind rest =
    codes "# HELP "
    ++ (metric
        ++ (b' '
            ∷ (help
                ++ (b'\n' ∷ (codes "# TYPE " ++ (metric ++ (b' ' ∷ (kind ++ (b'\n' ∷ rest)))))))))

unfoldable pub plain_line : Text → Text → Text → Text
plain_line metric value rest = metric ++ (b' ' ∷ (value ++ (b'\n' ∷ rest)))

-- `metric{provider="label"} value`
unfoldable pub provider_line : Text → Text → Text → Text → Text
provider_line metric label value rest =
    metric ++ (codes "{provider=\"" ++ (label ++ (codes "\"} " ++ (value ++ (b'\n' ∷ rest)))))

-- `metric{provider="label",key="class"} value`
unfoldable pub class_line : Text → Text → Text → Text → Text → Text → Text
class_line metric label key class value rest =
    metric
    ++ (codes "{provider=\""
        ++ (label
            ++ (codes "\","
                ++ (key
                    ++ (codes "=\"" ++ (class ++ (codes "\"} " ++ (value ++ (b'\n' ∷ rest)))))))))

-- `%d`, and `%.Nf` of a duration's seconds.
pub record Format : Type 0 where
  pub decimal : ℕ → Text
  pub seconds : ℕ → ℕ → Text

unfoldable pub series_text : List Series → Text → Text
unfolding described
series_text [] rest = rest
series_text (s ∷ ss) rest = described s.metric s.help s.kind (series_text ss rest)

-- What a line with a provider's label says: its second label, if any, is that of a class or a state. A
-- constant class is its own label text.
pub record SampleLine : Type 0 where
  pub metric : Text
  pub class : Option (Text × Text)
  pub value : Text

abbrev pub sample_line : Text → Option (Text × Text) → Text → SampleLine
sample_line metric class value = record { metric = metric; class = class; value = value }

-- One `Fprintf` of a provider's loop.
unfoldable pub line_text : Text → SampleLine → Text → Text
line_text label l rest = elim l.class [
  | none ↦ provider_line l.metric label l.value rest
  | some (key, class) ↦ class_line l.metric label key (prometheus_label class) l.value rest
]

unfoldable pub lines_text : Text → List SampleLine → Text → Text
unfolding line_text
lines_text label [] rest = rest
lines_text label (l ∷ ls) rest = line_text label l (lines_text label ls rest)

module _ (f : Format) where
  unfoldable pub totals_text : List Total → Text → Text
  unfolding described plain_line
  totals_text [] rest = rest
  totals_text (t ∷ ts) rest =
      described t.metric t.help t.kind
        (plain_line t.metric (f.decimal t.value) (totals_text ts rest))

  abbrev pub provider_lines : ProviderMetrics → List SampleLine
  provider_lines m =
      let classed = λ (class : Text) (n : ℕ).
        sample_line provider_requests (some (codes "status_class", class)) (f.decimal n) in
      classed (codes "2xx") m.requests_2xx
      ∷ classed (codes "4xx") m.requests_4xx
      ∷ classed (codes "5xx") m.requests_5xx
      ∷ classed (codes "transport_error") m.transport_errors
      ∷ sample_line provider_inflight none (f.decimal m.in_flight)
      ∷ sample_line provider_transport_errors none (f.decimal m.transport_errors)
      ∷ sample_line provider_duration_sum none (f.seconds 6 m.duration)
      ∷ sample_line provider_duration_count none (f.decimal m.requests)
      ∷ sample_line provider_failures none (f.decimal m.consecutive_failures)
      ∷ []

  -- A remaining interval is never negative, so `maxDurationZero` keeps it.
  abbrev pub circuit_lines : CircuitSnapshot → List SampleLine
  circuit_lines c =
      sample_line circuit_state (some (codes "state", state_text c.state)) (codes "1")
      ∷ sample_line circuit_retry_after none (f.seconds 3 c.retry_after)
      ∷ []

  unfoldable pub providers_text : List ProviderMetricsSnapshot → Text → Text
  unfolding lines_text
  providers_text [] rest = rest
  providers_text (p ∷ ps) rest =
      lines_text (prometheus_label p.name) (provider_lines p.counted) (providers_text ps rest)

  unfoldable pub circuits_text : List (Text × CircuitSnapshot) → Text → Text
  unfolding lines_text
  circuits_text [] rest = rest
  circuits_text ((name, c) ∷ cs) rest =
      lines_text (prometheus_label name) (circuit_lines c) (circuits_text cs rest)

  -- `if len(s.Providers) > 0 { … }`
  unfoldable pub providers_block : List ProviderMetricsSnapshot → Text → Text
  unfolding series_text providers_text
  providers_block [] rest = rest
  providers_block (p ∷ ps) rest = series_text provider_series (providers_text (p ∷ ps) rest)

  unfoldable pub circuits_block : List (Text × CircuitSnapshot) → Text
  unfolding series_text circuits_text
  circuits_block [] = []
  circuits_block (c ∷ cs) = series_text circuit_series (circuits_text (c ∷ cs) [])

  unfoldable pub prometheus : MetricsSnapshot → Text
  unfolding totals_text providers_block circuits_block
  prometheus s =
      totals_text (totals_of s.totals) (providers_block s.providers (circuits_block s.circuits))
