-- ===== src/Terminal/Tables.antt =====
-- internal/tui/logs.go, providers.go and clients.go: the columns and the rows of the three tables, by
-- the width of the content. A cell is its text; the number of bytes has none where the code would
-- panic.
pub mod Columns
use gem_gate.Prelude.{
  ℕ, ◌+◌, ◌-◌, Bool, true, false, ◌||◌, ℤ, Option, none, some, List, [], ◌∷◌, leb, ltb, ◌==◌,
  if◌then◌else◌, length,
}
use gem_gate.Text.{Text, codes, text_eq, to_upper}
use gem_gate.Circuit.{CircuitSnapshot}
use gem_gate.LogRing.{LogEntry}
use gem_gate.Metrics.{u64, Health, unknown, degraded, warning, healthy, ProviderMetrics}
use gem_gate.Metrics.Report.{ProviderMetricsSnapshot, state_text}
use gem_gate.Terminal.Helpers.{
  Writing, format_duration, limit_text, status_text, percent, log_path, human_bytes,
}
use gem_gate.Terminal.Layout.{max}
use gem_gate.Terminal.Stats.{Stats, safe_text, average_duration}

pub record Column : Type 0 where
  pub title : Text
  pub size : ℕ

abbrev pub column : Text → ℕ → Column
column title size = record { title = title; size = size }

unfoldable pub log_columns : ℕ → List Column
log_columns width =
    if leb 118 width
    then column (codes "TIME") 8
      ∷ column (codes "LVL") 5
      ∷ column (codes "CLIENT") 12
      ∷ column (codes "PROVIDER") 13
      ∷ column (codes "METHOD") 7
      ∷ column (codes "STATUS") 7
      ∷ column (codes "DURATION") 9
      ∷ column (codes "BYTES") 9
      ∷ column (codes "PATH") (max 22 (width - 96))
      ∷ []
    else if leb 88 width
    then column (codes "TIME") 8
      ∷ column (codes "CLIENT") 13
      ∷ column (codes "PROVIDER") 13
      ∷ column (codes "STATUS") 7
      ∷ column (codes "DURATION") 9
      ∷ column (codes "PATH") (max 22 (width - 62))
      ∷ []
    else if leb 68 width
    then column (codes "TIME") 8
      ∷ column (codes "PROVIDER") 13
      ∷ column (codes "STATUS") 7
      ∷ column (codes "DURATION") 9
      ∷ column (codes "PATH") (max 20 (width - 45))
      ∷ []
    else column (codes "TIME") 5
      ∷ column (codes "STATUS") 7
      ∷ column (codes "PATH") (max 18 (width - 18))
      ∷ []

unfoldable pub provider_columns : ℕ → List Column
provider_columns width =
    if leb 112 width
    then column (codes "PROVIDER") 18
      ∷ column (codes "ROLE") 9
      ∷ column (codes "HEALTH") 9
      ∷ column (codes "CIRCUIT") 11
      ∷ column (codes "REQ") 7
      ∷ column (codes "ERROR") 8
      ∷ column (codes "FLIGHT") 8
      ∷ column (codes "AVG") 10
      ∷ column (codes "TYPE") (max 14 (width - 98))
      ∷ []
    else if leb 82 width
    then column (codes "PROVIDER") 18
      ∷ column (codes "ROLE") 9
      ∷ column (codes "HEALTH") 9
      ∷ column (codes "CIRCUIT") 11
      ∷ column (codes "REQ") 7
      ∷ column (codes "ERROR") 8
      ∷ column (codes "AVG") (max 10 (width - 72))
      ∷ []
    else column (codes "PROVIDER") (max 16 (width - 31))
      ∷ column (codes "HEALTH") 9
      ∷ column (codes "CIRCUIT") 11
      ∷ column (codes "REQ") 7
      ∷ []

unfoldable pub client_columns : ℕ → List Column
client_columns width =
    if leb 102 width
    then column (codes "CLIENT") 22
      ∷ column (codes "STATE") 10
      ∷ column (codes "LIMIT") 14
      ∷ column (codes "REQUESTS") 10
      ∷ column (codes "ERROR") 9
      ∷ column (codes "AVG") 12
      ∷ column (codes "BYTES") (max 10 (width - 87))
      ∷ []
    else if leb 76 width
    then column (codes "CLIENT") (max 18 (width - 49))
      ∷ column (codes "STATE") 10
      ∷ column (codes "LIMIT") 14
      ∷ column (codes "REQUESTS") 10
      ∷ column (codes "ERROR") 9
      ∷ []
    else column (codes "CLIENT") (max 18 (width - 26))
      ∷ column (codes "STATE") 10
      ∷ column (codes "REQUESTS") 10
      ∷ []

abbrev pub Cell : Type 0
Cell = Option Text

abbrev pub Row : Type 0
Row = List Cell

abbrev dash : Text
dash = codes "-"

-- The circuit's state, "closed" where the provider has no snapshot.
abbrev circuit_cell : Option CircuitSnapshot → Text
circuit_cell none = codes "closed"
circuit_cell (some c) = safe_text (state_text c.state) (codes "closed")

-- The health's text, empty where the provider has no metrics.
abbrev health_cell : Option Health → Text
health_cell (some healthy) = codes "OK"
health_cell (some warning) = codes "WARN"
health_cell (some degraded) = codes "FAIL"
health_cell _ = codes "?"

abbrev health_of : Option ProviderMetricsSnapshot → Option Health
health_of none = none
health_of (some p) = some p.health

abbrev pub requests_of : Option ProviderMetricsSnapshot → ℕ
requests_of none = 0
requests_of (some p) = p.counted.requests

abbrev in_flight_of : Option ProviderMetricsSnapshot → ℕ
in_flight_of none = 0
in_flight_of (some p) = p.counted.in_flight

abbrev average_of : Option ProviderMetricsSnapshot → ℕ
average_of none = 0
average_of (some p) = p.average

abbrev errors_of : Option ProviderMetricsSnapshot → ℕ
errors_of none = 0
errors_of (some p) =
    u64 (p.counted.requests_4xx + p.counted.requests_5xx + p.counted.transport_errors)

module _ (w : Writing) where
  unfoldable pub log_row : LogEntry → ℕ → Row
  log_row e width =
      if leb 118 width
      then some (w.clock e.time)
        ∷ some (to_upper e.level)
        ∷ some (safe_text e.client dash)
        ∷ some (safe_text e.provider dash)
        ∷ some (safe_text e.method dash)
        ∷ some (status_text w e.status)
        ∷ some (format_duration w e.duration)
        ∷ human_bytes w e.bytes
        ∷ some (log_path e)
        ∷ []
      else if leb 88 width
      then some (w.clock e.time)
        ∷ some (safe_text e.client dash)
        ∷ some (safe_text e.provider dash)
        ∷ some (status_text w e.status)
        ∷ some (format_duration w e.duration)
        ∷ some (log_path e)
        ∷ []
      else if leb 68 width
      then some (w.clock e.time)
        ∷ some (safe_text e.provider dash)
        ∷ some (status_text w e.status)
        ∷ some (format_duration w e.duration)
        ∷ some (log_path e)
        ∷ []
      else some (w.short_clock e.time) ∷ some (status_text w e.status) ∷ some (log_path e) ∷ []

  -- The percentage of errors of a provider.
  unfoldable pub provider_error_rate : Option ProviderMetricsSnapshot → Text
  provider_error_rate p = percent w (errors_of p) (requests_of p)

  unfoldable pub provider_row :
      Text → Text → Text → Option ProviderMetricsSnapshot → Option CircuitSnapshot → ℕ → Row
  unfolding provider_error_rate
  provider_row name type role p circuit width =
      let health = some (health_cell (health_of p)) in
      let state = some (circuit_cell circuit) in
      let requests = some (w.decimal (requests_of p)) in
      let average = some (format_duration w (average_of p)) in
      let rate = some (provider_error_rate p) in
      if leb 112 width
      then some name
        ∷ some role
        ∷ health
        ∷ state
        ∷ requests
        ∷ rate
        ∷ some (w.decimal (in_flight_of p))
        ∷ average
        ∷ some type
        ∷ []
      else if leb 82 width
      then some name ∷ some role ∷ health ∷ state ∷ requests ∷ rate ∷ average ∷ []
      else some name ∷ health ∷ state ∷ requests ∷ []

  unfoldable pub client_row : Text → Bool → ℤ → Stats → ℕ → Row
  client_row name enabled limit stats width =
      let state = some (if enabled then codes "enabled" else codes "disabled") in
      let rate = some (percent w stats.errors stats.requests) in
      let requests = some (w.decimal stats.requests) in
      if leb 102 width
      then some name
        ∷ state
        ∷ some (limit_text w limit)
        ∷ requests
        ∷ rate
        ∷ some (format_duration w (average_duration stats.durations))
        ∷ human_bytes w stats.bytes_out
        ∷ []
      else if leb 76 width
      then some name ∷ state ∷ some (limit_text w limit) ∷ requests ∷ rate ∷ []
      else some name ∷ state ∷ requests ∷ []
