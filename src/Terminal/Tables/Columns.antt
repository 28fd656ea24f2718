-- ===== src/Terminal/Tables/Columns.antt =====
-- The rows and the widths of the tables against their columns.
use gem_gate.Prelude.{ℕ, ◌+◌, ◌≤◌, ◌≡◌, Bool, Option, List, [], ◌∷◌, ℤ, arith, length}
use gem_gate.Text.{Text}
use gem_gate.Circuit.{CircuitSnapshot}
use gem_gate.LogRing.{LogEntry}
use gem_gate.Metrics.Report.{ProviderMetricsSnapshot}
use gem_gate.Terminal.Helpers.{Writing}
use gem_gate.Terminal.Stats.{Stats}
use gem_gate.Terminal.Tables.{
  Column, log_columns, provider_columns, client_columns, log_row, provider_row, client_row,
}

pub log_row-cells :
    (w : Writing) (e : LogEntry) (width : ℕ)
    → length (log_row w e width) ≡ length (log_columns width)
unfolding log_row log_columns
log_row-cells w e width = ground arith

pub provider_row-cells :
    (w : Writing) (name type role : Text) (p : Option ProviderMetricsSnapshot)
    (circuit : Option CircuitSnapshot) (width : ℕ)
    → length (provider_row w name type role p circuit width) ≡ length (provider_columns width)
unfolding provider_row provider_columns
provider_row-cells w name type role p circuit width = ground arith

pub client_row-cells :
    (w : Writing) (name : Text) (enabled : Bool) (limit : ℤ) (stats : Stats) (width : ℕ)
    → length (client_row w name enabled limit stats width) ≡ length (client_columns width)
unfolding client_row client_columns
client_row-cells w name enabled limit stats width = ground arith

abbrev pub total_size : List Column → ℕ
total_size [] = 0
total_size (c ∷ cs) = c.size + total_size cs

-- At every width of the content from 50 on, which every layout that is not tiny has, the columns of
-- each table are no wider together than the content.
pub columns-fit :
    (width : ℕ)
    → 50 ≤ width
    → (total_size (log_columns width) ≤ width)
      × (total_size (provider_columns width) ≤ width)
      × (total_size (client_columns width) ≤ width)
unfolding log_columns provider_columns client_columns
columns-fit width h = ground arith
