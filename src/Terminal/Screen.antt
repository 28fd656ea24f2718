-- ===== src/Terminal/Screen.antt =====
-- internal/tui/model.go: the state of the operator's screen, `refresh` and `resize`, with
-- `updateLogRows`, `updateProviderRows` and `updateClientRows`. A table of Bubbles keeps the columns,
-- the rows and the sizes that it is given; what else it keeps, such as its cursor, and the viewports
-- are parameters, and so is the text that they show.
pub mod Consistent
use mathlib.Core.List.{reverse}
use gem_gate.Prelude.{
  ℕ, ◌-◌, Bool, true, false, ◌&&◌, ◌||◌, ℤ, pos, List, [], ◌∷◌, map, keep, leb, ltb, ◌==◌,
  if◌then◌else◌,
}
use gem_gate.Text.{Text, codes, text_eq, to_lower, has_infix}
use gem_gate.Table.{find_name, assign}
use gem_gate.Circuit.{CircuitSnapshot}
use gem_gate.LogRing.{LogEntry}
use gem_gate.Metrics.Report.{ProviderMetricsSnapshot, MetricsSnapshot}
use gem_gate.Gateway.Console.{ConfigSnapshot, ProviderSnapshot, ClientSnapshot}
use gem_gate.Terminal.Helpers.{Writing}
use gem_gate.Terminal.Layout.{Layout, no_layout, max, is_tiny, calculate_layout}
use gem_gate.Terminal.Stats.{stats_of, summarize}
use gem_gate.Terminal.Tables.{
  Column, Row, log_columns, provider_columns, client_columns, log_row, provider_row, client_row,
}

pub data LogFilter : Type 0 where
  filter_all filter_warnings filter_errors filter_auth : LogFilter

pub record Table (B : Type 0) : Type 0 where
  pub columns : List Column
  pub rows : List Row
  pub across : ℕ
  pub down : ℕ
  pub inner : B

-- What the gateway tells when it is asked: `ConfigSnapshot`, `Metrics`, `Logs`, and the time.
pub record Seen (D : Type 0) : Type 0 where
  pub cfg : ConfigSnapshot D
  pub metrics : MetricsSnapshot
  pub logs : List LogEntry
  pub now : ℕ

pub record Model (B V D : Type 0) : Type 0 where
  pub seen : Seen D
  pub active : ℕ
  pub filter : LogFilter
  pub paused : Bool
  pub show_help : Bool
  pub width : ℤ
  pub height : ℤ
  pub layout : Layout
  pub visible_logs : List LogEntry
  pub log_table : Table B
  pub provider_table : Table B
  pub client_table : Table B
  pub config_viewport : V
  pub help_viewport : V

-- What Bubbles and the rendering do.
pub record Widgets (B V D : Type 0) : Type 0 where
  pub new_inner : B
  pub table_message : Text → B → B
  pub new_viewport : V
  pub viewport_message : Text → V → V
  pub viewport_size : ℕ → ℕ → V → V
  pub show_config : Seen D → ℕ → V → V
  pub show_help_text : ℕ → V → V

abbrev pub tab_count : ℕ
tab_count = 5

abbrev pub tab_config : ℕ
tab_config = 4

unfoldable pub filter_log : LogFilter → LogEntry → Bool
filter_log filter_all e = true
filter_log filter_warnings e =
    text_eq e.level (codes "warn") || (leb 400 e.status && ltb e.status 500)
filter_log filter_errors e = text_eq e.level (codes "error") || leb 500 e.status
filter_log filter_auth e =
    has_infix (to_lower e.message) (codes "auth")
    || e.status == 401
    || text_eq e.client (codes "anonymous")

unfoldable pub metrics_by_name :
    List (Text × ProviderMetricsSnapshot)
    → List ProviderMetricsSnapshot
    → List (Text × ProviderMetricsSnapshot)
metrics_by_name found [] = found
metrics_by_name found (p ∷ ps) = metrics_by_name (assign found p.name p) ps

unfoldable pub circuits_by_name :
    List (Text × CircuitSnapshot) → List (Text × CircuitSnapshot) → List (Text × CircuitSnapshot)
circuits_by_name found [] = found
circuits_by_name found ((name, c) ∷ cs) = circuits_by_name (assign found name c) cs

abbrev role_of : Text → Text → Text
role_of default name = if text_eq name default then codes "default" else codes "named"

module _ {B V D : Type 0} (w : Writing) (widgets : Widgets B V D) where
  unfoldable pub content_width : Layout → ℕ
  content_width l = if ltb 0 l.workspace_width then max 24 (l.workspace_width - 4) else 96

  unfoldable pub log_rows : List LogEntry → ℕ → List Row
  log_rows logs width = map (λ e. log_row w e width) logs

  unfoldable pub provider_rows : Seen D → ℕ → List Row
  unfolding metrics_by_name circuits_by_name
  provider_rows seen width =
      let by_name = metrics_by_name [] seen.metrics.providers in
      let circuits = circuits_by_name [] seen.metrics.circuits in
      map
        (λ (p : ProviderSnapshot).
          provider_row w p.name p.type (role_of seen.cfg.default_provider p.name)
            (find_name by_name p.name) (find_name circuits p.name) width)
        seen.cfg.providers

  -- The statistics of the clients do not depend on the time.
  unfoldable pub client_rows : Seen D → ℕ → List Row
  client_rows seen width =
      let stats = summarize seen.now seen.logs in
      map
        (λ (c : ClientSnapshot).
          client_row w c.name c.enabled c.rate_limit_rpm (stats_of (find_name stats.clients c.name))
            width)
        seen.cfg.clients

  unfoldable pub update_log_rows : Model B V D → Model B V D
  unfolding log_rows
  update_log_rows m =
      let visible = keep (filter_log m.filter) (reverse m.seen.logs) in
      record m {
        visible_logs = visible;
        log_table = record m.log_table { rows = log_rows visible (content_width m.layout) };
      }

  unfoldable pub update_provider_rows : Model B V D → Model B V D
  update_provider_rows m = record m {
    provider_table = record m.provider_table {
      rows = provider_rows m.seen (content_width m.layout);
    };
  }

  unfoldable pub update_client_rows : Model B V D → Model B V D
  update_client_rows m = record m {
    client_table = record m.client_table { rows = client_rows m.seen (content_width m.layout) };
  }

  unfoldable pub update_config_viewport : Model B V D → Model B V D
  update_config_viewport m = if is_tiny m.layout then m else record m {
    config_viewport = widgets.show_config m.seen (content_width m.layout) m.config_viewport;
  }

  unfoldable pub update_help_viewport : Model B V D → Model B V D
  update_help_viewport m =
      if is_tiny m.layout
      then m
      else record m { help_viewport = widgets.show_help_text m.active m.help_viewport }

  -- The five updates by which `refresh` and `resize` end.
  unfoldable pub update_all : Model B V D → Model B V D
  update_all m =
      let shown =
        update_config_viewport (update_client_rows (update_provider_rows (update_log_rows m))) in
      if m.show_help then update_help_viewport shown else shown

  unfoldable pub refresh : Seen D → Model B V D → Model B V D
  refresh seen m = update_all (record m { seen = seen })

  abbrev sized : Table B → List Column → ℕ → ℕ → Table B
  sized t columns across down = record t { columns = columns; across = across; down = down }

  unfoldable pub resize : Model B V D → Model B V D
  resize m =
      let l = calculate_layout m.width m.height in
      let content = max 24 (l.workspace_width - 4) in
      let body = max 8 l.body_height in
      if is_tiny l
      then record m { layout = l }
      else update_all (record m {
        layout = l;
        log_table = sized m.log_table (log_columns content) content (max 5 (body - 10));
        provider_table =
            sized m.provider_table (provider_columns content) content (max 5 (body - 11));
        client_table = sized m.client_table (client_columns content) content (max 5 (body - 11));
        config_viewport = widgets.viewport_size content (max 6 (body - 3)) m.config_viewport;
        help_viewport = widgets.viewport_size content (max 6 (body - 3)) m.help_viewport;
      })

  abbrev new_table : Table B
  new_table = record { columns = []; rows = []; across = 0; down = 10; inner = widgets.new_inner }

  unfoldable pub new_model : Seen D → Model B V D
  new_model seen = resize (
      refresh seen (record {
        seen = seen;
        active = 0;
        filter = filter_all;
        paused = false;
        show_help = false;
        width = pos 100;
        height = pos 30;
        layout = no_layout;
        visible_logs = [];
        log_table = new_table;
        provider_table = new_table;
        client_table = new_table;
        config_viewport = widgets.new_viewport;
        help_viewport = widgets.new_viewport;
      }))
