-- ===== src/Terminal/Update/Rows.antt =====
-- internal/tui/model.go: the rows of the screen's tables against their columns.
use mathlib.Core.List.{reverse}
use gem_gate.Prelude.{◌<◌, ◌≡◌, sym, subst, false, List, [], ◌∷◌, keep, length, All, map}
use gem_gate.Gateway.Console.{ProviderSnapshot, ClientSnapshot}
use gem_gate.Terminal.Helpers.{Writing}
use gem_gate.Terminal.Layout.{is_tiny}
use gem_gate.Terminal.Tables.{Row, Column, log_columns, provider_columns, client_columns}
use gem_gate.Terminal.Tables.Columns.{log_row-cells, provider_row-cells, client_row-cells}
use gem_gate.Terminal.Screen.{
  Model, Seen, Widgets, Table, filter_log, content_width, log_rows, provider_rows, client_rows,
  new_model,
}
use gem_gate.Terminal.Update.{Message}
use gem_gate.Terminal.Screen.Consistent.{IsConsistent, new_model-IsConsistent}
use gem_gate.Terminal.Update.Consistent.{run_messages, run_messages-IsConsistent}

-- Each row has a cell for each column, and no other.
abbrev pub RowsFit : {B : Type 0} → Table B → Type 0
RowsFit t = All (λ r. length r ≡ length t.columns) t.rows

RowsFit-of :
    {B : Type 0} (t : Table B) (columns : List Column) (rows : List Row)
    → t.columns ≡ columns
    → t.rows ≡ rows
    → All (λ r. length r ≡ length columns) rows
    → RowsFit t
RowsFit-of t columns rows c r h =
    subst (λ cs. All (λ row. length row ≡ length cs) t.rows) (sym c)
      (subst (All (λ row. length row ≡ length columns)) (sym r) h)

All-map {ℓ κ υ} :
    {A : Type ℓ} {B : Type κ} (P : B → Type υ) (f : A → B) (xs : List A)
    → ((x : A) → P (f x))
    → All P (map f xs)
All-map P f [] h = tt
All-map P f (x ∷ xs) h = (h x, All-map P f xs h)

module _ {B V D : Type 0} (w : Writing) (widgets : Widgets B V D) where
  consistent-RowsFit :
      (m : Model B V D)
      → IsConsistent w widgets m
      → is_tiny m.layout ≡ false
      → RowsFit m.log_table × RowsFit m.provider_table × RowsFit m.client_table
  unfolding log_rows provider_rows client_rows
  consistent-RowsFit m c h =
      let width = content_width w widgets m.layout in
      let columns = c.facts.2 h in
      let rows = c.facts.3 h in
      (
        RowsFit-of m.log_table (log_columns width) _ columns.0 rows.0
            (All-map _ _ m.visible_logs (λ e. log_row-cells w e width)),
        RowsFit-of m.provider_table (provider_columns width) _ columns.1 rows.1 (
            All-map _ _ m.seen.cfg.providers
              (λ (p : ProviderSnapshot). provider_row-cells w p.name p.type _ _ _ width)),
        RowsFit-of m.client_table (client_columns width) _ columns.2 rows.2 (
            All-map _ _ m.seen.cfg.clients (λ (k : ClientSnapshot).
              client_row-cells w k.name k.enabled k.rate_limit_rpm _ width)),
      )

  -- After any messages from the start, whatever the gateway tells: the active section is one of the
  -- five, and the requests shown are those of the last refresh that pass the filter, the newest first.
  pub run_messages-shown :
      (start : Seen D) (messages : List (Seen D × Message D))
      → let m = run_messages w widgets (new_model w widgets start) messages in
        (m.active < 5) × (m.visible_logs ≡ keep (filter_log m.filter) (reverse m.seen.logs))
  run_messages-shown start messages =
      let c =
        run_messages-IsConsistent w widgets (new_model w widgets start) messages
          (new_model-IsConsistent w widgets start) in
      (c.facts.0, c.facts.1)

  -- After any messages from the start, whatever the gateway tells: on a terminal that is large enough
  -- each row of the tables of the requests, the providers and the clients has a cell for each column
  -- of its table, and no other.
  pub run_messages-RowsFit :
      (start : Seen D) (messages : List (Seen D × Message D))
      → is_tiny (run_messages w widgets (new_model w widgets start) messages).layout ≡ false
      → let m = run_messages w widgets (new_model w widgets start) messages in
        RowsFit m.log_table × RowsFit m.provider_table × RowsFit m.client_table
  run_messages-RowsFit start messages h =
      consistent-RowsFit (run_messages w widgets (new_model w widgets start) messages)
        (run_messages-IsConsistent w widgets (new_model w widgets start) messages
          (new_model-IsConsistent w widgets start))
        h
