-- ===== src/Terminal/Screen/Consistent.antt =====
-- internal/tui/model.go: what `refresh` and `resize` keep, or make, of the screen.
use mathlib.Core.List.{reverse}
use gem_gate.Prelude.{◌-◌, ◌<◌, ◌≡◌, Bool, true, false, arith, keep, refl, sym, ap, if◌then◌else◌}
use gem_gate.Terminal.Helpers.{Writing}
use gem_gate.Terminal.Layout.{Layout, max, is_tiny, calculate_layout}
use gem_gate.Terminal.Layout.Fits.{Fits, calculate_layout-Fits}
use gem_gate.Terminal.Tables.{log_columns, provider_columns, client_columns}
use gem_gate.Terminal.Screen.{
  Model, Seen, Widgets, filter_log, content_width, log_rows, provider_rows, client_rows,
  update_log_rows, update_provider_rows, update_client_rows, update_config_viewport,
  update_help_viewport, update_all, refresh, resize, new_model,
}

module _ {B V D : Type 0} (w : Writing) (widgets : Widgets B V D) where
  abbrev pub Visible : Model B V D → Type 0
  Visible m = m.visible_logs ≡ keep (filter_log m.filter) (reverse m.seen.logs)

  -- The columns are those of the layout's width.
  abbrev pub HasColumns : Model B V D → Type 0
  HasColumns m =
      (m.log_table.columns ≡ log_columns (content_width w widgets m.layout))
      × (m.provider_table.columns ≡ provider_columns (content_width w widgets m.layout))
      × (m.client_table.columns ≡ client_columns (content_width w widgets m.layout))

  -- The rows show what the gateway told last, in the layout's width.
  abbrev pub HasRows : Model B V D → Type 0
  HasRows m =
      (m.log_table.rows ≡ log_rows w widgets m.visible_logs (content_width w widgets m.layout))
      × (m.provider_table.rows ≡ provider_rows w widgets m.seen (content_width w widgets m.layout))
      × (m.client_table.rows ≡ client_rows w widgets m.seen (content_width w widgets m.layout))

  abbrev pub Facts : Model B V D → Type 0
  Facts m =
      (m.active < 5)
      × Visible m
      × (is_tiny m.layout ≡ false → HasColumns m)
      × (is_tiny m.layout ≡ false → HasRows m)

  pub record IsConsistent (m : Model B V D) : Type 0 where
    pub facts : Facts m

  pub if_keeps :
      (b : Bool) (m n : Model B V D)
      → IsConsistent m
      → IsConsistent n
      → IsConsistent (if b then m else n)
  if_keeps true m n c d = c
  if_keeps false m n c d = d

  pub if_splits :
      (b : Bool) (m n : Model B V D)
      → (b ≡ true → IsConsistent m)
      → (b ≡ false → IsConsistent n)
      → IsConsistent (if b then m else n)
  if_splits true m n c d = c refl
  if_splits false m n c d = d refl

  -- What the viewports show, and whether help is shown or the screen paused, is not among the facts.
  pub shown-IsConsistent :
      {m : Model B V D} (help paused : Bool) (config text : V)
      → IsConsistent m
      → IsConsistent (record m {
        show_help = help;
        paused = paused;
        config_viewport = config;
        help_viewport = text;
      })
  shown-IsConsistent help paused config text c = record { facts = c.facts }

  pub config-IsConsistent :
      (m : Model B V D) → IsConsistent m → IsConsistent (update_config_viewport w widgets m)
  unfolding update_config_viewport
  config-IsConsistent m c =
      if_keeps (is_tiny m.layout) m _ c
        (shown-IsConsistent m.show_help m.paused _ m.help_viewport c)

  pub help-IsConsistent :
      (m : Model B V D) → IsConsistent m → IsConsistent (update_help_viewport w widgets m)
  unfolding update_help_viewport
  help-IsConsistent m c =
      if_keeps (is_tiny m.layout) m _ c
        (shown-IsConsistent m.show_help m.paused m.config_viewport _ c)

  -- The updates make the rows anew.
  rows-IsConsistent :
      (m : Model B V D)
      → m.active < 5
      → (is_tiny m.layout ≡ false → HasColumns m)
      → IsConsistent (
          update_client_rows w widgets
            (update_provider_rows w widgets (update_log_rows w widgets m)))
  unfolding update_client_rows update_provider_rows update_log_rows
  rows-IsConsistent m a c = record { facts = (a, refl, c, λ h. (refl, refl, refl)) }

  update_all-IsConsistent :
      (m : Model B V D)
      → m.active < 5
      → (is_tiny m.layout ≡ false → HasColumns m)
      → IsConsistent (update_all w widgets m)
  unfolding update_all
  update_all-IsConsistent m a c =
      let shown = config-IsConsistent _ (rows-IsConsistent m a c) in
      if_keeps m.show_help _ _ (help-IsConsistent _ shown) shown

  pub refresh-IsConsistent :
      (seen : Seen D) (m : Model B V D) → IsConsistent m → IsConsistent (refresh w widgets seen m)
  unfolding refresh
  refresh-IsConsistent seen m c =
      update_all-IsConsistent (record m { seen = seen }) c.facts.0 c.facts.2

  content_width-Fits :
      (l : Layout) → Fits l → content_width w widgets l ≡ max 24 (l.workspace_width - 4)
  unfolding content_width
  content_width-Fits l f = ground (arith, f.workspace_columns)

  pub resize-IsConsistent :
      (m : Model B V D) → m.active < 5 → Visible m → IsConsistent (resize w widgets m)
  unfolding resize
  resize-IsConsistent m a v =
      let l = calculate_layout m.width m.height in
      if_splits (is_tiny l) _ _ (λ t. record { facts = (a, v, λ h. cc (t, h), λ h. cc (t, h)) })
        (λ n.
          let e = sym (content_width-Fits l (calculate_layout-Fits m.width m.height n)) in
          update_all-IsConsistent _ a
            (λ h. (ap log_columns e, ap provider_columns e, ap client_columns e)))

  pub new_model-IsConsistent : (seen : Seen D) → IsConsistent (new_model w widgets seen)
  unfolding new_model refresh update_all update_log_rows update_provider_rows update_client_rows
      update_config_viewport
  new_model-IsConsistent seen = resize-IsConsistent _ (omega arith) refl
