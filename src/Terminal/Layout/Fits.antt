-- ===== src/Terminal/Layout/Fits.antt =====
-- internal/tui/layout.go: the parts of the screen against the terminal.
use gem_gate.Prelude.{◌+◌, ◌≤◌, ◌≡◌, false, ℤ, arith, if◌then◌else◌, ltb}
use gem_gate.Terminal.Layout.{Layout, is_tiny, calculate_layout, columns_of, with_body}

-- On a terminal that is large enough the parts fill it and no more: the navigation, where it is
-- shown, its gap and the workspace are as wide as the terminal; the header, the section bar, the
-- body, the footer and two lines of frame are as high; the body has at least nine lines and the
-- workspace 54 columns.
pub record Fits (l : Layout) : Type 0 where
  pub across : (if ltb 0 l.nav_width then l.nav_width + l.gap else 0) + l.workspace_width ≡ l.width
  pub down : l.header_height + l.section_height + l.body_height + l.footer_height + 2 ≡ l.height
  pub body_lines : 9 ≤ l.body_height
  pub workspace_columns : 54 ≤ l.workspace_width

-- A layout that is not tiny fits the terminal.
pub calculate_layout-Fits :
    (width height : ℤ)
    → is_tiny (calculate_layout width height) ≡ false
    → Fits (calculate_layout width height)
unfolding calculate_layout columns_of with_body
calculate_layout-Fits width height h = ground arith
