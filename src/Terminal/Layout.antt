-- ===== src/Terminal/Layout.antt =====
-- internal/tui/layout.go. The sizes of a terminal are integers, and positive once the defaults are in
-- their place.
pub mod Fits
use gem_gate.Prelude.{
  ℕ, zero, suc, ◌+◌, ◌-◌, Bool, true, false, ◌||◌, ℤ, pos, leb, ltb, if◌then◌else◌,
}

pub data LayoutMode : Type 0 where
  wide medium compact tiny : LayoutMode

pub record Layout : Type 0 where
  pub width : ℕ
  pub height : ℕ
  pub mode : LayoutMode
  pub header_height : ℕ
  pub section_height : ℕ
  pub footer_height : ℕ
  pub nav_width : ℕ
  pub gap : ℕ
  pub workspace_width : ℕ
  pub body_height : ℕ

abbrev pub min_terminal_width : ℕ
min_terminal_width = 54

abbrev pub min_terminal_height : ℕ
min_terminal_height = 14

abbrev pub max : ℕ → ℕ → ℕ
max a b = if ltb b a then a else b

-- `if z <= 0 { z = d }`
abbrev pub or_size : ℤ → ℕ → ℕ
or_size z d = elim z [ pos (suc n) ↦ suc n | _ ↦ d ]

-- The zero value, before the first `resize`.
abbrev pub no_layout : Layout
no_layout = record {
  width = 0;
  height = 0;
  mode = wide;
  header_height = 0;
  section_height = 0;
  footer_height = 0;
  nav_width = 0;
  gap = 0;
  workspace_width = 0;
  body_height = 0;
}

-- The layout without its body.
unfoldable pub columns_of : ℕ → ℕ → Layout
columns_of width height =
    let l = record no_layout {
      width = width;
      height = height;
      header_height = 1;
      footer_height = 1;
      gap = 1;
    } in
    if ltb width min_terminal_width || ltb height min_terminal_height
    then record l { mode = tiny; workspace_width = max 1 width; body_height = max 1 (height - 2) }
    else if leb 118 width
    then record l { mode = wide; nav_width = 20; workspace_width = max 48 (width - 20 - 1) }
    else if leb 80 width
    then record l { mode = medium; section_height = 1; workspace_width = width }
    else record l { mode = compact; section_height = 1; workspace_width = width }

abbrev pub is_tiny : Layout → Bool
is_tiny l = elim l.mode [ tiny ↦ true | _ ↦ false ]

unfoldable pub with_body : Layout → Layout
with_body l =
    let body = l.height - l.header_height - l.section_height - l.footer_height - 2 in
    if is_tiny l then l else record l { body_height = if ltb body 8 then 8 else body }

unfoldable pub calculate_layout : ℤ → ℤ → Layout
unfolding columns_of with_body
calculate_layout width height = with_body (columns_of (or_size width 100) (or_size height 30))
