-- ===== src/Terminal/Helpers/Widths.antt =====
-- internal/tui/helpers.go: `truncate` against the width that it is given.
use gem_gate.Prelude.{ℕ, ◌+◌, ◌-◌, ◌≤◌, ◌≡◌, List, [], ◌∷◌, ◌++◌, arith}
use gem_gate.Terminal.Helpers.{ellipsis, runes_within, truncate}

-- A text is as wide as its runes together, and an ellipsis fills one cell.
pub record WidthLaws (rune_width : ℕ → ℕ) (text_width : List ℕ → ℕ) : Type 0 where
  pub width-nil : text_width [] ≡ 0
  pub width-cons : (r : ℕ) (rs : List ℕ) → text_width (r ∷ rs) ≡ rune_width r + text_width rs
  pub width_ellipsis : rune_width ellipsis ≡ 1

module _ (rune_width : ℕ → ℕ) (text_width : List ℕ → ℕ)
    (laws : WidthLaws rune_width text_width) where
  runes_within-le :
      (target used : ℕ) (rs : List ℕ)
      → used ≤ target
      → used + text_width (runes_within rune_width text_width target used rs ++ ellipsis ∷ [])
        ≤ target + 1
  unfolding runes_within
  runes_within-le target used [] h =
      omega (arith, laws.width-cons ellipsis [], laws.width-nil, laws.width_ellipsis)
  runes_within-le target used (r ∷ rs) h =
      let rest = runes_within rune_width text_width target (used + rune_width r) rs in
      ground (
        arith,
        laws.width-cons ellipsis [],
        laws.width-nil,
        laws.width_ellipsis,
        laws.width-cons r (rest ++ ellipsis ∷ []),
        runes_within-le target (used + rune_width r) rs,
      )

  -- What `truncate` leaves of a text is no wider than it is to be.
  pub truncate-fits :
      (s : List ℕ) (width : ℕ) → text_width (truncate rune_width text_width s width) ≤ width
  unfolding truncate
  truncate-fits s width =
      let cut = runes_within-le (width - 1) 0 s in
      ground
        (arith, laws.width-nil, laws.width-cons ellipsis [], laws.width_ellipsis, cut (omega arith))
