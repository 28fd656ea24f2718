-- ===== src/Terminal/Helpers.antt =====
-- internal/tui/helpers.go: the texts of the cells. The rounding and the text of a duration, a
-- fraction with one decimal place, a percentage and the clock are parameters, as is the width that
-- lipgloss gives a text on the screen, whose runes `truncate` takes one at a time.
pub mod Sizes
pub mod Widths
use gem_gate.Prelude.{
  ℕ, zero, suc, ◌+◌, ◌-◌, ◌*◌, ◌/◌, ◌%◌, ◌^◌, Bool, not, ℤ, pos, Option, none, some, List, [], ◌∷◌,
  ◌++◌, leb, ltb, ◌==◌, if◌then◌else◌,
}
use gem_gate.Text.{Text, codes, is_empty}
use gem_gate.LogRing.{LogEntry}

pub record Writing : Type 0 where
  pub decimal : ℕ → Text
  pub rounded : ℕ → ℕ → Text
  pub one_place : ℕ → ℕ → Text
  pub percentage : ℕ → ℕ → Text
  pub clock : ℕ → Text
  pub short_clock : ℕ → Text

abbrev pub unit : ℕ
unit = 1024

-- The loop of `humanBytes`, on fuel: the divisor, a `uint64`, and the exponent. None if the fuel runs
-- out.
pub scale : ℕ → ℕ → ℕ → ℕ → Option (ℕ × ℕ)
scale zero n div exp = none
scale (suc fuel) n div exp =
    let more = scale fuel (n / unit) (div * unit % 2 ^ 64) (exp + 1) in
    if leb unit n then more else some (div, exp)

abbrev pub unit_letters : Text
unit_letters = codes "KMGTPE"

abbrev pub letter_at : Text → ℕ → Option ℕ
letter_at [] i = none
letter_at (c ∷ s) zero = some c
letter_at (c ∷ s) (suc i) = letter_at s i

-- The text of a number of bytes; none where the code would panic.
pub human_bytes : Writing → ℕ → Option Text
human_bytes w v =
    if ltb v unit then some (w.decimal v ++ codes " B") else elim (scale 6 (v / unit) unit 0) [
      | none ↦ none
      | some (div, exp) ↦ elim (letter_at unit_letters exp) [
        | none ↦ none
        | some letter ↦ some (w.one_place v div ++ (b' ' ∷ letter ∷ codes "iB"))
      ]
    ]

unfoldable pub format_duration : Writing → ℕ → Text
format_duration w d =
    if d == 0
    then codes "-"
    else if ltb d 1000000000
    then w.rounded 1000000 d
    else w.rounded 100000000 d

unfoldable pub limit_text : Writing → ℤ → Text
limit_text w v = elim v [ pos (suc n) ↦ w.decimal (suc n) ++ codes " rpm" | _ ↦ codes "unlimited" ]

unfoldable pub status_text : Writing → ℕ → Text
status_text w status = if status == 0 then codes "-" else w.decimal status

unfoldable pub percent : Writing → ℕ → ℕ → Text
percent w numerator denominator =
    if denominator == 0 then codes "0.0%" else w.percentage numerator denominator

unfoldable pub log_path : LogEntry → Text
log_path e =
    if not (is_empty e.path)
    then e.path
    else if not (is_empty e.message)
    then e.message
    else codes "-"

abbrev pub ellipsis : ℕ
ellipsis = 0x2026

module _ (rune_width : ℕ → ℕ) (text_width : List ℕ → ℕ) where
  -- The loop over the runes, with the width used so far.
  unfoldable pub runes_within : ℕ → ℕ → List ℕ → List ℕ
  runes_within target used [] = []
  runes_within target used (r ∷ rs) =
      let rest = runes_within target (used + rune_width r) rs in
      if ltb target (used + rune_width r) then [] else r ∷ rest

  unfoldable pub truncate : List ℕ → ℕ → List ℕ
  unfolding runes_within
  truncate s width =
      if width == 0
      then []
      else if leb (text_width s) width
      then s
      else if width == 1
      then ellipsis ∷ []
      else runes_within (width - 1) 0 s ++ ellipsis ∷ []
