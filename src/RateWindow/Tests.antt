-- ===== src/RateWindow/Tests.antt =====
-- Runs of a window, and the theorems of its modules at concrete inputs.
use gem_gate.Prelude.{
  ℕ, ◌*◌, ◌≤◌, pos, negsuc, true, false, ◌≡◌, refl, [], ◌∷◌, length, keep, arith,
}
use gem_gate.RateWindow.{RateWindow, empty_window, minute, first_kept, prune, allow}
use gem_gate.RateWindow.History.{answers, answers_exact}
use gem_gate.RateWindow.Bound.{admitted, admitted_bounded, in_minute}

abbrev second : ℕ
second = 1000000000

-- Two requests in the window, at 100 s and 130 s.
abbrev busy : RateWindow
busy = record { start = 100 * second; count = 2; requests = 100 * second ∷ 130 * second ∷ [] }

-- At 161 s the first request has left the window, at 159 s it has not.
slides :
    ((allow busy (pos 2) (159 * second)).1 ≡ false) × ((allow busy (pos 2) (161 * second)).1 ≡ true)
unfolding allow prune first_kept minute
slides = (refl, refl)

answers_exact_example :
    answers empty_window ((pos 1, 5) ∷ (pos 1, 9) ∷ (negsuc 0, 9) ∷ (pos 2, 12) ∷ [])
    ≡ true ∷ false ∷ true ∷ true ∷ []
unfolding minute
answers_exact_example =
    answers_exact ((pos 1, 5) ∷ (pos 1, 9) ∷ (negsuc 0, 9) ∷ (pos 2, 12) ∷ []) (omega arith)

admitted_bounded_example :
    length (keep (in_minute 9) (admitted empty_window (pos 2) (3 ∷ 5 ∷ 5 ∷ 9 ∷ []))) ≤ 2
admitted_bounded_example = admitted_bounded 1 (3 ∷ 5 ∷ 5 ∷ 9 ∷ []) (omega arith) 9
