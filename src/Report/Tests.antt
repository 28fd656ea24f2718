-- ===== src/Report/Tests.antt =====
-- Runs of the helpers.
use gem_gate.Prelude.{false, ◌≡◌, refl, pos, negsuc, [], ◌∷◌}
use gem_gate.Text.{codes, trim_space}
use gem_gate.Report.{valid_request_id, redact, min_duration}

spaced_id : valid_request_id (codes "a b") ≡ false
unfolding valid_request_id
spaced_id = refl

short_secret : redact (codes "secret") ≡ codes "****"
unfolding redact trim_space
short_secret = refl

least_positive : min_duration (pos 7 ∷ negsuc 2 ∷ pos 0 ∷ pos 5 ∷ []) ≡ 5
unfolding min_duration
least_positive = refl
