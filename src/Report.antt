-- ===== src/Report.antt =====
-- internal/gateway/http_helpers.go: the small functions that decide what clients and the log are
-- told: request ids, public errors, levels, redacted secrets and the least of several durations.
pub mod Durations
mod Tests
use gem_gate.Prelude.{
  ℕ, ◌-◌, Bool, true, false, not, ◌&&◌, ◌||◌, ℤ, pos, negsuc, List, [], ◌∷◌, ◌++◌, leb, ltb, ◌==◌,
  if◌then◌else◌, length, drop,
}
use gem_gate.Text.{Text, codes, is_empty, trim_space}

-- A rune above 0x7E has bytes above it only, and an invalid byte is such a rune.
unfoldable pub all_visible : Text → Bool
all_visible [] = true
all_visible (c ∷ id) = if ltb c 0x21 || ltb 0x7E c then false else all_visible id

unfoldable pub valid_request_id : Text → Bool
unfolding all_visible
valid_request_id id = if is_empty id || ltb 128 (length id) then false else all_visible id

unfoldable pub public_proxy_error : ℕ → Text
public_proxy_error status =
    if status == 400
    then codes "invalid proxy request"
    else if status == 404
    then codes "provider not found"
    else if status == 413
    then codes "request body too large"
    else if status == 500
    then codes "gateway configuration error"
    else codes "upstream provider request failed"

unfoldable pub level_for_status : ℕ → Text
level_for_status status =
    if leb 500 status then codes "error" else if leb 400 status then codes "warn" else codes "info"

abbrev first_four : Text → Text
first_four (a ∷ b ∷ c ∷ d ∷ s) = a ∷ b ∷ c ∷ d ∷ []
first_four s = s

-- The ellipsis in UTF-8 stands between the first and the last four bytes.
unfoldable pub redact : Text → Text
redact s =
    if is_empty (trim_space s)
    then []
    else if leb (length s) 8
    then codes "****"
    else first_four s ++ 0xE2 ∷ 0x80 ∷ 0xA6 ∷ drop (length s - 4) s

-- The loop of `minDuration`, from the least duration so far, 0 for none.
unfoldable pub min_from : ℕ → List ℤ → ℕ
min_from out [] = out
min_from out (pos v ∷ values) =
    min_from (if v == 0 then out else if out == 0 || ltb v out then v else out) values
min_from out (negsuc v ∷ values) = min_from out values

unfoldable pub min_duration : List ℤ → ℕ
unfolding min_from
min_duration values = min_from 0 values
