-- ===== src/RateWindow.antt =====
-- internal/gateway/ratelimit.go: the sliding window of one client. A time is a number of nanoseconds
-- since Go's zero time; the mutex makes each method one step. `now.Sub(t)` may be negative where the
-- clock went back, so a test `t <= now - minute` is written `t + minute <= now`.
pub mod Prune
pub mod History
pub mod Bound
pub mod Retry
mod Tests
use gem_gate.Prelude.{
  ℕ, zero, suc, ◌+◌, ◌-◌, ◌*◌, ℤ, pos, Bool, true, false, not, List, [], ◌∷◌, ◌++◌, leb, ◌==◌,
  if◌then◌else◌, length, drop,
}

pub record RateWindow : Type 0 where
  pub start : ℕ
  pub count : ℕ
  pub requests : List ℕ

-- `&rateWindow{}`
abbrev pub empty_window : RateWindow
empty_window = record { start = 0; count = 0; requests = [] }

-- a minute in nanoseconds; a shut constant, so that proofs do not compute with the numeral
unfoldable pub minute : ℕ
minute = 60 * 1000000000

-- The loop of `prune`: how many requests from the front are no later than the cutoff.
unfoldable pub first_kept : ℕ → List ℕ → ℕ
first_kept now [] = 0
first_kept now (t ∷ ts) = let n = first_kept now ts in if leb (t + minute) now then suc n else 0

unfoldable pub prune : RateWindow → ℕ → RateWindow
prune w now =
    if length w.requests == 0
    then w
    else (let first = first_kept now w.requests in
        if first == 0 then w else record w { requests = drop first w.requests })

abbrev head_or_zero : List ℕ → ℕ
head_or_zero [] = 0
head_or_zero (t ∷ ts) = t

unfoldable pub sync_compat_fields : RateWindow → RateWindow
sync_compat_fields w = record w { count = length w.requests; start = head_or_zero w.requests }

-- `time.Minute - now.Sub(oldest)`, raised to 0 where it is negative.
abbrev pub until_free : List ℕ → ℕ → ℕ
until_free requests now = head_or_zero requests + minute - now

pub allow_within : RateWindow → ℕ → ℕ → RateWindow × Bool × ℕ
unfolding sync_compat_fields
allow_within w limit now =
    let pruned = prune w now in
    if leb limit (length pruned.requests)
    then (sync_compat_fields pruned, false, until_free pruned.requests now)
    else (sync_compat_fields (record pruned { requests = pruned.requests ++ now ∷ [] }), true, 0)

-- The window, whether the request is admitted, and the delay until the oldest one expires.
unfoldable pub allow : RateWindow → ℤ → ℕ → RateWindow × Bool × ℕ
unfolding allow_within
allow w (pos (suc n)) now = allow_within w (suc n) now
allow w _ now = (w, true, 0)

unfoldable pub reset_after : RateWindow → ℕ → RateWindow × ℕ
unfolding sync_compat_fields
reset_after w now =
    let synced = sync_compat_fields (prune w now) in
    (synced, if length synced.requests == 0 then 0 else until_free synced.requests now)
