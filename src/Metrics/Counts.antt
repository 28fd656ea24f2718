-- ===== src/Metrics/Counts.antt =====
-- internal/gateway/metrics.go: what the counters count.
use gem_gate.Prelude.{ℕ, ◌+◌, ◌^◌, ◌<◌, Bool, ◌≡◌, ◌∙◌, List, [], ◌∷◌, if◌then◌else◌, length, arith}
use gem_gate.Metrics.{Metrics, record_status, u64, bump, is_2xx, is_4xx, is_5xx}

pub record_all : Metrics → List ℕ → Metrics
record_all m [] = m
record_all m (status ∷ rest) = record_all (record_status m status) rest

-- How many of the statuses pass a test.
abbrev pub tally : (ℕ → Bool) → List ℕ → ℕ
tally p [] = 0
tally p (status ∷ rest) = (if p status then 1 else 0) + tally p rest

bump-tally : (b : Bool) (n t : ℕ) → u64 (bump b n + t) ≡ u64 (n + ((if b then 1 else 0) + t))
bump-tally b n t = ground arith

bump-lt : (b : Bool) (n : ℕ) → n < 2 ^ 64 → bump b n < 2 ^ 64
bump-lt b n h = ground arith

-- The four counters hold 64-bit values.
pub record InRange (m : Metrics) : Type 0 where
  pub requests_range : m.requests < 2 ^ 64
  pub range_2xx : m.requests_2xx < 2 ^ 64
  pub range_4xx : m.requests_4xx < 2 ^ 64
  pub range_5xx : m.requests_5xx < 2 ^ 64

record_status-InRange : (m : Metrics) (status : ℕ) → InRange m → InRange (record_status m status)
unfolding record_status
record_status-InRange m status v = record {
  requests_range = omega arith;
  range_2xx = bump-lt (is_2xx status) m.requests_2xx v.range_2xx;
  range_4xx = bump-lt (is_4xx status) m.requests_4xx v.range_4xx;
  range_5xx = bump-lt (is_5xx status) m.requests_5xx v.range_5xx;
}

-- After any statuses each counter has grown, modulo 2^64, by the number of those of its class, and
-- `Requests` by the number of all.
pub record_all-counts :
    (m : Metrics) (statuses : List ℕ)
    → InRange m
    → let r = record_all m statuses in
      (r.requests ≡ u64 (m.requests + length statuses))
      × (r.requests_2xx ≡ u64 (m.requests_2xx + tally is_2xx statuses))
      × (r.requests_4xx ≡ u64 (m.requests_4xx + tally is_4xx statuses))
      × (r.requests_5xx ≡ u64 (m.requests_5xx + tally is_5xx statuses))
unfolding record_all record_status
record_all-counts m [] v = omega arith
record_all-counts m (status ∷ rest) v =
    let ih = record_all-counts (record_status m status) rest (record_status-InRange m status v) in
    (
      omega (arith, ih.0),
      ih.1 ∙ bump-tally (is_2xx status) m.requests_2xx (tally is_2xx rest),
      ih.2 ∙ bump-tally (is_4xx status) m.requests_4xx (tally is_4xx rest),
      ih.3 ∙ bump-tally (is_5xx status) m.requests_5xx (tally is_5xx rest),
    )
