-- ===== src/Terminal/Stats/Balance.antt =====
-- internal/tui/stats.go: the statistics of the clients and of the routes against the totals.
use gem_gate.Prelude.{ℕ, ◌+◌, ◌≡◌, List, [], ◌∷◌, arith, leb}
use gem_gate.Text.{Text, codes}
use gem_gate.Table.{find_name, assign}
use gem_gate.LogRing.{LogEntry}
use gem_gate.Terminal.Stats.{
  Stats, StatsSnapshot, stats_of, counted, add_if, recorded, noted, summarize_from, summarize,
  new_stats, safe_text, route_key,
}

abbrev pub all_requests : List (Text × Stats) → ℕ
all_requests [] = 0
all_requests ((name, s) ∷ rest) = s.requests + all_requests rest

abbrev pub all_errors : List (Text × Stats) → ℕ
all_errors [] = 0
all_errors ((name, s) ∷ rest) = s.errors + all_errors rest

-- An entry that is assigned takes the place of the old one in the sum.
all_requests-assign :
    (m : List (Text × Stats)) (name : Text) (s : Stats)
    → all_requests (assign m name s) + (stats_of (find_name m name)).requests
      ≡ all_requests m + s.requests
unfolding assign find_name
all_requests-assign [] name s = omega arith
all_requests-assign ((n, t) ∷ rest) name s = ground (arith, all_requests-assign rest name s)

all_errors-assign :
    (m : List (Text × Stats)) (name : Text) (s : Stats)
    → all_errors (assign m name s) + (stats_of (find_name m name)).errors ≡ all_errors m + s.errors
unfolding assign find_name
all_errors-assign [] name s = omega arith
all_errors-assign ((n, t) ∷ rest) name s = ground (arith, all_errors-assign rest name s)

pub record IsBalanced (s : StatsSnapshot) : Type 0 where
  pub client_requests : all_requests s.clients ≡ s.requests
  pub route_requests : all_requests s.routes ≡ s.requests
  pub client_errors : all_errors s.clients ≡ s.four_xx + s.five_xx
  pub route_errors : all_errors s.routes ≡ s.four_xx + s.five_xx

-- One entry is counted under the name.
counted-all :
    (m : List (Text × Stats)) (name : Text) (e : LogEntry)
    → let next = assign m name (counted e (stats_of (find_name m name))) in
      (all_requests next ≡ all_requests m + 1)
      × (all_errors next ≡ add_if (leb 400 e.status) (all_errors m))
unfolding counted
counted-all m name e =
    let s = counted e (stats_of (find_name m name)) in
    ground (arith, all_requests-assign m name s, all_errors-assign m name s)

recorded-IsBalanced :
    (now : ℕ) (e : LogEntry) (s : StatsSnapshot) → IsBalanced s → IsBalanced (recorded now e s)
unfolding recorded
recorded-IsBalanced now e s b = ground (
  arith,
  counted-all s.clients (safe_text e.client (codes "unknown")) e,
  counted-all s.routes (route_key e.path) e,
)

noted-IsBalanced :
    (now : ℕ) (e : LogEntry) (s : StatsSnapshot) → IsBalanced s → IsBalanced (noted now e s)
unfolding noted
noted-IsBalanced now e s b = ground (arith, recorded-IsBalanced now e s b)

summarize_from-IsBalanced :
    (now : ℕ) (s : StatsSnapshot) (es : List LogEntry)
    → IsBalanced s
    → IsBalanced (summarize_from now s es)
unfolding summarize_from
summarize_from-IsBalanced now s [] b = b
summarize_from-IsBalanced now s (e ∷ es) b =
    summarize_from-IsBalanced now (noted now e s) es (noted-IsBalanced now e s b)

-- Whatever is logged, the clients' requests add up to all requests, and so do the routes'; the
-- clients' errors add up to the answers of the classes 4xx and 5xx, and so do the routes'.
pub summarize-IsBalanced : (now : ℕ) (logs : List LogEntry) → IsBalanced (summarize now logs)
unfolding summarize
summarize-IsBalanced now logs =
    summarize_from-IsBalanced now new_stats logs (unfold new_stats in omega arith)
