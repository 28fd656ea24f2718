-- ===== src/Terminal/Stats.antt =====
-- internal/tui/stats.go, with `routeKey`, `safeText` and the bars of `sparkline` of
-- internal/tui/helpers.go: what the operator's screen computes from the recent requests. A time is a
-- number of nanoseconds, and the sums of bytes and durations are those of an int64 that does not
-- overflow. The success rate is shown from its two counts; the latencies and the trend are computed
-- of the durations and the buckets, which the snapshot keeps.
pub mod Percentile
pub mod Balance
use gem_gate.Prelude.{
  ℕ, zero, suc, ◌+◌, ◌-◌, ◌*◌, ◌/◌, Bool, true, false, not, ◌&&◌, ◌||◌, Option, none, some, List,
  [], ◌∷◌, ◌++◌, map, leb, ltb, ◌==◌, if◌then◌else◌, length,
}
use gem_gate.Text.{Text, codes, text_eq, is_empty, trim_space, has_prefix, split}
use gem_gate.Table.{find_name, assign}
use gem_gate.LogRing.{LogEntry}
use gem_gate.Metrics.{is_2xx, is_4xx, is_5xx}
use gem_gate.Sorting.{sort}
use gem_gate.Sorting.Ranks.{get_elem?}

-- `clientStats` and `routeStats`, which has no `BytesOut`.
pub record Stats : Type 0 where
  pub requests : ℕ
  pub errors : ℕ
  pub bytes_out : ℕ
  pub durations : List ℕ

pub record StatsSnapshot : Type 0 where
  pub requests : ℕ
  pub last_minute : ℕ
  pub two_xx : ℕ
  pub four_xx : ℕ
  pub five_xx : ℕ
  pub last : Option LogEntry
  pub clients : List (Text × Stats)
  pub routes : List (Text × Stats)
  pub durations : List ℕ
  pub buckets : List ℕ

abbrev pub minute : ℕ
minute = 60 * 1000000000

abbrev pub bucket_count : ℕ
bucket_count = 20

abbrev pub zeros : ℕ → List ℕ
zeros zero = []
zeros (suc n) = 0 ∷ zeros n

abbrev pub no_stats : Stats
no_stats = record { requests = 0; errors = 0; bytes_out = 0; durations = [] }

-- The entry of a map, or the zero value.
abbrev pub stats_of : Option Stats → Stats
stats_of none = no_stats
stats_of (some s) = s

unfoldable pub new_stats : StatsSnapshot
new_stats = record {
  requests = 0;
  last_minute = 0;
  two_xx = 0;
  four_xx = 0;
  five_xx = 0;
  last = none;
  clients = [];
  routes = [];
  durations = [];
  buckets = zeros bucket_count;
}

unfoldable pub safe_text : Text → Text → Text
safe_text v fallback = if is_empty (trim_space v) then fallback else v

abbrev first_part : List Text → Text
first_part [] = []
first_part (part ∷ parts) = part

unfoldable pub route_key : Text → Text
route_key whole =
    let path = first_part (split b'?' whole) in
    if text_eq path (codes "/_metrics")
    then codes "metrics"
    else if text_eq path (codes "/_config")
    then codes "config"
    else if text_eq path (codes "/_healthz")
    then codes "health"
    else if has_prefix path (codes "/providers/")
    then codes "provider"
    else if has_prefix path (codes "/v1beta/openai/") || has_prefix path (codes "/v1/openai/")
    then codes "openai"
    else if has_prefix path (codes "/v1beta/") || has_prefix path (codes "/v1/")
    then codes "native"
    else codes "other"

abbrev pub add_if : Bool → ℕ → ℕ
add_if b n = if b then n + 1 else n

-- `append(durations, d)` if `d > 0`
abbrev pub with_duration : List ℕ → ℕ → List ℕ
with_duration ds d = if ltb 0 d then ds ++ d ∷ [] else ds

unfoldable pub counted : LogEntry → Stats → Stats
counted e s = record {
  requests = s.requests + 1;
  errors = add_if (leb 400 e.status) s.errors;
  bytes_out = s.bytes_out + e.bytes;
  durations = with_duration s.durations e.duration;
}

-- `buckets[i]++`; the index is in range.
unfoldable pub bump_at : ℕ → List ℕ → List ℕ
bump_at i [] = []
bump_at zero (b ∷ bs) = (b + 1) ∷ bs
bump_at (suc i) (b ∷ bs) = b ∷ bump_at i bs

-- The bucket of an entry's age in whole minutes, toward zero; an entry of the future has an age of 0
-- for less than a minute, and none is counted from then on.
unfoldable pub in_bucket : ℕ → ℕ → List ℕ → List ℕ
unfolding bump_at
in_bucket now time buckets =
    let ago = (now - time) / minute in
    if leb (now + minute) time
    then buckets
    else if ltb ago bucket_count
    then bump_at (bucket_count - 1 - ago) buckets
    else buckets

-- The loop's body for an entry with a status.
unfoldable pub recorded : ℕ → LogEntry → StatsSnapshot → StatsSnapshot
unfolding counted in_bucket safe_text route_key find_name assign
recorded now e s =
    let name = safe_text e.client (codes "unknown") in
    let route = route_key e.path in
    record {
      requests = s.requests + 1;
      last_minute = add_if (leb (now - e.time) minute) s.last_minute;
      two_xx = add_if (is_2xx e.status) s.two_xx;
      four_xx = add_if (is_4xx e.status) s.four_xx;
      five_xx = add_if (is_5xx e.status) s.five_xx;
      last = some e;
      clients = assign s.clients name (counted e (stats_of (find_name s.clients name)));
      routes = assign s.routes route (counted e (stats_of (find_name s.routes route)));
      durations = with_duration s.durations e.duration;
      buckets = in_bucket now e.time s.buckets;
    }

unfoldable pub noted : ℕ → LogEntry → StatsSnapshot → StatsSnapshot
unfolding recorded
noted now e s =
    if e.status == 0
    then if is_empty e.message then s else record s { last = some e }
    else recorded now e s

summarize_from : ℕ → StatsSnapshot → List LogEntry → StatsSnapshot
unfolding noted
summarize_from now s [] = s
summarize_from now s (e ∷ es) = summarize_from now (noted now e s) es

unfoldable pub summarize : ℕ → List LogEntry → StatsSnapshot
unfolding summarize_from new_stats
summarize now logs = summarize_from now new_stats logs

unfoldable pub percentile : List ℕ → ℕ → Option ℕ
unfolding sort
percentile [] p = some 0
percentile (v ∷ vs) p =
    let cp = sort leb (v ∷ vs) in
    let idx = (length cp * p + 99) / 100 in get_elem? cp ((if idx == 0 then 1 else idx) - 1)

abbrev pub total : List ℕ → ℕ
total [] = 0
total (v ∷ vs) = v + total vs

unfoldable pub average_duration : List ℕ → ℕ
average_duration [] = 0
average_duration (v ∷ vs) = total (v ∷ vs) / length (v ∷ vs)

abbrev pub greatest : ℕ → List ℕ → ℕ
greatest most [] = most
greatest most (v ∷ vs) = greatest (if ltb most v then v else most) vs

-- A bar of the sparkline: none for a dot, or the index of one of the eight blocks.
unfoldable pub bar : ℕ → ℕ → Option ℕ
bar most v =
    let idx = (v * 8 - 1) / most in if v == 0 then none else some (if leb 8 idx then 7 else idx)

-- None where nothing is to be shown.
unfoldable pub sparkline : List ℕ → Option (List (Option ℕ))
unfolding bar
sparkline values =
    let most = greatest 0 values in if most == 0 then none else some (map (bar most) values)

abbrev average_latency : StatsSnapshot → ℕ
average_latency s = average_duration s.durations

abbrev p95_latency : StatsSnapshot → Option ℕ
p95_latency s = percentile s.durations 95

abbrev trend : StatsSnapshot → Option (List (Option ℕ))
trend s = sparkline s.buckets
