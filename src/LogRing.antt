-- ===== src/LogRing.antt =====
-- internal/gateway/logring.go: the ring of recent log entries. `Add` takes the current time as an
-- argument; the lock makes each method one step.
pub mod Recent
mod Tests
use gem_gate.Prelude.{
  ℕ, zero, suc, ◌-◌, ℤ, pos, List, [], ◌∷◌, ◌++◌, leb, ltb, ◌==◌, if◌then◌else◌, length, drop,
}
use gem_gate.Text.{Text, codes, is_empty}

pub record LogEntry : Type 0 where
  pub time : ℕ
  pub level : Text
  pub client : Text
  pub client_ip : Text
  pub provider : Text
  pub method : Text
  pub path : Text
  pub status : ℕ
  pub bytes : ℕ
  pub duration : ℕ
  pub request_id : Text
  pub message : Text

pub record LogRing : Type 0 where
  pub entries : List LogEntry
  pub limit : ℕ

-- `if limit <= 0 { limit = 300 }`
abbrev pub ring_limit : ℤ → ℕ
ring_limit z = elim z [ pos (suc n) ↦ suc n | _ ↦ 300 ]

unfoldable pub new_log_ring : ℤ → LogRing
new_log_ring limit = record { entries = []; limit = ring_limit limit }

-- The defaults for the time and the level.
unfoldable pub stamped : LogEntry → ℕ → LogEntry
stamped e now = record e {
  time = if e.time == 0 then now else e.time;
  level = if is_empty e.level then codes "info" else e.level;
}

-- In the full ring every entry moves one place down and the new one takes the last place. The ring
-- is never full and empty at once, since its limit is positive.
unfoldable pub add : LogRing → LogEntry → ℕ → LogRing
add r e now =
    if leb r.limit (length r.entries)
    then record r { entries = drop 1 r.entries ++ stamped e now ∷ [] }
    else record r { entries = r.entries ++ stamped e now ∷ [] }

resize_to : LogRing → ℕ → LogRing
resize_to r limit =
    if limit == r.limit
    then r
    else if ltb limit (length r.entries)
    then record { entries = drop (length r.entries - limit) r.entries; limit = limit }
    else record { entries = r.entries; limit = limit }

unfoldable pub resize : LogRing → ℤ → LogRing
unfolding resize_to
resize r limit = resize_to r (ring_limit limit)

unfoldable pub snapshot : LogRing → List LogEntry
snapshot r = r.entries
