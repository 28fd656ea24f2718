-- ===== src/LogRing/Tests.antt =====
-- A small ring, and the theorems at concrete inputs.
use gem_gate.Prelude.{ℕ, ◌≤◌, pos, negsuc, ◌≡◌, refl, List, [], ◌∷◌, length}
use gem_gate.Text.{codes}
use gem_gate.LogRing.{LogEntry, LogRing, new_log_ring, add, snapshot, stamped}
use gem_gate.LogRing.Recent.{Call, adds, resizes, run, all_logged, IsLast, snapshot_recent}

abbrev entry : ℕ → LogEntry
entry time = record {
  time = time;
  level = [];
  client = codes "system";
  client_ip = [];
  provider = [];
  method = [];
  path = [];
  status = 0;
  bytes = 0;
  duration = 0;
  request_id = [];
  message = codes "started";
}

abbrev calls : List Call
calls = adds (entry 1) 9 ∷ adds (entry 0) 10 ∷ adds (entry 3) 11 ∷ resizes (pos 1) ∷ []

abbrev two : LogRing
two = record { entries = entry 4 ∷ entry 5 ∷ []; limit = 2 }

default_limit : new_log_ring (negsuc 4) ≡ new_log_ring (pos 300)
unfolding new_log_ring
default_limit = refl

-- An entry without a time takes the current one.
overwrites :
    snapshot (add two (entry 0) 8) ≡ entry 5 ∷ record (entry 8) { level = codes "info" } ∷ []
unfolding snapshot add stamped
overwrites = refl

snapshot_recent_example :
    IsLast (snapshot (run (new_log_ring (pos 2)) calls)) (all_logged [] calls)
    × (length (snapshot (run (new_log_ring (pos 2)) calls)) ≡ 1)
    × (length (snapshot (run (new_log_ring (pos 2)) calls))
        ≤ (run (new_log_ring (pos 2)) calls).limit)
snapshot_recent_example = snapshot_recent (pos 2) calls
