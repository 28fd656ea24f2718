-- ===== src/Circuit/Tests.antt =====
-- Runs of a breaker, and the theorems of its modules at concrete inputs.
use gem_gate.Prelude.{◌*◌, ◌≤◌, pos, negsuc, true, false, ◌≡◌, refl, ◌↔◌, inr, some, [], ◌∷◌, arith}
use gem_gate.Circuit.{
  CircuitBreaker, CircuitPolicy, circuit_open, circuit_half_open, is_open,
  new_circuit_breaker_with_policy, new_circuit_breaker, clone_with_policy, allow, finish, second,
}
use gem_gate.Circuit.Invariant.{IsValid, new-IsValid}
use gem_gate.Circuit.Streak.{finish_all, streak_trips}
use gem_gate.Circuit.Requests.{System, here, next, admit, start, probes, one_probe}
use gem_gate.Circuit.Reload.{reload_locks_out}

abbrev policy : CircuitPolicy
policy = record { enabled = true; failure_threshold = pos 2; open_for = pos 10 }

-- Open since time 5.
abbrev tripped : CircuitBreaker
tripped = record {
  enabled = true;
  state = circuit_open;
  failures = 2;
  failure_threshold = 2;
  open_for = 10;
  open_until = 15;
}

defaults : new_circuit_breaker (negsuc 0) (pos 0) ≡ new_circuit_breaker (pos 5) (pos (30 * second))
unfolding new_circuit_breaker
defaults = refl

two_failures_trip :
    finish_all (new_circuit_breaker_with_policy policy) ((true, 4) ∷ (true, 5) ∷ []) ≡ tripped
unfolding finish_all finish new_circuit_breaker_with_policy
two_failures_trip = refl

tripped-IsValid : IsValid tripped
tripped-IsValid = ground arith

fresh : CircuitBreaker
unfolding new_circuit_breaker_with_policy
fresh = new_circuit_breaker_with_policy policy

-- The second failure trips, and the third, at 9, changes nothing.
streak_trips_example :
    (is_open (finish_all fresh ((true, 4) ∷ (true, 5) ∷ (true, 9) ∷ [])).state ≡ true)
    × (finish_all fresh ((true, 4) ∷ (true, 5) ∷ (true, 9) ∷ []) ≡ tripped)
unfolding fresh
streak_trips_example =
    streak_trips fresh ((true, 4) ∷ (true, 5) ∷ (true, 9) ∷ []) (new-IsValid policy) refl refl

abbrev one_request : System
one_request = record {
  breaker = (allow (new_circuit_breaker_with_policy policy) 3).0;
  permits = (allow (new_circuit_breaker_with_policy policy) 3).1.permit ∷ [];
}

one_probe_example :
    (probes one_request.permits ≤ 1)
    × ((one_request.breaker.state ≡ circuit_half_open) ↔ (probes one_request.permits ≡ 1))
unfolding allow new_circuit_breaker_with_policy
one_probe_example =
    one_probe policy (next here (admit (start (new_circuit_breaker_with_policy policy)) 3 refl))

-- An open breaker whose interval ended at 15, reloaded at 20: a request a century later is refused.
reload_locks_out_example :
    (allow (clone_with_policy (some tripped) policy 20) 3000000000000000000).1.allowed ≡ false
reload_locks_out_example =
    reload_locks_out tripped policy 20 3000000000000000000 refl refl (inr (refl, omega arith)) here

-- Without the reload, that request is the probe.
no_reload_probes : (allow tripped 20).1.permit.probe ≡ true
unfolding allow
no_reload_probes = refl
