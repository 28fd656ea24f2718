-- ===== src/Transport/Tests.antt =====
-- The theorems about the transport of one provider, at concrete inputs.
use gem_gate.Prelude.{Bool, ℕ, true, false, ◌≡◌, ◌*◌, List, [], ◌∷◌}
use gem_gate.Text.{codes}
use gem_gate.Circuit.{CircuitBreaker, CircuitPermit, circuit_open, second}
use gem_gate.Metrics.{new_metrics}
use gem_gate.Transport.{
  ProviderTransport, BodyCall, read_more, read_eof, close_ok, end_exchange, body_ended, call_all,
}
use gem_gate.Transport.Endings.{call_all_once}

abbrev tripped : CircuitBreaker
tripped = record {
  enabled = true;
  state = circuit_open;
  failures = 5;
  failure_threshold = 5;
  open_for = 2 * second;
  open_until = 3 * second;
}

abbrev transport : ProviderTransport
transport = record { provider = codes "groq"; breaker = tripped; metrics = new_metrics }

abbrev probe : CircuitPermit
probe = record { probe = true }

abbrev calls : List (BodyCall × Bool × ℕ)
calls = (read_more, false, 5) ∷ (read_eof, false, 6) ∷ (close_ok, true, 7) ∷ []

call_all_once_example :
    (call_all probe 502 4 (record { transport = transport; done = false }) calls).transport
    ≡ end_exchange transport probe (body_ended 502 false false) 2 6
call_all_once_example = call_all_once probe 502 4 transport calls
