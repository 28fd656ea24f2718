-- ===== src/Circuit/Requests.antt =====
-- internal/gateway/circuitbreaker.go with the requests that use one breaker: RoundTrip of
-- provider_metrics_transport.go calls `allow`, and `finish` with the permit when the exchange ends.
-- The steps of all requests interleave in any order.
use gem_gate.Prelude.{
  ℕ, ◌+◌, ◌≤◌, Bool, true, false, ◌≡◌, sym, ap, ◌∙◌, ◌↔◌, List, [], ◌∷◌, ◌++◌, if◌then◌else◌, arith,
}
use gem_gate.Circuit.{
  CircuitBreaker, CircuitPolicy, CircuitPermit, CircuitState, circuit_closed, circuit_half_open,
  new_circuit_breaker_with_policy, allow, finish,
}

-- A breaker and the permits of the requests in flight.
pub record System : Type 0 where
  pub breaker : CircuitBreaker
  pub permits : List CircuitPermit

pub data Step : System → System → Type 0 where
  admit :
      (s : System) (now : ℕ)
      → (allow s.breaker now).1.allowed ≡ true
      → Step s (record {
        breaker = (allow s.breaker now).0;
        permits = (allow s.breaker now).1.permit ∷ s.permits;
      })
  refuse :
      (s : System) (now : ℕ)
      → (allow s.breaker now).1.allowed ≡ false
      → Step s (record s { breaker = (allow s.breaker now).0 })
  complete :
      (s : System) (before after : List CircuitPermit) (permit : CircuitPermit) (failed : Bool)
      (now : ℕ)
      → s.permits ≡ before ++ permit ∷ after
      → Step s (record { breaker = finish s.breaker permit failed now; permits = before ++ after })

pub data Reach (s : System) : System → Type 0 where
  here : Reach s s
  next : {t u : System} → Reach s t → Step t u → Reach s u

abbrev pub start : CircuitBreaker → System
start b = record { breaker = b; permits = [] }

abbrev pub probes : List CircuitPermit → ℕ
probes [] = 0
probes (p ∷ ps) = (if p.probe then 1 else 0) + probes ps

probes-append : (ps qs : List CircuitPermit) → probes (ps ++ qs) ≡ probes ps + probes qs
probes-append [] qs = omega arith
probes-append (p ∷ ps) qs = omega (arith, probes-append ps qs)

abbrev pub probing : CircuitState → ℕ
probing circuit_half_open = 1
probing _ = 0

-- The breaker is half-open exactly while one probe is in flight, and no other probe is.
pub record OneProbe (s : System) : Type 0 where
  pub counted : probes s.permits ≡ probing s.breaker.state
  pub disabled_closed : s.breaker.enabled ≡ false → s.breaker.state ≡ circuit_closed

allow-OneProbe :
    (b : CircuitBreaker) (now n : ℕ)
    → n ≡ probing b.state
    → (b.enabled ≡ false → b.state ≡ circuit_closed)
    → let r = allow b now in
      ((r.1.allowed ≡ true → (if r.1.permit.probe then 1 else 0) + n ≡ probing r.0.state)
        × (r.1.allowed ≡ false → n ≡ probing r.0.state)
        × (r.0.enabled ≡ false → r.0.state ≡ circuit_closed))
unfolding allow
allow-OneProbe b now n h d = ground arith

finish-OneProbe :
    (b : CircuitBreaker) (permit : CircuitPermit) (failed : Bool) (now n : ℕ)
    → (if permit.probe then 1 else 0) + n ≡ probing b.state
    → (b.enabled ≡ false → b.state ≡ circuit_closed)
    → let c = finish b permit failed now in
      (n ≡ probing c.state) × (c.enabled ≡ false → c.state ≡ circuit_closed)
unfolding finish
finish-OneProbe b permit failed now n h d = ground arith

pub Step-OneProbe : {s t : System} → Step s t → OneProbe s → OneProbe t
Step-OneProbe (admit s now ok) v =
    let r = allow-OneProbe s.breaker now (probes s.permits) v.counted v.disabled_closed in
    record { counted = r.0 ok; disabled_closed = r.2 }
Step-OneProbe (refuse s now no') v =
    let r = allow-OneProbe s.breaker now (probes s.permits) v.counted v.disabled_closed in
    record { counted = r.1 no'; disabled_closed = r.2 }
Step-OneProbe (complete s before after permit failed now e) v =
    let r =
      finish-OneProbe s.breaker permit failed now (probes (before ++ after))
        (omega (
          arith,
          v.counted,
          ap probes e,
          probes-append before (permit ∷ after),
          probes-append before after,
        ))
        v.disabled_closed in
    record { counted = r.0; disabled_closed = r.1 }

pub Reach-OneProbe : {s t : System} → OneProbe s → Reach s t → OneProbe t
Reach-OneProbe v here = v
Reach-OneProbe v (next r st) = Step-OneProbe st (Reach-OneProbe v r)

pub start-OneProbe :
    (policy : CircuitPolicy) → OneProbe (start (new_circuit_breaker_with_policy policy))
unfolding new_circuit_breaker_with_policy
start-OneProbe policy = ground arith

-- However the requests of a new breaker interleave, at most one probe is in flight at any time, and
-- the breaker is half-open exactly while one is.
pub one_probe :
    (policy : CircuitPolicy) {s : System}
    → Reach (start (new_circuit_breaker_with_policy policy)) s
    → (probes s.permits ≤ 1) × ((s.breaker.state ≡ circuit_half_open) ↔ (probes s.permits ≡ 1))
one_probe policy {s} r = bounded s (Reach-OneProbe (start-OneProbe policy) r)
  where
    bounded :
        (s : System)
        → OneProbe s
        → (probes s.permits ≤ 1) × ((s.breaker.state ≡ circuit_half_open) ↔ (probes s.permits ≡ 1))
    bounded s v = ground (arith, v.counted)

admits_when_over :
    (b : CircuitBreaker) (now : ℕ)
    → probing b.state ≡ 0
    → b.open_until ≤ now
    → (allow b now).1.allowed ≡ true
unfolding allow
admits_when_over b now h k = ground arith

-- A breaker made with `new` never locks a provider out: once no request is in flight and the open
-- interval is over, the next request is admitted.
pub quiet_admits :
    (policy : CircuitPolicy) {s : System} (now : ℕ)
    → Reach (start (new_circuit_breaker_with_policy policy)) s
    → s.permits ≡ []
    → s.breaker.open_until ≤ now
    → (allow s.breaker now).1.allowed ≡ true
quiet_admits policy {s} now r quiet over =
    admits_when_over s.breaker now
      (sym (Reach-OneProbe (start-OneProbe policy) r).counted ∙ ap probes quiet) over
