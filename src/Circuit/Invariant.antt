-- ===== src/Circuit/Invariant.antt =====
-- internal/gateway/circuitbreaker.go: what holds of a breaker between two calls.
use gem_gate.Prelude.{ℕ, ◌<◌, Bool, false, Option, ◌≡◌, arith}
use gem_gate.Circuit.{
  CircuitBreaker, CircuitPolicy, CircuitPermit, circuit_closed, new_circuit_breaker_with_policy,
  clone_with_policy, allow, finish,
}

pub record IsValid (b : CircuitBreaker) : Type 0 where
  pub threshold_pos : 0 < b.failure_threshold
  pub open_for_pos : 0 < b.open_for
  pub closed_below : b.state ≡ circuit_closed → b.failures < b.failure_threshold
  pub disabled_closed : b.enabled ≡ false → b.state ≡ circuit_closed

pub new-IsValid : (policy : CircuitPolicy) → IsValid (new_circuit_breaker_with_policy policy)
unfolding new_circuit_breaker_with_policy
new-IsValid policy = ground arith

-- A breaker for a new runtime snapshot is valid whatever breaker it copies, the nil one included:
-- its threshold and interval are positive, if it is closed it has seen fewer failures than its
-- threshold, and if it is disabled it is closed.
pub clone-IsValid :
    (b : Option CircuitBreaker) (policy : CircuitPolicy) (now : ℕ)
    → IsValid (clone_with_policy b policy now)
unfolding clone_with_policy
clone-IsValid b policy now = ground arith

pub allow-IsValid : (b : CircuitBreaker) (now : ℕ) → IsValid b → IsValid (allow b now).0
unfolding allow
allow-IsValid b now v = ground arith

-- A completion keeps a breaker valid: its threshold and interval stay positive, a closed breaker
-- has seen fewer failures than its threshold, and a disabled one is closed.
pub finish-IsValid :
    (b : CircuitBreaker) (permit : CircuitPermit) (failed : Bool) (now : ℕ)
    → IsValid b
    → IsValid (finish b permit failed now)
unfolding finish
finish-IsValid b permit failed now v = ground arith
