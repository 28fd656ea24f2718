-- ===== src/Circuit/Retry.antt =====
-- internal/gateway/circuitbreaker.go: the retry delay of a refusal, and the snapshot's view of it.
use gem_gate.Prelude.{ℕ, ◌+◌, ◌≤◌, ◌<◌, Bool, true, false, ◌≡◌, ◌↔◌, ◌⊎◌, leb, if◌then◌else◌, arith}
use gem_gate.Circuit.{
  CircuitBreaker, CircuitPermit, circuit_closed, is_open, circuit_open, circuit_half_open, in_state,
  allow, finish, snapshot, second,
}

-- While a breaker is open a refusal's delay is exact: it is positive, and a request at any other
-- time is admitted, as a probe, exactly if it comes no earlier than when the delay is over.
pub allow_retry :
    (b : CircuitBreaker) (now later : ℕ)
    → b.enabled ≡ true
    → b.state ≡ circuit_open
    → (allow b now).1.allowed ≡ false
    → let retry = (allow b now).1.retry_after in
      (0 < retry)
      × ((allow b later).1.allowed ≡ leb (now + retry) later)
      × ((allow b later).1.permit.probe ≡ leb (now + retry) later)
unfolding allow
allow_retry b now later e o h = ground arith

-- The end of an open interval is never further away than `openFor`, at a clock that does not go back.
pub record IsTimely (b : CircuitBreaker) (now : ℕ) : Type 0 where
  pub within : b.state ≡ circuit_open → b.open_until ≤ now + b.open_for

pub IsTimely-allow :
    (b : CircuitBreaker) (now later : ℕ)
    → now ≤ later
    → IsTimely b now
    → IsTimely (allow b later).0 later
unfolding allow
IsTimely-allow b now later h t = ground arith

pub IsTimely-finish :
    (b : CircuitBreaker) (permit : CircuitPermit) (failed : Bool) (now later : ℕ)
    → now ≤ later
    → IsTimely b now
    → IsTimely (finish b permit failed later) later
unfolding finish
IsTimely-finish b permit failed now later h t = ground arith

-- A refusal asks the caller to wait for `openFor` or a second at most.
pub allow_retry_bound :
    (b : CircuitBreaker) (now : ℕ)
    → IsTimely b now
    → ((allow b now).1.retry_after ≤ b.open_for) ⊎ ((allow b now).1.retry_after ≤ second)
unfolding allow
allow_retry_bound b now t = ground arith

-- The snapshot of an enabled breaker agrees with the next call of `allow`: it reads "closed" exactly
-- when that call admits an ordinary request, "open" exactly when the breaker is open and the call is
-- refused, and "half-open" exactly when it is probing already or the call admits the probe; its delay
-- is that of the refusal of an open breaker, and 0 otherwise.
pub snapshot-allow :
    (b : CircuitBreaker) (now : ℕ)
    → b.enabled ≡ true
    → let r = (allow b now).1 in
      (((snapshot b now).state ≡ in_state circuit_closed)
        ↔ ((r.allowed ≡ true) × (r.permit.probe ≡ false)))
      × (((snapshot b now).state ≡ in_state circuit_open)
          ↔ ((r.allowed ≡ false) × (b.state ≡ circuit_open)))
      × (((snapshot b now).state ≡ in_state circuit_half_open)
          ↔ ((b.state ≡ circuit_half_open) ⊎ (r.permit.probe ≡ true)))
      × ((snapshot b now).retry_after ≡ (if is_open b.state then r.retry_after else 0))
unfolding snapshot allow
snapshot-allow b now e = ground arith
