-- ===== src/Transport/RetryHint.antt =====
-- internal/gateway/provider_metrics_transport.go: the Retry-After of a refusal.
use gem_gate.Prelude.{ℕ, ◌+◌, ◌-◌, ◌*◌, ◌≤◌, ◌<◌, true, false, ◌≡◌, arith}
use gem_gate.Circuit.{CircuitBreaker, circuit_open, second, allow}
use gem_gate.Circuit.Retry.{allow_retry}
use gem_gate.Transport.{retry_seconds}

-- The seconds are the least number that covers the delay.
pub retry_seconds_ceiling :
    (retry_after : ℕ)
    → 0 < retry_after
    → (retry_after ≤ retry_seconds retry_after * second)
      × ((retry_seconds retry_after - 1) * second < retry_after)
unfolding retry_seconds
retry_seconds_ceiling retry_after h = ground arith

-- A request that an open breaker refuses is admitted when the client comes back as Retry-After tells
-- it, or later, and Retry-After asks for less than a second more than is needed.
pub retry_seconds_sufficient :
    (b : CircuitBreaker) (now later : ℕ)
    → b.enabled ≡ true
    → b.state ≡ circuit_open
    → (allow b now).1.allowed ≡ false
    → now + retry_seconds (allow b now).1.retry_after * second ≤ later
    → ((allow b later).1.allowed ≡ true)
      × (retry_seconds (allow b now).1.retry_after * second < (allow b now).1.retry_after + second)
retry_seconds_sufficient b now later e o refused waited =
    let r = allow_retry b now later e o refused in
    let c = retry_seconds_ceiling (allow b now).1.retry_after r.0 in ground (arith, r, c)
