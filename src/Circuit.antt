-- ===== src/Circuit.antt =====
-- internal/gateway/circuitbreaker.go. A method that changes `*circuitBreaker` returns the new record;
-- the mutex makes each call one step. A time is the number of nanoseconds since Go's zero time, so
-- `time.Time{}` is 0; a duration is a number of nanoseconds, an integer where it may be negative.
pub mod Invariant
pub mod Retry
pub mod Streak
pub mod Requests
pub mod Reload
mod Tests
use gem_gate.Prelude.{
  ℕ, ◌+◌, ◌-◌, ◌*◌, ℤ, pos, suc, Bool, true, false, ◌&&◌, ◌||◌, not, ltb, leb, Option, none, some,
  if◌then◌else◌, is_positive,
}

pub data CircuitState : Type 0 where
  circuit_closed circuit_open circuit_half_open : CircuitState

pub record CircuitPolicy : Type 0 where
  pub enabled : Bool
  pub failure_threshold : ℤ
  pub open_for : ℤ

pub record CircuitPermit : Type 0 where
  pub probe : Bool

-- `failureThreshold` and `openFor` are positive once a breaker is made, hence natural numbers.
pub record CircuitBreaker : Type 0 where
  pub enabled : Bool
  pub state : CircuitState
  pub failures : ℕ
  pub failure_threshold : ℕ
  pub open_for : ℕ
  pub open_until : ℕ

-- `State` of a snapshot: a circuit state's text, or "disabled".
pub data SnapshotState : Type 0 where
  disabled : SnapshotState
  in_state : CircuitState → SnapshotState

pub record CircuitSnapshot : Type 0 where
  pub state : SnapshotState
  pub failures : ℕ
  pub retry_after : ℕ

abbrev pub second : ℕ
second = 1000000000

abbrev pub default_circuit_failure_threshold : ℕ
default_circuit_failure_threshold = 5

abbrev pub default_circuit_open_for : ℕ
default_circuit_open_for = 30 * second

abbrev pub default_circuit_policy : CircuitPolicy
default_circuit_policy = record {
  enabled = true;
  failure_threshold = pos default_circuit_failure_threshold;
  open_for = pos default_circuit_open_for;
}

-- `if z <= 0 { z = d }`
abbrev pub or_default : ℤ → ℕ → ℕ
or_default z d = elim z [ pos (suc n) ↦ suc n | _ ↦ d ]

unfoldable pub new_circuit_breaker_with_policy : CircuitPolicy → CircuitBreaker
new_circuit_breaker_with_policy policy = record {
  enabled = policy.enabled;
  state = circuit_closed;
  failures = 0;
  failure_threshold = or_default policy.failure_threshold default_circuit_failure_threshold;
  open_for = or_default policy.open_for default_circuit_open_for;
  open_until = 0;
}

unfoldable pub new_circuit_breaker : ℤ → ℤ → CircuitBreaker
unfolding new_circuit_breaker_with_policy
new_circuit_breaker threshold open_for =
    let policy = default_circuit_policy in
    let counted =
      if is_positive threshold then record policy { failure_threshold = threshold } else policy in
    new_circuit_breaker_with_policy
      (if is_positive open_for then record counted { open_for = open_for } else counted)

abbrev pub is_open : CircuitState → Bool
is_open circuit_open = true
is_open _ = false

abbrev pub is_closed : CircuitState → Bool
is_closed circuit_closed = true
is_closed _ = false

-- The two adjustments after the state is copied; `now.Before(t)` is `ltb now t`.
reopen : CircuitBreaker → ℕ → CircuitBreaker
reopen next now =
    if is_closed next.state && leb next.failure_threshold next.failures
    then record next { state = circuit_open; open_until = now + next.open_for }
    else next

expire : CircuitBreaker → ℕ → CircuitBreaker
expire next now =
    if is_open next.state && not (ltb now next.open_until)
    then record next { state = circuit_half_open; open_until = 0 }
    else next

-- `none` is the nil receiver.
unfoldable pub clone_with_policy : Option CircuitBreaker → CircuitPolicy → ℕ → CircuitBreaker
unfolding new_circuit_breaker_with_policy reopen expire
clone_with_policy none policy now = new_circuit_breaker_with_policy policy
clone_with_policy (some b) policy now =
    let next = new_circuit_breaker_with_policy policy in
    if not next.enabled || not b.enabled
    then next
    else reopen
        (expire (record next { state = b.state; failures = b.failures; open_until = b.open_until })
          now)
        now

-- The result is the breaker, the permit, whether the request is admitted, and the retry delay.
pub record Admission : Type 0 where
  pub permit : CircuitPermit
  pub allowed : Bool
  pub retry_after : ℕ

allow_in : CircuitState → CircuitBreaker → ℕ → CircuitBreaker × Admission
allow_in circuit_open b now =
    if ltb now b.open_until
    then (
      b,
      record {
        permit = record { probe = false };
        allowed = false;
        retry_after = b.open_until - now;
      },
    )
    else (
      record b { state = circuit_half_open },
      record { permit = record { probe = true }; allowed = true; retry_after = 0 },
    )
allow_in circuit_half_open b now =
    (b, record { permit = record { probe = false }; allowed = false; retry_after = second })
allow_in circuit_closed b now =
    (b, record { permit = record { probe = false }; allowed = true; retry_after = 0 })

unfoldable pub allow : CircuitBreaker → ℕ → CircuitBreaker × Admission
unfolding allow_in
allow b now =
    if not b.enabled
    then (b, record { permit = record { probe = false }; allowed = true; retry_after = 0 })
    else allow_in b.state b now

finish_probe : CircuitBreaker → Bool → ℕ → CircuitBreaker
finish_probe b failed now =
    if failed
    then record b {
      state = circuit_open;
      failures = b.failure_threshold;
      open_until = now + b.open_for;
    }
    else record b { state = circuit_closed; failures = 0; open_until = 0 }

finish_ordinary : CircuitBreaker → Bool → ℕ → CircuitBreaker
finish_ordinary b failed now =
    if not (is_closed b.state)
    then b
    else if not failed
    then record b { failures = 0 }
    else (let counted = record b { failures = b.failures + 1 } in
        if leb counted.failure_threshold counted.failures
        then record counted { state = circuit_open; open_until = now + counted.open_for }
        else counted)

unfoldable pub finish : CircuitBreaker → CircuitPermit → Bool → ℕ → CircuitBreaker
unfolding finish_probe finish_ordinary
finish b permit failed now =
    if not b.enabled
    then b
    else if permit.probe
    then finish_probe b failed now
    else finish_ordinary b failed now

snapshot_in : CircuitBreaker → ℕ → CircuitSnapshot
snapshot_in b now =
    if is_open b.state
    then if ltb now b.open_until
      then record {
        state = in_state circuit_open;
        failures = b.failures;
        retry_after = b.open_until - now;
      }
      else record { state = in_state circuit_half_open; failures = b.failures; retry_after = 0 }
    else record { state = in_state b.state; failures = b.failures; retry_after = 0 }

unfoldable pub snapshot : CircuitBreaker → ℕ → CircuitSnapshot
unfolding snapshot_in
snapshot b now =
    if not b.enabled
    then record { state = disabled; failures = 0; retry_after = 0 }
    else snapshot_in b now
