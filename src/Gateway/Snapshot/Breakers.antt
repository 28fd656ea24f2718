-- ===== src/Gateway/Snapshot/Breakers.antt =====
-- internal/gateway/runtime.go: the breaker that a provider is to have, from its settings and from the
-- breaker that it had.
use gem_gate.Prelude.{
  ℕ, zero, suc, ◌+◌, is_positive, true, ◌&&◌, ◌≡◌, refl, Option, none, some, ℤ, pos, negsuc, List,
  leb, ltb, if◌then◌else◌, arith,
}
use gem_gate.Text.{Text}
use gem_gate.Table.{find_name}
use gem_gate.Circuit.{
  CircuitBreaker, CircuitPolicy, CircuitState, circuit_closed, circuit_open, circuit_half_open,
  clone_with_policy, new_circuit_breaker_with_policy,
}
use gem_gate.Config.{CircuitBreakerRuntime}
use gem_gate.Gateway.Snapshot.{breaker_for, circuit_policy_for}

abbrev positive_or : ℤ → ℕ → ℕ
positive_or (pos zero) d = d
positive_or (pos (suc n)) d = suc n
positive_or (negsuc n) d = d

-- A closed breaker of the settings; without settings it is on, trips at five failures and stays open
-- for 30 seconds, and a number that is not positive stands for these.
abbrev pub fresh_of : Option CircuitBreakerRuntime → CircuitBreaker
fresh_of none = record {
  enabled = true;
  state = circuit_closed;
  failures = 0;
  failure_threshold = 5;
  open_for = 30000000000;
  open_until = 0;
}
fresh_of (some c) = record {
  enabled = c.enabled;
  state = circuit_closed;
  failures = 0;
  failure_threshold = positive_or c.failure_threshold 5;
  open_for = positive_or c.open_for 30000000000;
  open_until = 0;
}

-- What a breaker takes over, by its state: a closed one the failures, which trip it where they reach the
-- new threshold; an open one the rest of its interval, after which it is half-open; a half-open one that
-- it is.
abbrev pub taken_over : CircuitBreaker → CircuitState → ℕ → ℕ → ℕ → CircuitBreaker
taken_over b circuit_closed failures until now =
    if leb b.failure_threshold failures
    then record b { state = circuit_open; failures = failures; open_until = now + b.open_for }
    else record b { failures = failures; open_until = until }
taken_over b circuit_open failures until now =
    if ltb now until
    then record b { state = circuit_open; failures = failures; open_until = until }
    else record b { state = circuit_half_open; failures = failures; open_until = 0 }
taken_over b circuit_half_open failures until now = record b {
  state = circuit_half_open;
  failures = failures;
  open_until = until;
}

-- The breaker that a provider with the settings is to have: that of the settings, which takes over
-- from the one that the provider had where both are on.
abbrev pub due : Option CircuitBreakerRuntime → Option CircuitBreaker → ℕ → CircuitBreaker
due settings none now = fresh_of settings
due settings (some old) now =
    if (fresh_of settings).enabled && old.enabled
    then taken_over (fresh_of settings) old.state old.failures old.open_until now
    else fresh_of settings

module _ (circuits : List (Text × CircuitBreakerRuntime)) (name : Text) where
  new-fresh_of :
      (settings : Option CircuitBreakerRuntime)
      → find_name circuits name ≡ settings
      → new_circuit_breaker_with_policy (circuit_policy_for circuits name) ≡ fresh_of settings
  unfolding new_circuit_breaker_with_policy circuit_policy_for
  new-fresh_of none h = rw h refl
  new-fresh_of (some c) h = rw h (positive c.failure_threshold c.open_for)
    where
      positive :
          (t o : ℤ)
          → new_circuit_breaker_with_policy (record {
            enabled = c.enabled;
            failure_threshold = if is_positive t then t else pos 5;
            open_for = if is_positive o then o else pos 30000000000;
          })
            ≡ record {
              enabled = c.enabled;
              state = circuit_closed;
              failures = 0;
              failure_threshold = positive_or t 5;
              open_for = positive_or o 30000000000;
              open_until = 0;
            }
      positive (pos zero) (pos zero) = refl
      positive (pos zero) (pos (suc n)) = refl
      positive (pos zero) (negsuc n) = refl
      positive (pos (suc m)) (pos zero) = refl
      positive (pos (suc m)) (pos (suc n)) = refl
      positive (pos (suc m)) (negsuc n) = refl
      positive (negsuc m) (pos zero) = refl
      positive (negsuc m) (pos (suc n)) = refl
      positive (negsuc m) (negsuc n) = refl

-- A copy is the new breaker, or takes over the state of the old one.
copied :
    (fresh : CircuitBreaker) (policy : CircuitPolicy) (old : CircuitBreaker) (now : ℕ)
    → new_circuit_breaker_with_policy policy ≡ fresh
    → clone_with_policy (some old) policy now ≡ (
        if fresh.enabled && old.enabled
        then taken_over fresh old.state old.failures old.open_until now
        else fresh)
unfolding clone_with_policy
copied fresh policy old now h = by_state old.state refl
  where
    by_state :
        (s : CircuitState)
        → old.state ≡ s
        → clone_with_policy (some old) policy now ≡ (
            if fresh.enabled && old.enabled
            then taken_over fresh s old.failures old.open_until now
            else fresh)
    by_state circuit_closed e = ground (arith, h, e)
    by_state circuit_open e = ground (arith, h, e)
    by_state circuit_half_open e = ground (arith, h, e)

pub breaker_for-due :
    (circuits : List (Text × CircuitBreakerRuntime)) (previous : List (Text × CircuitBreaker))
    (name : Text) (now : ℕ)
    → breaker_for previous name (circuit_policy_for circuits name) now
      ≡ due (find_name circuits name) (find_name previous name) now
unfolding breaker_for
breaker_for-due circuits previous name now = by_old (find_name previous name)
  where
    by_old :
        (o : Option CircuitBreaker)
        → (elim o [
          | none ↦ new_circuit_breaker_with_policy (circuit_policy_for circuits name)
          | some old ↦ clone_with_policy (some old) (circuit_policy_for circuits name) now
        ])
          ≡ due (find_name circuits name) o now
    by_old none = new-fresh_of circuits name (find_name circuits name) refl
    by_old (some old) =
        copied (fresh_of (find_name circuits name)) (circuit_policy_for circuits name) old now
          (new-fresh_of circuits name (find_name circuits name) refl)
