-- ===== src/Circuit/Streak.antt =====
-- internal/gateway/circuitbreaker.go: when a breaker trips.
use Prim.Native.Nat.{max}
use gem_gate.Prelude.{
  ℕ, ◌+◌, ◌≤◌, ◌<◌, Bool, true, false, ◌≡◌, refl, ◌⊎◌, inl, inr, ◌∙◌, ap, sym, ◌&&◌, Option, none,
  some, Bool-cases, List, [], ◌∷◌, leb, if◌then◌else◌, arith,
}
use gem_gate.Circuit.{CircuitBreaker, circuit_closed, circuit_open, is_open, finish}
use gem_gate.Circuit.Invariant.{IsValid, finish-IsValid}

-- The completions of requests that were admitted while the breaker was closed, in order: whether
-- each failed, and when.
unfoldable pub finish_all : CircuitBreaker → List (Bool × ℕ) → CircuitBreaker
finish_all b [] = b
finish_all b ((failed, now) ∷ rest) =
    finish_all (finish b (record { probe = false }) failed now) rest

-- The longest run of failures, the first of which has `streak` failures before it.
abbrev pub longest_streak : ℕ → List (Bool × ℕ) → ℕ
longest_streak streak [] = streak
longest_streak streak ((failed, now) ∷ rest) =
    max streak (longest_streak (if failed then streak + 1 else 0) rest)

finish_open :
    (b : CircuitBreaker) (failed : Bool) (now : ℕ)
    → is_open b.state ≡ true
    → finish b (record { probe = false }) failed now ≡ b
unfolding finish
finish_open b failed now h = ground arith

module _ (b : CircuitBreaker) (now : ℕ) (e : b.enabled ≡ true) (s : b.state ≡ circuit_closed) where
  finish_success : finish b (record { probe = false }) false now ≡ record b { failures = 0 }
  unfolding finish
  finish_success = rw (e, s) refl

  finish_failure :
      leb b.failure_threshold (b.failures + 1) ≡ false
      → finish b (record { probe = false }) true now ≡ record b { failures = b.failures + 1 }
  unfolding finish
  finish_failure below = rw (e, s, below) refl

  finish_trip :
      b.failures < b.failure_threshold
      → leb b.failure_threshold (b.failures + 1) ≡ true
      → finish b (record { probe = false }) true now ≡ record b {
        state = circuit_open;
        failures = b.failure_threshold;
        open_until = now + b.open_for;
      }
  unfolding finish
  finish_trip below reached =
      let exact : b.failures + 1 ≡ b.failure_threshold = ground (arith, reached, below) in
      rw (e, s, reached)
        (ap
          (λ (n : ℕ). record b {
            enabled = true;
            state = circuit_open;
            failures = n;
            open_until = now + b.open_for;
          })
          exact)

reset-IsValid : (b : CircuitBreaker) → IsValid b → IsValid (record b { failures = 0 })
reset-IsValid b v = record {
  threshold_pos = v.threshold_pos;
  open_for_pos = v.open_for_pos;
  closed_below = λ h. v.threshold_pos;
  disabled_closed = v.disabled_closed;
}

counted-IsValid :
    (b : CircuitBreaker)
    → IsValid b
    → leb b.failure_threshold (b.failures + 1) ≡ false
    → IsValid (record b { failures = b.failures + 1 })
counted-IsValid b v below = record {
  threshold_pos = v.threshold_pos;
  open_for_pos = v.open_for_pos;
  closed_below = λ h. ground (arith, below);
  disabled_closed = v.disabled_closed;
}

finish_all_open :
    (b : CircuitBreaker) (outcomes : List (Bool × ℕ))
    → is_open b.state ≡ true
    → finish_all b outcomes ≡ b
unfolding finish_all
finish_all_open b [] h = refl
finish_all_open b ((failed, now) ∷ rest) h =
    rw (finish_open b failed now h) (finish_all_open b rest h)

-- One completion of a closed, enabled breaker: it stays closed with the streak counted, or opens.
finish_closed :
    (b : CircuitBreaker) (failed : Bool) (now : ℕ)
    → IsValid b
    → b.enabled ≡ true
    → b.state ≡ circuit_closed
    → let c = finish b (record { probe = false }) failed now in
      let streak = if failed then b.failures + 1 else 0 in
      (c.enabled ≡ true)
      × (c.failure_threshold ≡ b.failure_threshold)
      × (((c.state ≡ circuit_closed) × (c.failures ≡ streak) × (streak < b.failure_threshold))
          ⊎ ((is_open c.state ≡ true) × (b.failure_threshold ≤ streak)))
unfolding finish
finish_closed b failed now v e s = ground arith

longest_streak-ge :
    (streak : ℕ) (outcomes : List (Bool × ℕ)) → streak ≤ longest_streak streak outcomes
longest_streak-ge streak [] = omega arith
longest_streak-ge streak ((failed, now) ∷ rest) = omega arith

max_below : (t f r : ℕ) → f < t → leb t (max f r) ≡ leb t r
max_below t f r h = grind arith

trips_when :
    (b : CircuitBreaker) (outcomes : List (Bool × ℕ))
    → IsValid b
    → b.enabled ≡ true
    → b.state ≡ circuit_closed
    → is_open (finish_all b outcomes).state
      ≡ leb b.failure_threshold (longest_streak b.failures outcomes)
unfolding finish_all
trips_when b [] v e s = ground (arith, v.closed_below s)
trips_when b ((failed, now) ∷ rest) v e s = elim (finish_closed b failed now v e s).2 [
  | inl (closed, counted, below) ↦
      rw
        (max_below b.failure_threshold b.failures
          (longest_streak (if failed then b.failures + 1 else 0) rest) (v.closed_below s))
        (cc (
          counted,
          (finish_closed b failed now v e s).1,
          trips_when c rest (finish-IsValid b _ failed now v) (finish_closed b failed now v e s).0
              closed,
        ))
  | inr (opened, reached) ↦
      rw (finish_all_open c rest opened)
        (ground (arith, longest_streak-ge (if failed then b.failures + 1 else 0) rest))
]
  where
    c : CircuitBreaker
    c = finish b (record { probe = false }) failed now

-- The completion at which a run of failures reaches the threshold, after `streak` failures: its time.
abbrev pub tripped_at : ℕ → ℕ → List (Bool × ℕ) → Option ℕ
tripped_at threshold streak [] = none
tripped_at threshold streak ((failed, now) ∷ rest) =
    let later = tripped_at threshold (if failed then streak + 1 else 0) rest in
    if failed && leb threshold (streak + 1) then some now else later

-- The failures at the end, after `streak` of them.
abbrev pub last_streak : ℕ → List (Bool × ℕ) → ℕ
last_streak streak [] = streak
last_streak streak ((failed, now) ∷ rest) = last_streak (if failed then streak + 1 else 0) rest

-- A breaker after completions that leave it `streak` failures, or trip it at a time.
abbrev pub ended : CircuitBreaker → ℕ → Option ℕ → CircuitBreaker
ended b streak none = record b { failures = streak }
ended b streak (some now) = record b {
  state = circuit_open;
  failures = b.failure_threshold;
  open_until = now + b.open_for;
}

-- What the completions make of a breaker that has seen `streak` failures.
abbrev pub outcome : CircuitBreaker → ℕ → List (Bool × ℕ) → CircuitBreaker
outcome b streak outcomes =
    ended b (last_streak streak outcomes) (tripped_at b.failure_threshold streak outcomes)

module _ (threshold streak now : ℕ) (rest : List (Bool × ℕ)) where
  tripped_now :
      leb threshold (streak + 1) ≡ true
      → tripped_at threshold streak ((true, now) ∷ rest) ≡ some now
  tripped_now reached = rw reached refl

  tripped_later :
      leb threshold (streak + 1) ≡ false
      → tripped_at threshold streak ((true, now) ∷ rest) ≡ tripped_at threshold (streak + 1) rest
  tripped_later below = rw below refl

outcome_lem :
    (b : CircuitBreaker) (outcomes : List (Bool × ℕ))
    → IsValid b
    → b.enabled ≡ true
    → b.state ≡ circuit_closed
    → finish_all b outcomes ≡ outcome b b.failures outcomes
unfolding finish_all
outcome_lem b [] v e s = refl
outcome_lem b ((false, now) ∷ rest) v e s =
    ap (λ c. finish_all c rest) (finish_success b now e s)
    ∙ outcome_lem (record b { failures = 0 }) rest (reset-IsValid b v) e s
outcome_lem b ((true, now) ∷ rest) v e s =
    elim (Bool-cases (leb b.failure_threshold (b.failures + 1))) [
      | inl reached ↦
          ap (λ c. finish_all c rest) (finish_trip b now e s (v.closed_below s) reached)
          ∙ finish_all_open _ rest refl
          ∙ sym (
              ap (ended b (last_streak (b.failures + 1) rest))
                (tripped_now b.failure_threshold b.failures now rest reached))
      | inr below ↦
          ap (λ c. finish_all c rest) (finish_failure b now e s below)
          ∙ outcome_lem (record b { failures = b.failures + 1 }) rest (counted-IsValid b v below) e
              s
          ∙ sym (
              ap (ended b (last_streak (b.failures + 1) rest))
                (tripped_later b.failure_threshold b.failures now rest below))
    ]

-- A closed, enabled breaker trips on a sequence of completions exactly when some run of consecutive
-- failures in it, counted from the failures already seen, reaches the threshold. A success in between
-- starts the count again. The breaker is then open for its interval from the completion that reached
-- the threshold, and no later completion changes anything; without such a run it stays as it was, with
-- the failures at the end counted.
pub streak_trips :
    (b : CircuitBreaker) (outcomes : List (Bool × ℕ))
    → IsValid b
    → b.enabled ≡ true
    → b.state ≡ circuit_closed
    → (is_open (finish_all b outcomes).state
        ≡ leb b.failure_threshold (longest_streak b.failures outcomes))
      × (finish_all b outcomes ≡ outcome b b.failures outcomes)
streak_trips b outcomes v e s = (trips_when b outcomes v e s, outcome_lem b outcomes v e s)
