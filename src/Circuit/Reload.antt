-- ===== src/Circuit/Reload.antt =====
-- internal/gateway/circuitbreaker.go: `cloneWithPolicy`, by which a configuration reload carries a
-- breaker over, and the requests that use the copy.
use gem_gate.Prelude.{
  ℕ, ◌+◌, ◌≤◌, true, false, ◌≡◌, refl, sym, ap, ◌∙◌, ◌⊎◌, some, List, [], ◌∷◌, ◌++◌, arith,
}
use gem_gate.Prelude.{◌&&◌, ◌||◌, not, ltb, leb, if◌then◌else◌}
use gem_gate.Circuit.{
  is_open, is_closed, CircuitBreaker, CircuitPolicy, circuit_open, circuit_half_open,
  new_circuit_breaker_with_policy, clone_with_policy, allow,
}
use gem_gate.Circuit.Requests.{System, Step, admit, refuse, complete, Reach, here, next, start}

-- While both policies are enabled a copy keeps the failures seen and takes the new threshold; it is
-- closed exactly if the old breaker was closed with fewer failures than the new threshold, and open
-- exactly if the old one was open with time left, which it keeps, or closed with too many failures,
-- when its interval starts now.
pub clone_keeps :
    (b : CircuitBreaker) (policy : CircuitPolicy) (now : ℕ)
    → b.enabled ≡ true
    → policy.enabled ≡ true
    → let next = clone_with_policy (some b) policy now in
      let open_before = is_open b.state && ltb now b.open_until in
      let trips = is_closed b.state && leb next.failure_threshold b.failures in
      (next.failures ≡ b.failures)
      × (next.failure_threshold ≡ (new_circuit_breaker_with_policy policy).failure_threshold)
      × (is_closed next.state ≡ (is_closed b.state && not trips))
      × (is_open next.state ≡ (open_before || trips))
      × ((if open_before then next.open_until else 0) ≡ (if open_before then b.open_until else 0))
      × ((if trips then next.open_until else 0) ≡ (if trips then now + next.open_for else 0))
unfolding clone_with_policy
clone_keeps b policy now e p = ground arith

-- The condition under which the copy starts half-open: the old breaker was half-open, or open with
-- its interval over.
abbrev pub StartsHalfOpen : CircuitBreaker → ℕ → Type 0
StartsHalfOpen b now =
    (b.state ≡ circuit_half_open) ⊎ ((b.state ≡ circuit_open) × (b.open_until ≤ now))

clone_half_open :
    (b : CircuitBreaker) (policy : CircuitPolicy) (now : ℕ)
    → b.enabled ≡ true
    → policy.enabled ≡ true
    → StartsHalfOpen b now
    → let next = clone_with_policy (some b) policy now in
      (next.state ≡ circuit_half_open) × (next.enabled ≡ true)
unfolding clone_with_policy
clone_half_open b policy now e p h = ground arith

-- Half-open, with no request in flight that could end it.
record IsStuck (s : System) : Type 0 where
  half_open : s.breaker.state ≡ circuit_half_open
  enabled : s.breaker.enabled ≡ true
  idle : s.permits ≡ []

half_open_refuses :
    (b : CircuitBreaker) (now : ℕ)
    → b.state ≡ circuit_half_open
    → b.enabled ≡ true
    → ((allow b now).1.allowed ≡ false) × ((allow b now).0 ≡ b)
unfolding allow
half_open_refuses b now h e = ground arith

empty_split : {A : Type 0} (xs ys : List A) (x : A) → [] ≡ xs ++ x ∷ ys → ⊥
empty_split [] ys x e = cc
empty_split (z ∷ zs) ys x e = cc

Step-IsStuck : {s t : System} → Step s t → IsStuck s → IsStuck t
Step-IsStuck (admit s now ok) v =
    let r = half_open_refuses s.breaker now v.half_open v.enabled in cc (r.0)
Step-IsStuck (refuse s now no') v =
    let r = half_open_refuses s.breaker now v.half_open v.enabled in
    record {
      half_open = ap (λ b. b.state) r.1 ∙ v.half_open;
      enabled = ap (λ b. b.enabled) r.1 ∙ v.enabled;
      idle = v.idle;
    }
Step-IsStuck (complete s before after permit failed now e) v =
    absurd (empty_split before after permit (sym v.idle ∙ e))

Reach-IsStuck : {s t : System} → IsStuck s → Reach s t → IsStuck t
Reach-IsStuck v here = v
Reach-IsStuck v (next r st) = Step-IsStuck st (Reach-IsStuck v r)

-- A reload that copies an enabled breaker under an enabled policy, while the breaker is half-open
-- or its open interval is over, locks the provider out: the copy is half-open with no probe of its
-- own, so whatever its requests do, at any later time, every one of them is refused.
pub reload_locks_out :
    (b : CircuitBreaker) (policy : CircuitPolicy) (now later : ℕ) {s : System}
    → b.enabled ≡ true
    → policy.enabled ≡ true
    → StartsHalfOpen b now
    → Reach (start (clone_with_policy (some b) policy now)) s
    → (allow s.breaker later).1.allowed ≡ false
reload_locks_out b policy now later {s} e p h r =
    (half_open_refuses s.breaker later stuck.half_open stuck.enabled).0
  where
    stuck : IsStuck s
    stuck =
        let c = clone_half_open b policy now e p h in
        Reach-IsStuck (record { half_open = c.0; enabled = c.1; idle = refl }) r
