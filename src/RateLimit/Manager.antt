-- ===== src/RateLimit/Manager.antt =====
-- internal/gateway/ratelimit_backend.go: errors of a backend, and what a reload keeps.
use gem_gate.Prelude.{ℕ, ℤ, true, false, ◌≡◌, some, List, arith}
use gem_gate.Text.{Text}
use gem_gate.RateLimit.{
  RateLimitBackend, RateLimitManager, rate_limit_key, manager_allow, decide_or_degrade,
}

-- When the backend fails, with a decision that admits nothing, as the Redis backend does, the
-- request is admitted exactly if the manager fails open, and the decision says that it is degraded.
pub manager_allow_failed :
    {S E : Type 0} (backend : RateLimitBackend S E) (digest : Text → List ℕ)
    (m : RateLimitManager S) (token : Text) (limit : ℤ) (now : ℕ) (e : E)
    → (backend.allow m.backend_state (rate_limit_key digest token) limit now).1.allowed ≡ false
    → (manager_allow backend digest m token limit now).2 ≡ some e
    → let decision = (manager_allow backend digest m token limit now).1 in
      (decision.allowed ≡ m.fail_open) × (decision.degraded ≡ true)
unfolding manager_allow decide_or_degrade
manager_allow_failed backend digest m token limit now e closed failed = ground arith
