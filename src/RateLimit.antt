-- ===== src/RateLimit.antt =====
-- internal/gateway/ratelimit_backend.go: the rate-limit manager over a backend, and the backend in
-- memory. A backend is a record of operations on a state, since the manager holds an interface
-- value; the Redis one is a client of a server outside the program.
pub mod Memory
pub mod Manager
mod Tests
use gem_gate.Prelude.{
  ℕ, zero, suc, ◌+◌, ◌-◌, ◌/◌, ◌%◌, ℤ, Bool, true, false, not, ◌||◌, Option, none, some, List, [],
  ◌∷◌, ◌++◌, ltb, if◌then◌else◌, is_positive,
}
use gem_gate.Text.{Text, codes, text_eq, contains}
use gem_gate.RateWindow.{RateWindow, empty_window}
use gem_gate.RateWindow

pub record RateLimitDecision : Type 0 where
  pub allowed : Bool
  pub retry_after : ℕ
  pub degraded : Bool

-- `rateLimitDecision{Allowed: true}`
abbrev pub unlimited : RateLimitDecision
unlimited = record { allowed = true; retry_after = 0; degraded = false }

-- `rateLimitBackend`, with the state that its methods change; an error is returned beside a decision.
pub record RateLimitBackend (S E : Type 0) : Type 0 where
  pub allow : S → Text → ℤ → ℕ → S × RateLimitDecision × Option E
  pub retain : S → List Text → S

-- `windows map[string]*rateWindow`
abbrev pub Windows : Type 0
Windows = List (Text × RateWindow)

unfoldable pub find_window : Windows → Text → Option RateWindow
find_window [] key = none
find_window ((k, w) ∷ ws) key = if text_eq k key then some w else find_window ws key

unfoldable pub put_window : Windows → Text → RateWindow → Windows
put_window [] key w = (key, w) ∷ []
put_window ((k, v) ∷ ws) key w =
    if text_eq k key then (key, w) ∷ ws else (k, v) ∷ put_window ws key w

abbrev pub window_or_new : Option RateWindow → RateWindow
window_or_new none = empty_window
window_or_new (some w) = w

unfoldable pub memory_allow : Windows → Text → ℤ → ℕ → Windows × RateLimitDecision × Option ⊥
memory_allow windows key limit now =
    if not (is_positive limit)
    then (windows, unlimited, none)
    else (let (next, allowed, retry_after) =
          RateWindow.allow (window_or_new (find_window windows key)) limit now in
        (
          put_window windows key next,
          record { allowed = allowed; retry_after = retry_after; degraded = false },
          none,
        ))

unfoldable pub memory_retain : Windows → List Text → Windows
memory_retain [] keys = []
memory_retain ((k, w) ∷ ws) keys =
    let rest = memory_retain ws keys in if contains keys k then (k, w) ∷ rest else rest

abbrev pub memory_backend : RateLimitBackend Windows ⊥
memory_backend = record { allow = memory_allow; retain = memory_retain }

hex_digit : ℕ → ℕ
hex_digit d = if ltb d 10 then b'0' + d else b'a' + (d - 10)

-- `hex.EncodeToString(sum[:n])`
unfoldable pub hex_prefix : ℕ → List ℕ → Text
unfolding hex_digit
hex_prefix zero bytes = []
hex_prefix (suc n) [] = []
hex_prefix (suc n) (b ∷ bytes) = hex_digit (b / 16 % 16) ∷ hex_digit (b % 16) ∷ hex_prefix n bytes

-- `digest` is SHA-256.
unfoldable pub rate_limit_key : (Text → List ℕ) → Text → Text
rate_limit_key digest token = codes "client:" ++ hex_prefix 16 (digest token)

-- The keys that `RetainTokens` hands to `Retain`.
unfoldable pub retained_keys : (Text → List ℕ) → List Text → List Text
retained_keys digest [] = []
retained_keys digest (token ∷ tokens) = rate_limit_key digest token ∷ retained_keys digest tokens

pub record RateLimitManager (S : Type 0) : Type 0 where
  pub backend_state : S
  pub fail_open : Bool

module _ {S E : Type 0} (backend : RateLimitBackend S E) (digest : Text → List ℕ) where
  -- The decision after the backend's answer: an error degrades it, and admits under `failOpen`.
  unfoldable pub decide_or_degrade : Bool → RateLimitDecision → Option E → RateLimitDecision
  decide_or_degrade fail_open decision none = decision
  decide_or_degrade fail_open decision (some e) = record decision {
    degraded = true;
    allowed = if fail_open then true else decision.allowed;
  }

  unfoldable pub manager_allow :
      RateLimitManager S → Text → ℤ → ℕ → RateLimitManager S × RateLimitDecision × Option E
  manager_allow m token limit now =
      if not (is_positive limit)
      then (m, unlimited, none)
      else (let (next, decision, error) =
            backend.allow m.backend_state (rate_limit_key digest token) limit now in
          (record m { backend_state = next }, decide_or_degrade m.fail_open decision error, error))

  unfoldable pub retain_tokens : RateLimitManager S → List Text → RateLimitManager S
  retain_tokens m tokens = record m {
    backend_state = backend.retain m.backend_state (retained_keys digest tokens);
  }
