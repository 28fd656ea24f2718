-- ===== src/RateLimit/Tests.antt =====
-- Runs of the limiter, and the theorems of its modules at concrete inputs.
use gem_gate.Prelude.{ℕ, pos, true, false, ◌≡◌, refl, some, List, [], ◌∷◌, arith}
use gem_gate.Text.{Text, codes, text_eq}
use gem_gate.RateWindow.{minute}
use gem_gate.RateLimit.{
  RateLimitBackend, RateLimitManager, Windows, memory_backend, hex_prefix, rate_limit_key,
  manager_allow,
}
use gem_gate.RateLimit.Memory.{Call, answers_to, memory_isolated}

abbrev calls : List Call
calls =
    record { key = codes "a"; limit = pos 1; now = 5 }
    ∷ record { key = codes "b"; limit = pos 1; now = 6 }
    ∷ record { key = codes "a"; limit = pos 1; now = 7 }
    ∷ []

memory_isolated_example : answers_to (codes "b") [] calls ≡ true ∷ []
unfolding text_eq minute
memory_isolated_example = memory_isolated (codes "b") calls (omega arith)

-- A backend whose server does not answer.
abbrev failing : RateLimitBackend (Unit {0}) ℕ
failing = record {
  allow =
      λ s key limit now. (s, record { allowed = false; retry_after = 0; degraded = false }, some 7);
  retain = λ s keys. s;
}

abbrev open_manager : RateLimitManager (Unit {0})
open_manager = record { backend_state = tt; fail_open = true }

abbrev plain : Text → List ℕ
plain token = token

key_text : rate_limit_key plain (0x0F ∷ 0xA0 ∷ []) ≡ codes "client:0fa0"
unfolding rate_limit_key hex_prefix
key_text = refl

abbrev manager : RateLimitManager Windows
manager = record { backend_state = []; fail_open = false }

-- Two clients have used up their limit of one request.
abbrev used_up : RateLimitManager Windows
used_up =
    (manager_allow memory_backend plain
      (manager_allow memory_backend plain manager (codes "t") (pos 1) 3).0 (codes "u") (pos 1) 3).0
