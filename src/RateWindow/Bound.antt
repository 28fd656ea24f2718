-- ===== src/RateWindow/Bound.antt =====
-- internal/gateway/ratelimit.go: how many requests any minute can hold.
use gem_gate.Prelude.{
  ℕ, suc, ◌+◌, ◌≤◌, ℤ, pos, Bool, ◌&&◌, ◌≡◌, inl, inr, List, [], ◌∷◌, ◌++◌, ltb, leb, if◌then◌else◌,
  Bool-cases, length, length-append, keep, keep-append, append-nil, append_assoc, sym, arith,
}
use gem_gate.RateWindow.{RateWindow, empty_window, minute, allow}
use gem_gate.RateWindow.Prune.{recent}
use gem_gate.RateWindow.History.{exact_allow, Represents, empty-Represents, allow-agrees}

-- The times at which a window under one limit admits requests, in order.
pub admitted : RateWindow → ℤ → List ℕ → List ℕ
admitted w limit [] = []
admitted w limit (now ∷ times) =
    let (next, allowed, retry) = allow w limit now in
    let rest = admitted next limit times in if allowed then now ∷ rest else rest

abbrev pub Rising : ℕ → List ℕ → Type 0
Rising last [] = Unit {0}
Rising last (t ∷ ts) = (last ≤ t) × Rising t ts

-- Within the minute that ends at `end`: after `end - minute`, and not after `end`.
abbrev pub in_minute : ℕ → ℕ → Bool
in_minute end t = leb t end && ltb end (t + minute)

abbrev Bounded : ℕ → List ℕ → Type 0
Bounded n history = (end : ℕ) → length (keep (in_minute end) history) ≤ n

-- At a time after all the requests, a minute that ends no earlier holds no more than is recent now.
in_minute-le :
    (now end : ℕ) (ts : List ℕ)
    → now ≤ end
    → length (keep (in_minute end) ts) ≤ length (keep (recent now) ts)
in_minute-le now end [] h = omega arith
in_minute-le now end (t ∷ ts) h = ground (arith, in_minute-le now end ts h)

Bounded-exact :
    (n : ℕ) (history : List ℕ) (now : ℕ)
    → Bounded (suc n) history
    → Bounded (suc n) (exact_allow history (pos (suc n)) now).0
Bounded-exact n history now b end =
    elim (Bool-cases (leb (suc n) (length (keep (recent now) history)))) [
      | inl full ↦ rw full (b end)
      | inr room ↦
          rw
            (
              room,
              keep-append (in_minute end) history (now ∷ []),
              length-append (keep (in_minute end) history) (keep (in_minute end) (now ∷ [])),
            )
            (ground (arith, b end, in_minute-le now end history))
    ]

exact_allow-append :
    (n : ℕ) (history rest : List ℕ) (now : ℕ)
    → let s = exact_allow history (pos (suc n)) now in
      history ++ (if s.1 then now ∷ rest else rest) ≡ s.0 ++ rest
exact_allow-append n history rest now =
    elim (Bool-cases (leb (suc n) (length (keep (recent now) history)))) [
      | inl full ↦ rw full
      | inr room ↦ rw room (sym (append_assoc history (now ∷ []) rest))
    ]

admitted-history :
    (w : RateWindow) (history : List ℕ) (n last : ℕ) (times : List ℕ)
    → Represents w history last
    → Rising last times
    → Bounded (suc n) history
    → Bounded (suc n) (history ++ admitted w (pos (suc n)) times)
unfolding admitted
admitted-history w history n last [] v o b = rw append-nil b
admitted-history w history n last (now ∷ times) v o b =
    let (same, next) = allow-agrees w history (pos (suc n)) last now o.0 v in
    rw
      (
        same,
        exact_allow-append n history (admitted (allow w (pos (suc n)) now).0 (pos (suc n)) times)
            now,
      )
      (admitted-history (allow w (pos (suc n)) now).0 (exact_allow history (pos (suc n)) now).0 n
        now times next o.1 (Bounded-exact n history now b))

-- A client with a positive limit is admitted at most `limit` times in any minute, wherever that
-- minute begins, at a clock that does not go back.
pub admitted_bounded :
    (n : ℕ) (times : List ℕ)
    → Rising 0 times
    → (end : ℕ) → length (keep (in_minute end) (admitted empty_window (pos (suc n)) times)) ≤ suc n
admitted_bounded n times o =
    admitted-history empty_window [] n 0 times (empty-Represents 0) o (λ end. omega arith)
