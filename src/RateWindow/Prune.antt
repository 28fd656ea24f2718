-- ===== src/RateWindow/Prune.antt =====
-- internal/gateway/ratelimit.go: `prune` against a filter.
use gem_gate.Prelude.{
  ℕ, ◌+◌, ◌≤◌, ◌<◌, Bool, ◌≡◌, refl, ◌∙◌, List, [], ◌∷◌, ltb, drop, keep, All, arith,
}
use gem_gate.RateWindow.{RateWindow, minute, first_kept, prune}

-- A request that lies within the minute that ends at `now`.
abbrev pub recent : ℕ → ℕ → Bool
recent now t = ltb now (t + minute)

abbrev pub Ascending : List ℕ → Type 0
Ascending [] = Unit {0}
Ascending (t ∷ ts) = All (λ u. t ≤ u) ts × Ascending ts

pub keep-All_recent :
    (now t : ℕ) (ts : List ℕ) → now < t + minute → All (λ u. t ≤ u) ts → keep (recent now) ts ≡ ts
keep-All_recent now t [] h a = refl
keep-All_recent now t (u ∷ ts) h a = ground (arith, keep-All_recent now t ts h a.1)

drop-first_kept :
    (now : ℕ) (ts : List ℕ) → Ascending ts → drop (first_kept now ts) ts ≡ keep (recent now) ts
unfolding first_kept
drop-first_kept now [] a = refl
drop-first_kept now (t ∷ ts) a =
    ground (arith, drop-first_kept now ts a.1, keep-All_recent now t ts)

prune_as_drop :
    (now : ℕ) (w : RateWindow) (ts : List ℕ)
    → w.requests ≡ ts
    → (prune w now).requests ≡ drop (first_kept now ts) ts
unfolding prune first_kept
prune_as_drop now w [] e = ground arith
prune_as_drop now w (t ∷ ts) e = ground arith

-- On requests in order of time `prune` keeps exactly those of the last minute.
pub requests-prune :
    (w : RateWindow) (now : ℕ)
    → Ascending w.requests
    → (prune w now).requests ≡ keep (recent now) w.requests
requests-prune w now a = prune_as_drop now w w.requests refl ∙ drop-first_kept now w.requests a

pub keep_recent-twice :
    (since now : ℕ) (ts : List ℕ)
    → since ≤ now
    → keep (recent now) (keep (recent since) ts) ≡ keep (recent now) ts
keep_recent-twice since now [] h = refl
keep_recent-twice since now (t ∷ ts) h = ground (arith, keep_recent-twice since now ts h)

pub keep-All : (P : ℕ → Type 0) (p : ℕ → Bool) (ts : List ℕ) → All P ts → All P (keep p ts)
keep-All P p [] a = tt
keep-All P p (t ∷ ts) a = ground (arith, keep-All P p ts a.1)

pub keep-Ascending : (p : ℕ → Bool) (ts : List ℕ) → Ascending ts → Ascending (keep p ts)
keep-Ascending p [] a = tt
keep-Ascending p (t ∷ ts) a =
    ground (arith, keep-Ascending p ts a.1, keep-All (λ u. t ≤ u) p ts a.0)
