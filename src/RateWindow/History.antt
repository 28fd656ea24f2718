-- ===== src/RateWindow/History.antt =====
-- internal/gateway/ratelimit.go: the window against the history of all that it admitted.
use gem_gate.Prelude.{
  ℕ, zero, suc, ◌≤◌, ◌<◌, ℤ, pos, negsuc, Bool, true, false, not, ◌≡◌, refl, sym, ap, ap₂, subst,
  ◌∙◌, inl, inr, List, [], ◌∷◌, ◌++◌, leb, if◌then◌else◌, Bool-cases, length, keep, keep-append,
  All, All-append, arith,
}
use gem_gate.RateWindow.{RateWindow, empty_window, minute, until_free, prune, allow_within, allow}
use gem_gate.RateWindow.Prune.{recent, Ascending, requests-prune, keep_recent-twice, keep-Ascending}

-- The exact limiter: all admitted times, oldest first. A call with a limit is admitted if fewer than
-- `limit` of them lie in the minute that ends now; a call without one leaves no trace.
abbrev pub exact_allow : List ℕ → ℤ → ℕ → List ℕ × Bool
exact_allow history (pos (suc n)) now =
    if leb (suc n) (length (keep (recent now) history))
    then (history, false)
    else (history ++ now ∷ [], true)
exact_allow history _ now = (history, true)

-- The window holds what its last pruning left of the history.
pub record Represents (w : RateWindow) (history : List ℕ) (last : ℕ) : Type 0 where
  pub since : ℕ
  pub since_past : since ≤ last
  pub kept : w.requests ≡ keep (recent since) history
  pub ordered : Ascending history
  pub past : All (λ t. t ≤ last) history

pub minute_pos : 0 < minute
unfolding minute
minute_pos = omega arith

pub recent_now : (now : ℕ) → recent now now ≡ true
recent_now now = ground (arith, minute_pos)

All-mono : (m n : ℕ) (ts : List ℕ) → m ≤ n → All (λ t. t ≤ m) ts → All (λ t. t ≤ n) ts
All-mono m n [] h a = tt
All-mono m n (t ∷ ts) h a = (omega arith, All-mono m n ts h a.1)

Ascending-concat :
    (ts : List ℕ) (now : ℕ) → Ascending ts → All (λ t. t ≤ now) ts → Ascending (ts ++ now ∷ [])
Ascending-concat [] now a p = (tt, tt)
Ascending-concat (t ∷ ts) now a p =
    (All-append (λ u. t ≤ u) ts (now ∷ []) a.0 (p.0, tt), Ascending-concat ts now a.1 p.1)

-- `allow_within` on a window whose pruned requests are known.
pub allow_within_pruned :
    (w : RateWindow) (limit now : ℕ) (recents : List ℕ)
    → (prune w now).requests ≡ recents
    → let r = allow_within w limit now in
      (r.0.requests ≡ (if leb limit (length recents) then recents else recents ++ now ∷ []))
      × (r.1 ≡ not (leb limit (length recents)))
      × (r.2 ≡ (if leb limit (length recents) then until_free recents now else 0))
unfolding allow_within
allow_within_pruned w limit now recents e = rw (← e) (ground arith, ground arith, ground arith)

pub pruned_history :
    (w : RateWindow) (history : List ℕ) (last now : ℕ)
    → last ≤ now
    → Represents w history last
    → (prune w now).requests ≡ keep (recent now) history
pruned_history w history last now h v =
    requests-prune w now (subst Ascending (sym v.kept) (keep-Ascending _ history v.ordered))
    ∙ ap (keep (recent now)) v.kept
    ∙ keep_recent-twice v.since now history (omega arith)

abbrev AllowAgrees : RateWindow × Bool × ℕ → List ℕ × Bool → ℕ → Type 0
AllowAgrees r s now = (r.1 ≡ s.1) × Represents r.0 s.0 now

allow_within-agrees :
    (w : RateWindow) (history : List ℕ) (n last now : ℕ)
    → last ≤ now
    → Represents w history last
    → AllowAgrees (allow_within w (suc n) now) (exact_allow history (pos (suc n)) now) now
allow_within-agrees w history n last now h v =
    elim (Bool-cases (leb (suc n) (length (keep (recent now) history)))) [
      | inl full ↦ rw full (
        r.1 ∙ ap not full,
        record {
          since = now;
          since_past = omega arith;
          kept = r.0 ∙ rw full;
          ordered = v.ordered;
          past = All-mono last now history h v.past;
        },
      )
      | inr room ↦ rw room (
        r.1 ∙ ap not room,
        record {
          since = now;
          since_past = omega arith;
          kept = r.0 ∙ rw (room, keep-append (recent now) history (now ∷ []), recent_now now);
          ordered = Ascending-concat history now v.ordered (All-mono last now history h v.past);
          past =
              All-append (λ t. t ≤ now) history (now ∷ []) (All-mono last now history h v.past)
                (omega arith, tt);
        },
      )
    ]
  where
    r :
        let r = allow_within w (suc n) now in
        let recents = keep (recent now) history in
        (r.0.requests ≡ (if leb (suc n) (length recents) then recents else recents ++ now ∷ []))
        × (r.1 ≡ not (leb (suc n) (length recents)))
        × (r.2 ≡ (if leb (suc n) (length recents) then until_free recents now else 0))
    r = allow_within_pruned w (suc n) now _ (pruned_history w history last now h v)

pub Represents-later :
    (w : RateWindow) (history : List ℕ) (last now : ℕ)
    → last ≤ now
    → Represents w history last
    → Represents w history now
Represents-later w history last now h v = record {
  since = v.since;
  since_past = omega (arith, v.since_past);
  kept = v.kept;
  ordered = v.ordered;
  past = All-mono last now history h v.past;
}

-- One call of the window answers as the exact limiter does and goes on representing its history,
-- whatever the limit is, at a clock that does not go back.
pub allow-agrees :
    (w : RateWindow) (history : List ℕ) (limit : ℤ) (last now : ℕ)
    → last ≤ now
    → Represents w history last
    → ((allow w limit now).1 ≡ (exact_allow history limit now).1)
      × Represents (allow w limit now).0 (exact_allow history limit now).0 now
unfolding allow
allow-agrees w history (pos zero) last now h v = (refl, Represents-later w history last now h v)
allow-agrees w history (pos (suc n)) last now h v = allow_within-agrees w history n last now h v
allow-agrees w history (negsuc n) last now h v = (refl, Represents-later w history last now h v)

-- The answers of a window, and of the exact limiter, to a sequence of calls.
pub answers : RateWindow → List (ℤ × ℕ) → List Bool
answers w [] = []
answers w ((limit, now) ∷ calls) =
    let (next, allowed, retry) = allow w limit now in allowed ∷ answers next calls

abbrev pub exact_answers : List ℕ → List (ℤ × ℕ) → List Bool
exact_answers history [] = []
exact_answers history ((limit, now) ∷ calls) =
    let (next, allowed) = exact_allow history limit now in allowed ∷ exact_answers next calls

abbrev pub Ordered : ℕ → List (ℤ × ℕ) → Type 0
Ordered last [] = Unit {0}
Ordered last ((limit, now) ∷ calls) = (last ≤ now) × Ordered now calls

answers-agree :
    (w : RateWindow) (history : List ℕ) (last : ℕ) (calls : List (ℤ × ℕ))
    → Represents w history last
    → Ordered last calls
    → answers w calls ≡ exact_answers history calls
unfolding answers
answers-agree w history last [] v o = refl
answers-agree w history last ((limit, now) ∷ calls) v o =
    let (same, next) = allow-agrees w history limit last now o.0 v in
    ap₂ ◌∷◌ same
      (answers-agree (allow w limit now).0 (exact_allow history limit now).0 now calls next o.1)

pub empty-Represents : (last : ℕ) → Represents empty_window [] last
empty-Represents last = record {
  since = last;
  since_past = omega arith;
  kept = refl;
  ordered = tt;
  past = tt;
}

-- A new window answers every sequence of calls, at a clock that does not go back and under limits
-- that may change from call to call, as the exact limiter does, which counts the admitted calls of
-- the last minute in the whole history.
pub answers_exact :
    (calls : List (ℤ × ℕ)) → Ordered 0 calls → answers empty_window calls ≡ exact_answers [] calls
answers_exact calls o = answers-agree empty_window [] 0 calls (empty-Represents 0) o
