-- ===== src/RateWindow/Retry.antt =====
-- internal/gateway/ratelimit.go: the delay that a refusal returns.
use gem_gate.Prelude.{
  ℕ, suc, ◌+◌, ◌≤◌, ◌<◌, pos, false, ◌≡◌, sym, ap, subst, ◌∙◌, List, [], ◌∷◌, ◌==◌, if◌then◌else◌,
  length, keep, length-keep-le, arith, leb,
}
use gem_gate.RateWindow.{RateWindow, until_free, prune, allow_within, allow, reset_after}
use gem_gate.RateWindow.Prune.{
  recent, Ascending, requests-prune, keep-Ascending, keep-All_recent, keep_recent-twice,
}
use gem_gate.RateWindow.History.{allow_within_pruned}

-- A window whose clock has not gone back, under a limit that was not lowered since.
pub record IsWithin (w : RateWindow) (limit : ℕ) : Type 0 where
  pub ordered : Ascending w.requests
  pub fits : length w.requests ≤ limit

refused_full :
    (w : RateWindow) (n now : ℕ) (recents : List ℕ)
    → (prune w now).requests ≡ recents
    → (allow_within w (suc n) now).1 ≡ false
    → (suc n ≤ length recents) × ((allow_within w (suc n) now).2 ≡ until_free recents now)
refused_full w n now recents e h = ground (arith, allow_within_pruned w (suc n) now recents e)

-- The requests of a full window at two times: all are kept while the oldest is recent, and one is
-- gone when it is not.
full_later :
    (now later n : ℕ) (ts : List ℕ)
    → now ≤ later
    → Ascending ts
    → length ts ≤ suc n
    → suc n ≤ length (keep (recent now) ts)
    → (later < now + until_free (keep (recent now) ts) now
        → suc n ≤ length (keep (recent later) ts))
      × (now + until_free (keep (recent now) ts) now ≤ later → length (keep (recent later) ts) ≤ n)
      × (0 < until_free (keep (recent now) ts) now)
full_later now later n [] h a f g = absurd (omega arith)
full_later now later n (t ∷ ts) h a f g = ground (
  arith,
  length-keep-le (recent now) ts,
  length-keep-le (recent later) ts,
  keep-All_recent now t ts,
  keep-All_recent later t ts,
)

allow_within-requests :
    (w : RateWindow) (n now : ℕ)
    → IsWithin w (suc n)
    → (allow_within w (suc n) now).1 ≡ false
    → (allow_within w (suc n) now).0.requests ≡ keep (recent now) w.requests
allow_within-requests w n now v refused = ground (
  arith,
  allow_within_pruned w (suc n) now (keep (recent now) w.requests) (requests-prune w now v.ordered),
)

-- The state after a refusal at `now`, pruned at a later time.
pruned_later :
    (w : RateWindow) (n now later : ℕ)
    → now ≤ later
    → IsWithin w (suc n)
    → (allow_within w (suc n) now).1 ≡ false
    → (prune (allow_within w (suc n) now).0 later).requests ≡ keep (recent later) w.requests
pruned_later w n now later k v refused =
    requests-prune _ later (subst Ascending (sym e) (keep-Ascending _ w.requests v.ordered))
    ∙ ap (keep (recent later)) e
    ∙ keep_recent-twice now later w.requests k
  where
    e : (allow_within w (suc n) now).0.requests ≡ keep (recent now) w.requests
    e = allow_within-requests w n now v refused

reset_after_pruned :
    (w : RateWindow) (now : ℕ) (recents : List ℕ)
    → (prune w now).requests ≡ recents
    → (reset_after w now).1 ≡ (if length recents == 0 then 0 else until_free recents now)
unfolding reset_after
reset_after_pruned w now recents e = rw (← e) (ground arith)

-- A refusal under a positive limit returns an exact delay: it is positive, `resetAfter` reports the
-- same one, and the next request, at any later time, is admitted exactly if the delay is over.
pub allow-reset_after :
    (w : RateWindow) (n now later : ℕ)
    → now ≤ later
    → IsWithin w (suc n)
    → (allow w (pos (suc n)) now).1 ≡ false
    → let r = allow w (pos (suc n)) now in
      (0 < r.2)
      × ((reset_after r.0 now).1 ≡ r.2)
      × ((allow r.0 (pos (suc n)) later).1 ≡ leb (now + r.2) later)
unfolding allow
allow-reset_after w n now later k v refused = ground (
  arith,
  full,
  full_later now later n w.requests k v.ordered v.fits full.0,
  reset_after_pruned (allow_within w (suc n) now).0 now _
      (pruned_later w n now now (omega arith) v refused),
  allow_within_pruned (allow_within w (suc n) now).0 (suc n) later _
      (pruned_later w n now later k v refused),
)
  where
    recents : (prune w now).requests ≡ keep (recent now) w.requests
    recents = requests-prune w now v.ordered

    full :
        (suc n ≤ length (keep (recent now) w.requests))
        × ((allow_within w (suc n) now).2 ≡ until_free (keep (recent now) w.requests) now)
    full = refused_full w n now _ recents refused
