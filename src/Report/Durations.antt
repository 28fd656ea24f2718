-- ===== src/Report/Durations.antt =====
-- internal/gateway/http_helpers.go: `minDuration` is the least positive duration.
use gem_gate.Prelude.{
  ℕ, ◌≤◌, ◌<◌, ◌≡◌, ◌⊎◌, inl, inr, ℤ, pos, negsuc, List, [], ◌∷◌, All, ◌==◌, Bool-cases, arith, ltb,
  ◌||◌, if◌then◌else◌,
}
use gem_gate.Report.{min_from, min_duration}

-- A positive duration bounds the result, which is then positive.
abbrev pub Bounds : ℕ → ℤ → Type 0
Bounds m (pos v) = (v ≡ 0) ⊎ ((0 < m) × (m ≤ v))
Bounds m (negsuc v) = Unit {0}

min_from_seen :
    (out : ℕ) (values : List ℤ) → 0 < out → (0 < min_from out values) × (min_from out values ≤ out)
unfolding min_from
min_from_seen out [] h = ground arith
min_from_seen out (pos v ∷ values) h =
    let next = if v == 0 then out else if out == 0 || ltb v out then v else out in
    let seen = min_from_seen next values (ground arith) in ground (arith, seen)
min_from_seen out (negsuc v ∷ values) h = min_from_seen out values h

min_from-Bounds : (out : ℕ) (values : List ℤ) → All (Bounds (min_from out values)) values
unfolding min_from
min_from-Bounds out [] = tt
min_from-Bounds out (pos v ∷ values) =
    let next = if v == 0 then out else if out == 0 || ltb v out then v else out in
    (
      elim (Bool-cases (v == 0)) [
        | inl e ↦ inl (ground arith)
        | inr e ↦ let seen = min_from_seen next values (ground arith) in inr (ground (arith, seen))
      ],
      min_from-Bounds next values,
    )
min_from-Bounds out (negsuc v ∷ values) = (tt, min_from-Bounds out values)

-- No positive duration of the list is below the result, which is positive if there is one.
pub min_duration-Bounds : (values : List ℤ) → All (Bounds (min_duration values)) values
unfolding min_duration
min_duration-Bounds values = min_from-Bounds 0 values
