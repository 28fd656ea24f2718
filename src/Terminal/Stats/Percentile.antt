-- ===== src/Terminal/Stats/Percentile.antt =====
-- internal/tui/stats.go: `percentile`, which the screen shows of the latencies.
use gem_gate.Prelude.{
  ℕ, ◌+◌, ◌-◌, ◌*◌, ◌/◌, ◌≤◌, ◌<◌, ◌≡◌, subst, some, List, ◌∷◌, arith, leb, length, ◌==◌,
  if◌then◌else◌,
}
use gem_gate.Sorting.{sort}
use gem_gate.Sorting.Ranks.{
  count, IsSorted, get_elem?, sort-count, sort-IsSorted, at_most, below, count-at_most, count-below,
  length-sort, get_elem?-some,
}
use gem_gate.Terminal.Stats.{percentile}

-- The index is one of the list's.
index_in_range :
    (n p : ℕ)
    → 0 < n
    → 0 < p
    → p ≤ 100
    → let idx = (n * p + 99) / 100 in
      (0 < idx) × (idx ≤ n) × (n * p ≤ idx * 100) × (idx * 100 < n * p + 100)
index_in_range n p h k l =
    let some_work : 1 ≤ n * p = grind arith in
    let bounded : n * p ≤ n * 100 = grind arith in omega (arith, some_work, bounded)

-- The code's place in a sorted list that is not empty.
abbrev place : ℕ → ℕ → ℕ
place n p = let idx = (n * p + 99) / 100 in (if idx == 0 then 1 else idx) - 1

sorted_ranks :
    (cp : List ℕ) (p : ℕ)
    → IsSorted cp
    → 0 < length cp
    → 0 < p
    → p ≤ 100
    → (v : ℕ) × (get_elem? cp (place (length cp) p) ≡ some v)
      × (length cp * p ≤ count (at_most v) cp * 100)
      × (count (below v) cp * 100 < length cp * p)
sorted_ranks cp p sorted some_value h k =
    let range = index_in_range (length cp) p some_value h k in
    let inside : place (length cp) p < length cp = ground (arith, range) in
    let (v, found) = get_elem?-some cp (place (length cp) p) inside in
    let more = count-at_most cp (place (length cp) p) v sorted found in
    let fewer = count-below cp (place (length cp) p) v sorted found in
    (v, found, ground (arith, range, more), ground (arith, range, fewer))

-- For a percentage from 1 to 100 and values that are not empty a percentile is found: at least so
-- many percent of the values are no greater than it, and fewer are smaller.
pub percentile_ranks :
    (x : ℕ) (xs : List ℕ) (p : ℕ)
    → 0 < p
    → p ≤ 100
    → (v : ℕ) × (percentile (x ∷ xs) p ≡ some v)
      × (length (x ∷ xs) * p ≤ count (at_most v) (x ∷ xs) * 100)
      × (count (below v) (x ∷ xs) * 100 < length (x ∷ xs) * p)
unfolding percentile
percentile_ranks x xs p h k =
    let cp = sort leb (x ∷ xs) in
    let n = length-sort (x ∷ xs) in
    let (v, found, more, fewer) =
      sorted_ranks cp p (sort-IsSorted (x ∷ xs)) (omega (arith, n)) h k in
    let high = sort-count (at_most v) (x ∷ xs) in
    let low = sort-count (below v) (x ∷ xs) in
    (
      v,
      found,
      subst (λ m. m * p ≤ count (at_most v) (x ∷ xs) * 100) n
          (subst (λ c. length cp * p ≤ c * 100) high more),
      subst (λ m. count (below v) (x ∷ xs) * 100 < m * p) n
          (subst (λ c. c * 100 < length cp * p) low fewer),
    )
