-- ===== src/Terminal/Helpers/Sizes.antt =====
-- internal/tui/helpers.go: `humanBytes` on every `uint64`.
use native.Mathlib.Nat.{mul-le-mul_right}
use gem_gate.Prelude.{
  ℕ, zero, suc, ◌+◌, ◌*◌, ◌/◌, ◌%◌, ◌^◌, ◌≤◌, ◌<◌, ◌≡◌, refl, sym, ap, ◌∙◌, subst, Option, some,
  none, Bool, arith, leb, ◌∷◌, ◌++◌, if◌then◌else◌, Bool-cases, inl, inr, ◌⊎◌,
}
use gem_gate.Text.{codes}
use gem_gate.Terminal.Helpers.{unit, scale, letter_at, unit_letters, Writing, human_bytes}

-- The size of the unit with the letter at `e`.
unfoldable pub unit_size : ℕ → ℕ
unit_size zero = 1024
unit_size (suc e) = unit_size e * 1024

-- A unit of which the number has at least one, and fewer than 1024.
abbrev pub Scaled : ℕ → Option (ℕ × ℕ) → Type 0
Scaled v none = ⊥
Scaled v (some (div, exp)) = (div ≡ unit_size exp) × (exp < 6) × (div ≤ v) × (v < div * 1024)

module _ (n div v : ℕ) (some_left : 1 ≤ n) (low : n * div ≤ v) (high : v < (n + 1) * div) where
  last_unit : n < 1024 → (div ≤ v) × (v < div * 1024)
  last_unit h =
      let a : 1 * div ≤ n * div = mul-le-mul_right div some_left in
      let b : (n + 1) * div ≤ 1024 * div = mul-le-mul_right div (omega arith) in omega (arith, a, b)

  next_unit :
      1024 ≤ n
      → (div * 1024 ≤ v) × (n / 1024 * (div * 1024) ≤ v) × (v < (n / 1024 + 1) * (div * 1024))
  next_unit h =
      let q = n / 1024 in
      let a : 1024 * div ≤ n * div = mul-le-mul_right div h in
      let b : q * 1024 * div ≤ n * div = mul-le-mul_right div (omega arith) in
      let c : (n + 1) * div ≤ (q * 1024 + 1024) * div = mul-le-mul_right div (omega arith) in
      (omega (arith, a), omega (arith, b), omega (arith, c))

scale-Scaled :
    (fuel n div exp v : ℕ)
    → exp + fuel ≡ 6
    → div ≡ unit_size exp
    → 1 ≤ n
    → n * div ≤ v
    → v < (n + 1) * div
    → v < 2 ^ 64
    → Scaled v (scale fuel n div exp)
unfolding scale unit_size
scale-Scaled zero n div exp v f d s low high bound =
    let last : div ≡ unit_size 6 = d ∙ ap unit_size {y = 6} (omega arith) in
    absurd (omega (arith, last, mul-le-mul_right div s))
scale-Scaled (suc fuel) n div exp v f d s low high bound =
    let P = λ (b : Bool).
      Scaled v
        (if b then scale fuel (n / unit) (div * unit % 2 ^ 64) (exp + 1) else some (div, exp)) in
    elim (Bool-cases (leb unit n)) [
      | inr done ↦
          let (a, b) = last_unit n div v s low high (ground arith) in
          subst P (sym done) (d, omega arith, a, b)
      | inl more ↦
          let (a, b, c) = next_unit n div v s low high (ground arith) in
          let wrapped : div * 1024 % 2 ^ 64 ≡ div * 1024 = omega (arith, a) in
          let grown : div * 1024 ≡ unit_size (exp + 1) =
            let step : suc exp ≡ exp + 1 = omega arith in
            subst (λ k. div * 1024 ≡ unit_size k) step (ap (λ (u : ℕ). u * 1024) d) in
          subst P (sym more) (
            subst (λ w. Scaled v (scale fuel (n / unit) w (exp + 1))) (sym wrapped)
              (scale-Scaled fuel (n / 1024) (div * 1024) (exp + 1) v (omega arith) grown
                (ground arith) b c bound))
    ]

-- The letter of every unit that the loop can reach.
letter_of : (exp : ℕ) → exp < 6 → (c : ℕ) × (letter_at unit_letters exp ≡ some c)
letter_of zero h = (b'K', refl)
letter_of (suc zero) h = (b'M', refl)
letter_of (suc (suc zero)) h = (b'G', refl)
letter_of (suc (suc (suc zero))) h = (b'T', refl)
letter_of (suc (suc (suc (suc zero)))) h = (b'P', refl)
letter_of (suc (suc (suc (suc (suc zero))))) h = (b'E', refl)
letter_of (suc (suc (suc (suc (suc (suc exp)))))) h = absurd (omega arith)

Scaled-some :
    (v : ℕ) (o : Option (ℕ × ℕ))
    → Scaled v o
    → (div : ℕ) × (exp : ℕ) × (o ≡ some (div, exp)) × Scaled v (some (div, exp))
Scaled-some v none s = absurd s
Scaled-some v (some (div, exp)) s = (div, exp, refl, s)

-- The text of a number in a unit of which it has at least one, and fewer than 1024.
abbrev pub InUnit : Writing → ℕ → Type 0
InUnit w v =
    (div : ℕ) × (exp : ℕ) × (letter : ℕ) × (div ≡ unit_size exp)
    × (div ≤ v)
    × (v < div * 1024)
    × (letter_at (codes "KMGTPE") exp ≡ some letter)
    × (human_bytes w v ≡ some (w.one_place v div ++ (b' ' ∷ letter ∷ codes "iB")))

human_bytes-InUnit : (w : Writing) (v : ℕ) → 1024 ≤ v → v < 2 ^ 64 → InUnit w v
unfolding human_bytes
human_bytes-InUnit w v h bound =
    let scaled =
      scale-Scaled 6 (v / 1024) 1024 0 v refl (unfold unit_size in refl) (omega arith) (omega arith)
        (omega arith) bound in
    let (div, exp, found, fits) = Scaled-some v (scale 6 (v / 1024) 1024 0) scaled in
    let (size, within, low, high) = fits in
    let (letter, at) = letter_of exp within in
    (div, exp, letter, size, low, high, at, ground (arith, found, at))

human_bytes_small :
    (w : Writing) (v : ℕ) → v < 1024 → human_bytes w v ≡ some (w.decimal v ++ codes " B")
unfolding human_bytes
human_bytes_small w v h = ground arith

-- Every `uint64` has a text: below 1024 that of the bytes themselves, and else that of its quotient by
-- a power of 1024 of which the number holds at least one and fewer than 1024, with the letter of that
-- power; so the loop stops, and no index is out of range.
pub human_bytes_total :
    (w : Writing) (v : ℕ)
    → v < 2 ^ 64
    → ((v < 1024) × (human_bytes w v ≡ some (w.decimal v ++ codes " B")))
      ⊎ ((1024 ≤ v) × InUnit w v)
human_bytes_total w v bound = elim (Bool-cases (leb 1024 v)) [
  | inl large ↦ let h : 1024 ≤ v = ground (arith, large) in inr (h, human_bytes-InUnit w v h bound)
  | inr small ↦ let h : v < 1024 = ground (arith, small) in inl (h, human_bytes_small w v h)
]
