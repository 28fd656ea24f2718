-- ===== src/Sorting.antt =====
-- Go's `sort` package, as the gateway uses it: `sort.Strings` on names, `sort.Slice` on durations.
-- The library sorts by an order in which equal elements are the same value, so that the result does
-- not depend on its algorithm.
pub mod Order
pub mod Ranks
use gem_gate.Prelude.{ℕ, Bool, true, false, List, [], ◌∷◌, ltb, leb, ◌==◌, if◌then◌else◌}
use gem_gate.Text.{Text}

module _ {ℓ} {A : Type ℓ} (before : A → A → Bool) where
  pub insert_in : A → List A → List A
  insert_in x [] = x ∷ []
  insert_in x (y ∷ ys) = let rest = insert_in x ys in if before x y then x ∷ y ∷ ys else y ∷ rest

  unfoldable pub sort : List A → List A
  unfolding insert_in
  sort [] = []
  sort (x ∷ xs) = insert_in x (sort xs)

-- `s <= t` for strings, by their bytes.
unfoldable pub text_le : Text → Text → Bool
text_le [] t = true
text_le (a ∷ s) [] = false
text_le (a ∷ s) (b ∷ t) = if ltb a b then true else if a == b then text_le s t else false
