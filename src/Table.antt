-- ===== src/Table.antt =====
-- Go maps with text keys, as association lists. An assignment replaces the entry of its key, and a
-- new key comes last.
use gem_gate.Prelude.{◌≡◌, refl, Option, none, some, List, [], ◌∷◌, if◌then◌else◌, arith}
use gem_gate.Text.{Text, text_eq}
use gem_gate.Text.Equality.{text_eq_iff}

module _ {ℓ} {V : Type ℓ} where
  unfoldable pub find_name : List (Text × V) → Text → Option V
  find_name [] name = none
  find_name ((n, v) ∷ rest) name = if text_eq n name then some v else find_name rest name

  unfoldable pub assign : List (Text × V) → Text → V → List (Text × V)
  assign [] name v = (name, v) ∷ []
  assign ((n, w) ∷ rest) name v =
      if text_eq n name then (name, v) ∷ rest else (n, w) ∷ assign rest name v

  pub find-assign :
      (entries : List (Text × V)) (name j : Text) (v : V)
      → find_name (assign entries name v) j
        ≡ (if text_eq name j then some v else find_name entries j)
  unfolding find_name assign
  find-assign [] name j v = refl
  find-assign ((n, w) ∷ rest) name j v =
      ground
        (arith, text_eq_iff n name, text_eq_iff name j, text_eq_iff n j, find-assign rest name j v)
