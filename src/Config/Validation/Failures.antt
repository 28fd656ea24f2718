-- ===== src/Config/Validation/Failures.antt =====
-- internal/config/config.go: what it means that a sequence of checks finds nothing, and names that
-- do not occur twice.
use gem_gate.Prelude.{Bool, true, false, ◌≡◌, refl, none, List, [], ◌∷◌, All, arith}
use gem_gate.Text.{Text, contains}
use gem_gate.Text.Equality.{text_eq_iff}
use gem_gate.Config.Checks.{ConfigError, first_failure}

abbrev pub Passed : List (Bool × ConfigError) → Type 0
Passed [] = Unit {0}
Passed ((fails, e) ∷ checks) = (fails ≡ false) × Passed checks

pub first_failure-Passed :
    (checks : List (Bool × ConfigError)) → first_failure checks ≡ none → Passed checks
unfolding first_failure
first_failure-Passed [] h = tt
first_failure-Passed ((true, e) ∷ checks) h = cc
first_failure-Passed ((false, e) ∷ checks) h = (refl, first_failure-Passed checks h)

abbrev pub Distinct : List Text → Type 0
Distinct [] = Unit {0}
Distinct (name ∷ names) = (contains names name ≡ false) × Distinct names

-- Names that are none of those seen.
abbrev pub Unseen : List Text → List Text → Type 0
Unseen seen names = All (λ name. contains seen name ≡ false) names

pub Unseen-cons :
    (x : Text) (seen names : List Text)
    → Unseen (x ∷ seen) names
    → (contains names x ≡ false) × Unseen seen names
unfolding contains
Unseen-cons x seen [] h = (refl, tt)
Unseen-cons x seen (name ∷ names) h =
    let rest = Unseen-cons x seen names h.1 in
    (
      ground (arith, text_eq_iff x name, text_eq_iff name x, h.0, rest.0),
      (ground (arith, h.0), rest.1),
    )

pub Unseen-nil : (names : List Text) → Distinct names → Unseen [] names
unfolding contains
Unseen-nil [] d = tt
Unseen-nil (name ∷ names) d = (refl, Unseen-nil names d.1)
