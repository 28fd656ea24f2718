-- ===== src/Text/Case.antt =====
-- ASCII case.
use gem_gate.Prelude.{ℕ, ◌≡◌, refl, ap₂, [], ◌∷◌, arith}
use gem_gate.Text.{Text, lower_byte, upper_byte, to_lower}

pub lower_byte-upper_byte : (c : ℕ) → lower_byte (upper_byte c) ≡ lower_byte c
unfolding lower_byte upper_byte
lower_byte-upper_byte c = ground arith

pub lower_byte_idem : (c : ℕ) → lower_byte (lower_byte c) ≡ lower_byte c
unfolding lower_byte
lower_byte_idem c = ground arith

pub to_lower_idem : (s : Text) → to_lower (to_lower s) ≡ to_lower s
unfolding to_lower
to_lower_idem [] = refl
to_lower_idem (c ∷ s) = ap₂ ◌∷◌ (lower_byte_idem c) (to_lower_idem s)
