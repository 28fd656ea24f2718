-- ===== src/Header/Lookup.antt =====
-- What is read back from a header.
use gem_gate.Prelude.{
  ℕ, Bool, true, false, ◌≡◌, refl, List, [], ◌∷◌, ◌++◌, if◌then◌else◌, arith, ◌==◌, ap₂,
}
use gem_gate.Text.{Text, text_eq, to_lower}
use gem_gate.Text.Equality.{text_eq_iff}
use gem_gate.Text.Case.{lower_byte-upper_byte, lower_byte_idem}
use gem_gate.Text.{lower_byte, upper_byte}
use gem_gate.Header.{
  Header, stored, store_values, remove_key, header_set, header_add, header_del, canonical_key,
  capitalize,
}

pub stored-store_values :
    (h : Header) (k j : Text) (vs : List Text)
    → stored (store_values h k vs) j ≡ (if text_eq k j then vs else stored h j)
unfolding stored store_values
stored-store_values [] k j vs = refl
stored-store_values ((i, ws) ∷ h) k j vs =
    ground (arith, text_eq_iff i k, text_eq_iff k j, text_eq_iff i j, stored-store_values h k j vs)

pub stored-remove_key :
    (h : Header) (k j : Text) → stored (remove_key h k) j ≡ (if text_eq k j then [] else stored h j)
unfolding stored remove_key
stored-remove_key [] k j = ground arith
stored-remove_key ((i, ws) ∷ h) k j =
    ground (arith, text_eq_iff i k, text_eq_iff k j, text_eq_iff i j, stored-remove_key h k j)

lower_either :
    (upper : Bool) (c : ℕ)
    → lower_byte (if upper then upper_byte c else lower_byte c) ≡ lower_byte c
lower_either true c = lower_byte-upper_byte c
lower_either false c = lower_byte_idem c

to_lower-capitalize : (upper : Bool) (s : Text) → to_lower (capitalize upper s) ≡ to_lower s
unfolding to_lower capitalize
to_lower-capitalize upper [] = refl
to_lower-capitalize upper (c ∷ s) =
    ap₂ ◌∷◌ (lower_either upper c) (to_lower-capitalize (c == 0x2D) s)

-- A key and its canonical form differ in case only.
pub to_lower-canonical_key : (s : Text) → to_lower (canonical_key s) ≡ to_lower s
unfolding canonical_key
to_lower-canonical_key s = ground (arith, to_lower-capitalize true s)

module _ (h : Header) (k j v : Text) where
  pub stored-header_set :
      stored (header_set h k v) j ≡ (if text_eq (canonical_key k) j then v ∷ [] else stored h j)
  unfolding header_set
  stored-header_set = stored-store_values h (canonical_key k) j (v ∷ [])

  pub stored-header_add :
      stored (header_add h k v) j
      ≡ (if text_eq (canonical_key k) j then stored h j ++ v ∷ [] else stored h j)
  unfolding header_add
  stored-header_add =
      rw (stored-store_values h (canonical_key k) j (stored h (canonical_key k) ++ v ∷ []))
        (ground (arith, text_eq_iff (canonical_key k) j))

pub stored-header_del :
    (h : Header) (k j : Text)
    → stored (header_del h k) j ≡ (if text_eq (canonical_key k) j then [] else stored h j)
unfolding header_del
stored-header_del h k j = stored-remove_key h (canonical_key k) j
