-- ===== src/Access/Tests.antt =====
-- Bearer tokens, and the theorems about the two planes at concrete inputs.
use gem_gate.Prelude.{◌≡◌, refl, true, pos, [], ◌∷◌}
use gem_gate.Text.{codes, text_eq, trim_space, cut, equal_fold}
use gem_gate.Header.{Header, header_get, header_values, stored, canonical_key}
use gem_gate.Access.{AccessState, bearer_token, is_operational_path}

abbrev state : AccessState
state = record {
  tokens = (codes "app", record { name = codes "local"; rate_limit_rpm = pos 120 }) ∷ [];
  operations_token = codes "ops";
}

abbrev operator : Header
operator = (codes "Authorization", codes "bearer  ops " ∷ []) ∷ []

spaced_token : bearer_token operator ≡ codes "ops"
unfolding bearer_token header_get header_values stored canonical_key text_eq trim_space cut
    equal_fold
spaced_token = refl

operational_paths : is_operational_path (codes "/_metrics") ≡ true
unfolding is_operational_path text_eq
operational_paths = refl
