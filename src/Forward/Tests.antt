-- ===== src/Forward/Tests.antt =====
-- The forwarding rules on small header maps.
use gem_gate.Prelude.{◌≡◌, refl, [], ◌∷◌, ◌++◌, ◌||◌, if◌then◌else◌}
use gem_gate.Text.{codes, text_eq, to_lower, contains}
use gem_gate.Header.{Header, stored, canonical_key}
use gem_gate.Forward.{copy_request_headers}
use gem_gate.Forward.Rules.{Keyed, left_out, listed_by, copy_request_headers-exact}

abbrev sent : Header
sent =
    (codes "X-Api-Key", codes "secret" ∷ [])
    ∷ (codes "Accept", codes "a" ∷ codes "b" ∷ [])
    ∷ (codes "Connection", codes "x-drop" ∷ [])
    ∷ (codes "X-Drop", codes "c" ∷ [])
    ∷ []

sent-Keyed : Keyed sent
unfolding stored text_eq canonical_key
sent-Keyed = (refl, refl, (refl, refl, (refl, refl, (refl, refl, tt))))

copy_request_headers-exact_example : stored (copy_request_headers [] sent) (codes "X-Drop") ≡ (
    if contains left_out (to_lower (codes "X-Drop"))
      || contains (listed_by sent) (to_lower (codes "X-Drop"))
    then stored [] (codes "X-Drop")
    else stored [] (codes "X-Drop") ++ stored sent (codes "X-Drop"))
copy_request_headers-exact_example = copy_request_headers-exact [] sent (codes "X-Drop") sent-Keyed
