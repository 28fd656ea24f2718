-- ===== src/Route/Tests.antt =====
-- Routes and bodies, and the theorems about them at concrete inputs.
use gem_gate.Prelude.{
  ℕ, suc, ◌≤◌, pos, negsuc, ◌≡◌, refl, false, some, List, [], ◌∷◌, ok, err, arith,
}
use gem_gate.Text.{Text, codes, cut, cut_prefix}
use gem_gate.Route.{bad_provider_route, resolve_provider, Stream, prepare_body, read_limited}
use gem_gate.Route.Paths.{Resolved, resolve_provider-Resolved}
use gem_gate.Route.Bodies.{prepare_body_exact}

abbrev providers : List (Text × ℕ)
providers = (codes "groq", 1) ∷ (codes "xai", 2) ∷ []

no_name : resolve_provider 0 providers (codes "/providers//v1") ≡ err bad_provider_route
unfolding resolve_provider cut cut_prefix
no_name = refl

default_route : resolve_provider 0 providers (codes "/v1/models") ≡ ok (0, codes "/v1/models")
unfolding resolve_provider cut_prefix
default_route = refl

resolve_provider-Resolved_example :
    Resolved 0 providers (codes "/v1/models") (0, codes "/v1/models")
resolve_provider-Resolved_example =
    resolve_provider-Resolved 0 providers (codes "/v1/models") (0, codes "/v1/models") default_route

abbrev three : Stream
three = record { content = 1 ∷ 2 ∷ 3 ∷ []; fails = false }

three_prepared : prepare_body (pos 3) (some three) (negsuc 0) ≡ ok (some three, pos 3)
unfolding prepare_body read_limited
three_prepared = refl

prepare_body_exact_example :
    (some three ≡ some three) × (pos 3 ≡ pos 3) × (3 ≤ suc 2) × (three.fails ≡ false)
prepare_body_exact_example =
    prepare_body_exact 2 three (negsuc 0) (some three) (pos 3) (omega arith) three_prepared
