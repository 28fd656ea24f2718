-- ===== src/Cors/Tests.antt =====
-- Requests from a listed and from an unlisted origin, and the theorems about the policy there.
use gem_gate.Prelude.{ℕ, false, ◌≡◌, refl, none, pos, [], ◌∷◌, if◌then◌else◌}
use gem_gate.Text.{Text, codes, text_eq, contains, trim_space}
use gem_gate.Header.{Header, stored, header_get, header_values, canonical_key}
use gem_gate.Cors.{
  CorsConfig, CorsHandler, new_cors_policy, handle, origin_of, any_star, named_origins, star,
}
use gem_gate.Cors.Decisions.{handle-listed, headers_of}
use gem_gate.Cors.Verdict.{verdict_of, refused, handle-verdict}

abbrev decimal : ℕ → Text
decimal n = codes "600"

abbrev config : CorsConfig
config = record {
  enabled = none;
  allowed_origins = codes " https://a.example" ∷ [];
  allowed_methods = codes "get" ∷ codes "POST" ∷ [];
  allowed_headers = codes "authorization" ∷ [];
  allow_credentials = false;
  max_age = codes "10m";
}

abbrev policy : CorsHandler
policy = new_cors_policy config (pos 600000000000)

abbrev preflight_from : Text → Header
preflight_from origin =
    (codes "Origin", origin ∷ []) ∷ (codes "Access-Control-Request-Method", codes "GET" ∷ []) ∷ []

-- The origin is not listed, so the preflight request is refused.
handle-verdict_example :
    let request = preflight_from (codes "https://b.example") in
    (verdict_of (handle decimal policy (codes "OPTIONS") request []) ≡ refused)
    × (headers_of (handle decimal policy (codes "OPTIONS") request []) ≡ [])
unfolding new_cors_policy any_star named_origins text_eq contains header_get header_values stored
    canonical_key trim_space
handle-verdict_example =
    handle-verdict decimal policy (codes "OPTIONS") (preflight_from (codes "https://b.example")) []

handle-listed_example :
    stored
      (headers_of
        (handle decimal policy (codes "GET") (preflight_from (codes "https://a.example")) []))
      (codes "Access-Control-Allow-Origin")
    ≡ (if policy.wildcard_origin
        then star
        else origin_of (preflight_from (codes "https://a.example")))
      ∷ []
unfolding new_cors_policy any_star named_origins text_eq contains header_get header_values stored
    canonical_key trim_space
handle-listed_example =
    handle-listed decimal policy (codes "GET") (preflight_from (codes "https://a.example")) [] refl
      refl refl
