-- ===== src/Config/Validation.antt =====
-- internal/config/config.go: `validate`, its loops over the providers, the clients and the origins,
-- and its tests of the settings.
pub mod Failures
pub mod Loops
use gem_gate.Prelude.{
  ℕ, Bool, true, false, not, ◌&&◌, ◌||◌, Option, none, some, ℤ, pos, List, [], ◌∷◌, leb, ltb, ◌==◌,
  length, if◌then◌else◌, Result, ok, err, is_positive, is_negative,
}
use gem_gate.Text.{Text, codes, text_eq, is_empty, contains, trim_space}
use gem_gate.Table.{find_name}
use gem_gate.Config.Checks.{
  no_providers, empty_provider_name, unknown_default, no_enabled_clients, bad_provider_name,
  duplicate_provider, unsupported_type, missing_api_key, missing_base_url, bad_base_url,
  base_url_parts, empty_header, bad_threshold, bad_open_for, empty_client_name, empty_token,
  duplicate_token, negative_rate_limit, shared_operations_token, negative_body_limit, no_origins,
  empty_origin, wildcard_credentials, no_methods, empty_method, no_headers, invalid_origin,
  origin_scheme, origin_path, empty_cors_header, negative_max_age, unknown_backend,
  missing_redis_url, bad_redis_url, redis_fragment, bad_redis_timeout, empty_key_prefix,
  long_key_prefix, control_in_key_prefix, Url, ConfigError, first_failure, provider_name_ok,
  any_empty, keys_of, is_http, not_absolute, extra_parts, any_control, or_failure,
}
use gem_gate.Cors.{CorsConfig, is_enabled, star}
use gem_gate.Provider.{Spec, lookup}
use gem_gate.Config.{
  Config, Runtime, ProviderConfig, ClientConfig, CircuitBreakerRuntime, RateLimitConfig,
  default_circuit_failure_threshold, default_circuit_open_for,
}

abbrev unsupported : Option Spec → Bool
unsupported none = true
unsupported (some spec) = false

abbrev needs_key : Option Spec → Bool
needs_key none = false
needs_key (some spec) = spec.requires_api_key

abbrev pub or_default_policy : Option CircuitBreakerRuntime → CircuitBreakerRuntime
or_default_policy none = record {
  enabled = true;
  failure_threshold = default_circuit_failure_threshold;
  open_for = default_circuit_open_for;
}
or_default_policy (some policy) = policy

unfoldable pub client_failure : List Text → ClientConfig → Option ConfigError
client_failure seen c = first_failure (
    (is_empty (trim_space c.name), empty_client_name)
    ∷ (is_empty (trim_space c.token), empty_token c.name)
    ∷ (contains seen c.token, duplicate_token c.name)
    ∷ (is_negative c.rate_limit_rpm, negative_rate_limit c.name)
    ∷ [])

-- The loop over the clients; the result is the tokens of the enabled ones, the last first.
unfoldable pub validate_clients : List Text → List ClientConfig → Result ConfigError (List Text)
validate_clients seen [] = ok seen
validate_clients seen (c ∷ cs) = elim c.enabled [
  | false ↦ validate_clients seen cs
  | true ↦ elim (client_failure seen c) [
    | some e ↦ err e
    | none ↦ validate_clients (c.token ∷ seen) cs
  ]
]

module _ (parse_url : Text → Option Url) where
  -- The body of the loop over the providers; `seen` are the names so far.
  unfoldable pub provider_failure :
      List (Text × CircuitBreakerRuntime) → List Text → ProviderConfig → Option ConfigError
  unfolding any_empty keys_of
  provider_failure circuits seen p =
      let spec = lookup p.type in
      let u = parse_url p.base_url in
      let policy = or_default_policy (find_name circuits p.name) in
      first_failure (
        (is_empty p.name, empty_provider_name)
        ∷ (not (provider_name_ok p.name), bad_provider_name p.name)
        ∷ (contains seen p.name, duplicate_provider p.name)
        ∷ (unsupported spec, unsupported_type p.type)
        ∷ (needs_key spec && is_empty (trim_space p.api_key), missing_api_key p.name)
        ∷ (is_empty (trim_space p.base_url), missing_base_url p.name)
        ∷ (not_absolute u, bad_base_url p.name)
        ∷ (extra_parts u, base_url_parts p.name)
        ∷ (any_empty (keys_of p.headers), empty_header p.name)
        ∷ (policy.enabled && not (is_positive policy.failure_threshold), bad_threshold p.name)
        ∷ (policy.enabled && not (is_positive policy.open_for), bad_open_for p.name)
        ∷ [])

  -- The loop; the result is whether the default provider was found.
  unfoldable pub validate_providers :
      List (Text × CircuitBreakerRuntime)
      → Text
      → List Text
      → Bool
      → List ProviderConfig
      → Result ConfigError Bool
  validate_providers circuits default seen found [] = ok found
  validate_providers circuits default seen found (p ∷ ps) =
      elim (provider_failure circuits seen p) [
        | some e ↦ err e
        | none ↦
            validate_providers circuits default (p.name ∷ seen) (found || text_eq p.name default) ps
      ]

  abbrev origin_failure : Text → Option ConfigError
  origin_failure origin =
      let u = parse_url origin in
      first_failure (
        (
          elim u [ none ↦ true | some v ↦ is_empty v.scheme || is_empty v.host ] || extra_parts u,
          invalid_origin origin,
        )
        ∷ (elim u [ none ↦ true | some v ↦ not (is_http v) ], origin_scheme origin)
        ∷ (
          elim u [
            | none ↦ true
            | some v ↦ not (is_empty v.path) && not (text_eq v.path (codes "/"))
          ],
          origin_path origin,
        )
        ∷ [])

  -- The loop over the origins; the result is whether one is the wildcard.
  unfoldable pub validate_origins : Bool → List Text → Result ConfigError Bool
  validate_origins wildcard [] = ok wildcard
  validate_origins wildcard (entry ∷ entries) =
      let origin = trim_space entry in
      elim (is_empty origin) [
        | true ↦ err empty_origin
        | false ↦ elim (text_eq origin star) [
          | true ↦ validate_origins true entries
          | false ↦ elim (origin_failure origin) [
            | some e ↦ err e
            | none ↦ validate_origins wildcard entries
          ]
        ]
      ]

  unfoldable pub cors_failure : CorsConfig → ℤ → Option ConfigError
  unfolding any_empty
  cors_failure c max_age =
      if not (is_enabled c.enabled)
      then none
      else if length c.allowed_origins == 0
      then some no_origins
      else elim (validate_origins false c.allowed_origins) [
        | err e ↦ some e
        | ok wildcard ↦ first_failure (
            (wildcard && c.allow_credentials, wildcard_credentials)
            ∷ (length c.allowed_methods == 0, no_methods)
            ∷ (any_empty c.allowed_methods, empty_method)
            ∷ (length c.allowed_headers == 0, no_headers)
            ∷ (any_empty c.allowed_headers, empty_cors_header)
            ∷ (is_negative max_age, negative_max_age)
            ∷ [])
      ]

  unfoldable pub rate_limit_failure : RateLimitConfig → ℤ → Option ConfigError
  unfolding any_control
  rate_limit_failure r timeout =
      if text_eq r.backend (codes "memory")
      then none
      else if not (text_eq r.backend (codes "redis"))
      then some (unknown_backend r.backend)
      else (let u = parse_url r.redis.url in
          first_failure (
            (is_empty (trim_space r.redis.url), missing_redis_url)
            ∷ (
              elim u [
                | none ↦ true
                | some v ↦
                    is_empty v.host
                    || (not (text_eq v.scheme (codes "redis"))
                        && not (text_eq v.scheme (codes "rediss")))
              ],
              bad_redis_url,
            )
            ∷ (elim u [ none ↦ false | some v ↦ not (is_empty v.fragment) ], redis_fragment)
            ∷ (not (is_positive timeout), bad_redis_timeout)
            ∷ (is_empty (trim_space r.redis.key_prefix), empty_key_prefix)
            ∷ (ltb 128 (length r.redis.key_prefix), long_key_prefix)
            ∷ (any_control r.redis.key_prefix, control_in_key_prefix)
            ∷ []))

  module _ {T P : Type 0} where
    -- What follows the loop over the clients, with their tokens.
    unfoldable pub settings_failure : Runtime T P → List Text → Option ConfigError
    settings_failure rt tokens =
        or_failure
          (first_failure (
            (length tokens == 0, no_enabled_clients)
            ∷ (
              not (is_empty rt.config.operations.token)
                  && contains tokens rt.config.operations.token,
              shared_operations_token,
            )
            ∷ (is_negative rt.request_body_limit, negative_body_limit)
            ∷ []))
          (or_failure (cors_failure rt.config.server.cors rt.cors_max_age)
            (rate_limit_failure rt.config.rate_limit rt.rate_limit_timeout))

    -- The error that `validate` returns, if any.
    unfoldable pub validate : Runtime T P → Option ConfigError
    validate rt =
        if length rt.config.providers == 0
        then some no_providers
        else elim (validate_providers rt.provider_circuits rt.config.default_provider [] false
            rt.config.providers) [
              | err e ↦ some e
              | ok false ↦ some unknown_default
              | ok true ↦ elim (validate_clients [] rt.config.clients) [
                | err e ↦ some e
                | ok tokens ↦ settings_failure rt tokens
              ]
            ]
