-- ===== src/Config/Accepted.antt =====
-- internal/config/config.go: what a configuration has that `validate` accepts.
use gem_gate.Prelude.{
  Bool, true, false, not, ◌&&◌, ◌||◌, ◌≡◌, sym, ap, ◌∙◌, inl, inr, Option, none, ℤ, List, [], ◌∷◌,
  map, All, length, Result-cases, ◌<◌, ok, is_negative, arith,
}
use gem_gate.Text.{Text, contains, is_empty, trim_space}
use gem_gate.Cors.{CorsConfig, is_enabled, star}
use gem_gate.Config.{Runtime}
use gem_gate.Config.Checks.{Url, first_failure}
use gem_gate.Config.Validation.{
  validate_providers, validate_clients, validate_origins, cors_failure, settings_failure, validate,
}
use gem_gate.Config.Validation.Failures.{Distinct}
use gem_gate.Config.Validation.Loops.{
  names, enabled_tokens, EnabledOk, ProviderOk, validate_providers-accepts,
  validate_clients-accepts,
}

-- A policy with both the wildcard and credentials, as far as the configuration decides.
abbrev pub wildcard_offered : CorsConfig → Bool
wildcard_offered c = contains (map trim_space c.allowed_origins) star && c.allow_credentials

module _ (parse_url : Text → Option Url) where
  validate_origins-star :
      (wildcard : Bool) (entries : List Text) (result : Bool)
      → validate_origins parse_url wildcard entries ≡ ok result
      → result ≡ (wildcard || contains (map trim_space entries) star)
  unfolding validate_origins contains
  validate_origins-star wildcard [] result h = ground (arith, h)
  validate_origins-star wildcard (entry ∷ entries) result h = ground (
    arith,
    h,
    validate_origins-star true entries result,
    validate_origins-star wildcard entries result,
  )

  cors_failure-wildcard :
      (c : CorsConfig) (max_age : ℤ)
      → cors_failure parse_url c max_age ≡ none
      → (is_enabled c.enabled && wildcard_offered c) ≡ false
  unfolding cors_failure first_failure
  cors_failure-wildcard c max_age h =
      elim (Result-cases (validate_origins parse_url false c.allowed_origins)) [
        | inl (e, failed) ↦ ground (arith, h, failed)
        | inr (w, done) ↦
            ground (arith, h, done, validate_origins-star false c.allowed_origins w done)
      ]

  module _ {T P : Type 0} where
    accepted_parts :
        (rt : Runtime T P)
        → validate parse_url rt ≡ none
        → (tokens : List Text) × (validate_providers parse_url rt.provider_circuits
              rt.config.default_provider [] false rt.config.providers
            ≡ ok true)
          × (validate_clients [] rt.config.clients ≡ ok tokens)
          × (settings_failure parse_url rt tokens ≡ none)
    unfolding validate
    accepted_parts rt h =
        elim (Result-cases (
          validate_providers parse_url rt.provider_circuits rt.config.default_provider [] false
            rt.config.providers)) [
              | inl (e, failed) ↦ absurd (ground (arith, h, failed))
              | inr (false, loop) ↦ absurd (ground (arith, h, loop))
              | inr (true, loop) ↦ elim (Result-cases (validate_clients [] rt.config.clients)) [
                | inl (e, failed) ↦ absurd (ground (arith, h, loop, failed))
                | inr (tokens, clients) ↦ (tokens, loop, clients, ground (arith, h, loop, clients))
              ]
            ]

    settings_parts :
        (rt : Runtime T P) (tokens : List Text)
        → settings_failure parse_url rt tokens ≡ none
        → (0 < length tokens)
          × ((not (is_empty rt.config.operations.token)
                && contains tokens rt.config.operations.token)
              ≡ false)
          × (is_negative rt.request_body_limit ≡ false)
          × (cors_failure parse_url rt.config.server.cors rt.cors_max_age ≡ none)
    unfolding settings_failure first_failure
    settings_parts rt tokens h = ground (arith, h)

    -- What every accepted configuration has.
    pub record Accepted (rt : Runtime T P) : Type 0 where
      pub providers_ok : All (ProviderOk parse_url rt.provider_circuits) rt.config.providers
      pub names_distinct : Distinct (names rt.config.providers)
      pub default_named : contains (names rt.config.providers) rt.config.default_provider ≡ true
      pub clients_ok : All EnabledOk rt.config.clients
      pub tokens_distinct : Distinct (enabled_tokens rt.config.clients)
      pub some_client : 0 < length (enabled_tokens rt.config.clients)
      pub operations_apart :
          (not (is_empty rt.config.operations.token)
            && contains (enabled_tokens rt.config.clients) rt.config.operations.token)
          ≡ false
      pub limit_ok : is_negative rt.request_body_limit ≡ false
      pub no_wildcard_credentials :
          (is_enabled rt.config.server.cors.enabled && wildcard_offered rt.config.server.cors)
          ≡ false

    -- A configuration that `validate` accepts names its providers distinctly, in the allowed form and
    -- with a known type, an absolute http(s) URL without userinfo, a key where the type needs one
    -- and positive circuit settings where the breaker is enabled; it has the default provider, an
    -- enabled client, distinct tokens for the enabled clients, which have a name and no negative
    -- limit, and an operations token that is none of theirs; its body limit is not negative, and an
    -- enabled CORS policy has no wildcard with credentials.
    pub validate-Accepted : (rt : Runtime T P) → validate parse_url rt ≡ none → Accepted rt
    unfolding contains
    validate-Accepted rt h =
        let (tokens, loop, clients, settings) = accepted_parts rt h in
        let ps =
          validate_providers-accepts parse_url rt.provider_circuits rt.config.default_provider []
            false rt.config.providers true loop in
        let cs = validate_clients-accepts [] rt.config.clients tokens clients in
        let rest = settings_parts rt tokens settings in
        record {
          providers_ok = ps.0;
          names_distinct = ps.1;
          default_named = sym ps.3;
          clients_ok = cs.0;
          tokens_distinct = cs.1;
          some_client = omega (arith, cs.3, rest.0);
          operations_apart =
              ap (λ b. not (is_empty rt.config.operations.token) && b)
                (sym (cs.4 rt.config.operations.token))
              ∙ rest.1;
          limit_ok = rest.2;
          no_wildcard_credentials =
              cors_failure-wildcard rt.config.server.cors rt.cors_max_age rest.3;
        }
