-- ===== src/Config/Defaults.antt =====
-- internal/config/config.go: `applyDefaults` and `syncLegacyUpstream`, part by part.
use gem_gate.Prelude.{
  zero, Bool, true, false, Option, none, some, ℤ, pos, List, [], ◌∷◌, map, if◌then◌else◌,
  is_positive,
}
use gem_gate.Text.{
  Text, codes, text_eq, is_empty, to_lower, to_upper, trim_space, trim_right, trim_suffix,
}
use gem_gate.Cors.{CorsConfig, star}
use gem_gate.Provider.{lookup, normalize_type}
use gem_gate.Config.{
  Config, ServerConfig, UpstreamConfig, ProviderConfig, ClientConfig, CircuitBreakerConfig,
  LoggingConfig, RateLimitConfig, default_circuit_failure_threshold, default_rate_limit_backend,
  default_redis_rate_limit_prefix,
}

-- `if value == "" { value = fallback }`
abbrev pub or_text : Text → Text → Text
or_text value fallback = if is_empty value then fallback else value

abbrev or_texts : List Text → List Text → List Text
or_texts [] fallback = fallback
or_texts (v ∷ vs) fallback = v ∷ vs

abbrev or_enabled : Option Bool → Option Bool
or_enabled none = some true
or_enabled (some b) = some b

-- An origin without the slash at its end.
abbrev clean_origin : Text → Text
clean_origin origin =
    let trimmed = trim_space origin in
    if text_eq trimmed star then trimmed else trim_suffix trimmed (codes "/")

unfoldable pub cors_defaults : CorsConfig → CorsConfig
cors_defaults c = record {
  enabled = or_enabled c.enabled;
  allowed_origins = map clean_origin (or_texts c.allowed_origins (star ∷ []));
  allowed_methods =
      map (λ m. to_upper (trim_space m))
        (or_texts c.allowed_methods (
          codes "GET"
          ∷ codes "POST"
          ∷ codes "PUT"
          ∷ codes "PATCH"
          ∷ codes "DELETE"
          ∷ codes "OPTIONS"
          ∷ []));
  allowed_headers = map trim_space (
      or_texts c.allowed_headers
        (codes "Authorization" ∷ codes "Content-Type" ∷ codes "X-Request-ID" ∷ []));
  allow_credentials = c.allow_credentials;
  max_age = or_text c.max_age (codes "10m");
}

unfoldable pub server_defaults : ServerConfig → ServerConfig
unfolding cors_defaults
server_defaults s = record {
  listen = or_text s.listen (codes ":8080");
  read_timeout = or_text s.read_timeout (codes "30s");
  write_timeout = or_text s.write_timeout (codes "0s");
  idle_timeout = or_text s.idle_timeout (codes "120s");
  public_health = s.public_health;
  request_body_limit = or_text s.request_body_limit (codes "32MiB");
  trusted_proxies = map trim_space s.trusted_proxies;
  cors = cors_defaults s.cors;
}

unfoldable pub logging_defaults : LoggingConfig → LoggingConfig
logging_defaults l = record l { recent = if is_positive l.recent then l.recent else pos 300 }

-- `DefaultRedisRateLimitTimeout.String()` is "2s".
unfoldable pub rate_limit_defaults : RateLimitConfig → RateLimitConfig
rate_limit_defaults r = record {
  backend = or_text (to_lower (trim_space r.backend)) default_rate_limit_backend;
  redis = record {
    url = trim_space r.redis.url;
    url_file = trim_space r.redis.url_file;
    key_prefix = or_text (trim_space r.redis.key_prefix) default_redis_rate_limit_prefix;
    timeout = or_text r.redis.timeout (codes "2s");
    fail_open = r.redis.fail_open;
  };
}

-- The settings of a single provider, of older configuration files.
unfoldable pub upstream_defaults : UpstreamConfig → UpstreamConfig
upstream_defaults u = record u {
  base_url = or_text u.base_url (codes "https://generativelanguage.googleapis.com");
  timeout = or_text u.timeout (codes "0s");
}

unfoldable pub legacy_provider : UpstreamConfig → ProviderConfig
legacy_provider u = record {
  name = codes "gemini";
  type = codes "gemini";
  base_url = u.base_url;
  api_key = u.api_key;
  api_key_file = u.api_key_file;
  timeout = u.timeout;
  headers = [];
  circuit_breaker = record { enabled = none; failure_threshold = pos 0; open_for = [] };
}

abbrev is_zero : ℤ → Bool
is_zero z = elim z [ pos zero ↦ true | _ ↦ false ]

-- `DefaultCircuitOpenFor.String()` is "30s".
unfoldable pub breaker_defaults : CircuitBreakerConfig → CircuitBreakerConfig
breaker_defaults c = record {
  enabled = or_enabled c.enabled;
  failure_threshold =
      if is_zero c.failure_threshold
      then default_circuit_failure_threshold
      else c.failure_threshold;
  open_for = or_text c.open_for (codes "30s");
}

-- The base URL of the catalogue, where a known type has none of its own.
unfoldable pub catalog_base_url : Text → Text → Text
catalog_base_url type base_url = elim (lookup type) [
  | none ↦ base_url
  | some spec ↦ or_text base_url spec.default_base_url
]

unfoldable pub provider_defaults : ProviderConfig → ProviderConfig
unfolding breaker_defaults catalog_base_url
provider_defaults p =
    let type = or_text (normalize_type p.type) (codes "openai-compatible") in
    record {
      name = trim_space p.name;
      type = type;
      base_url = trim_right (trim_space (catalog_base_url type p.base_url)) b'/';
      api_key = p.api_key;
      api_key_file = trim_space p.api_key_file;
      timeout = or_text p.timeout (codes "0s");
      headers = p.headers;
      circuit_breaker = breaker_defaults p.circuit_breaker;
    }

unfoldable pub client_defaults : ClientConfig → ClientConfig
client_defaults c = record c { token_file = trim_space c.token_file }

abbrev first_name : List ProviderConfig → Text
first_name [] = []
first_name (p ∷ ps) = p.name

-- `syncLegacyUpstream`: the loop over the providers.
unfoldable pub legacy_upstream : UpstreamConfig → Text → List ProviderConfig → UpstreamConfig
legacy_upstream u default [] = u
legacy_upstream u default (p ∷ ps) =
    if text_eq p.name default
    then record {
      base_url = p.base_url;
      api_key = p.api_key;
      api_key_file = p.api_key_file;
      timeout = p.timeout;
    }
    else legacy_upstream u default ps

module _ {T : Type 0} where
  unfoldable pub sync_legacy_upstream : Config T → Config T
  unfolding legacy_upstream
  sync_legacy_upstream cfg = record cfg {
    upstream = legacy_upstream cfg.upstream cfg.default_provider cfg.providers;
  }

  -- Without providers the upstream settings become one, which is the default one if none is named.
  unfoldable pub with_providers : Config T → Config T
  unfolding upstream_defaults legacy_provider
  with_providers cfg = elim cfg.providers [
    | [] ↦
        let upstream = upstream_defaults cfg.upstream in
        record cfg {
          upstream = upstream;
          providers = legacy_provider upstream ∷ [];
          default_provider = or_text cfg.default_provider (codes "gemini");
        }
    | p ∷ ps ↦ cfg
  ]

  unfoldable pub apply_defaults : Config T → Config T
  unfolding server_defaults logging_defaults rate_limit_defaults with_providers provider_defaults
      client_defaults sync_legacy_upstream
  apply_defaults cfg =
      let listed = with_providers cfg in
      let providers = map provider_defaults listed.providers in
      sync_legacy_upstream (record listed {
        server = server_defaults cfg.server;
        logging = logging_defaults cfg.logging;
        operations = record {
          token = trim_space cfg.operations.token;
          token_file = trim_space cfg.operations.token_file;
        };
        rate_limit = rate_limit_defaults cfg.rate_limit;
        providers = providers;
        clients = map client_defaults cfg.clients;
        default_provider = or_text listed.default_provider (first_name providers);
      })
