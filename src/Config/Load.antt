-- ===== src/Config/Load.antt =====
-- internal/config/config.go: `Load`, from the decoded configuration on. Reading the file and decoding
-- its YAML come before; `envPattern` is at the end.
pub mod Settings
pub mod Loaded
use gem_gate.Prelude.{
  ℕ, ◌||◌, ◌&&◌, Bool, true, false, Option, none, some, ℤ, pos, List, [], ◌∷◌, ◌++◌, leb, ◌==◌,
  if◌then◌else◌, Result, ok, err, ◌>>=◌,
}
use gem_gate.Text.{Text, codes, text_eq}
use gem_gate.Table.{assign}
use gem_gate.Config.{Config, Runtime, ProviderConfig, CircuitBreakerRuntime, breaker_enabled}
use gem_gate.Config.Defaults.{apply_defaults, sync_legacy_upstream}
use gem_gate.Config.Secrets.{Files, SecretError, resolve_secret_files}
use gem_gate.Config.Numbers.{Parsers, NumberError, duration_of, parse_bytes}
use gem_gate.Config.Proxies.{Prefixes, ProxyError, parse_trusted_proxies}
use gem_gate.Config.Checks.{Url, ConfigError}
use gem_gate.Config.Validation.{validate}

-- What `Load` uses of other packages.
pub record Platform (A P : Type 0) : Type 0 where
  pub files : Files
  pub parsers : Parsers
  pub net : Prefixes A P
  pub parse_url : Text → Option Url

-- `setting` names the setting that is no duration or size.
pub data LoadError : Type 0 where
  secret_failed : SecretError → LoadError
  bad_setting : Text → NumberError → LoadError
  bad_proxies : ProxyError → LoadError
  rejected : ConfigError → LoadError

abbrev pub wrapped {ℓ κ} :
    {E : Type ℓ} {A : Type κ} → (E → LoadError) → Result E A → Result LoadError A
wrapped wrap (err e) = err (wrap e)
wrapped wrap (ok a) = ok a

-- The maps and the default timeout that the loop over the providers fills.
pub record ProviderSettings : Type 0 where
  pub timeouts : List (Text × ℤ)
  pub circuits : List (Text × CircuitBreakerRuntime)
  pub upstream_timeout : ℤ

module _ {A P : Type 0} (platform : Platform A P) where
  setting : Text → Text → Result LoadError ℤ
  setting name value = wrapped (bad_setting name) (duration_of platform.parsers value)

  unfoldable pub provider_settings :
      Text → ProviderSettings → List ProviderConfig → Result LoadError ProviderSettings
  unfolding setting
  provider_settings default seen [] = ok seen
  provider_settings default seen (p ∷ ps) = setting (p.name ++ codes " timeout") p.timeout >>= λ d.
      setting (p.name ++ codes " circuit_breaker.open_for") p.circuit_breaker.open_for
      >>= λ open_for.
          provider_settings default
            (record {
              timeouts = assign seen.timeouts p.name d;
              circuits = assign seen.circuits p.name (record {
                enabled = breaker_enabled p.circuit_breaker;
                failure_threshold = p.circuit_breaker.failure_threshold;
                open_for = open_for;
              });
              upstream_timeout = if text_eq p.name default then d else seen.upstream_timeout;
            })
            ps

  module _ {T : Type 0} where
    -- The durations, sizes and prefixes of a configuration whose defaults and secrets are in place.
    unfoldable pub runtime_of : Config T → Result LoadError (Runtime T P)
    unfolding provider_settings setting
    runtime_of cfg = do
      read_timeout ← setting (codes "server.read_timeout") cfg.server.read_timeout
      write_timeout ← setting (codes "server.write_timeout") cfg.server.write_timeout
      idle_timeout ← setting (codes "server.idle_timeout") cfg.server.idle_timeout
      limit ←
          wrapped (bad_setting (codes "server.request_body_limit"))
            (parse_bytes platform.parsers cfg.server.request_body_limit)
      max_age ← setting (codes "server.cors.max_age") cfg.server.cors.max_age
      proxies ← wrapped bad_proxies (parse_trusted_proxies platform.net cfg.server.trusted_proxies)
      rate_limit_timeout ← setting (codes "rate_limit.redis.timeout") cfg.rate_limit.redis.timeout
      settings ←
          provider_settings cfg.default_provider
            (record { timeouts = []; circuits = []; upstream_timeout = pos 0 }) cfg.providers
      ok (record {
        config = cfg;
        read_timeout = read_timeout;
        write_timeout = write_timeout;
        idle_timeout = idle_timeout;
        upstream_timeout = settings.upstream_timeout;
        provider_timeouts = settings.timeouts;
        provider_circuits = settings.circuits;
        trusted_proxies = proxies;
        request_body_limit = pos limit;
        cors_max_age = max_age;
        rate_limit_timeout = rate_limit_timeout;
      })

    checked : Runtime T P → Result LoadError (Runtime T P)
    checked rt = elim (validate platform.parse_url rt) [ none ↦ ok rt | some e ↦ err (rejected e) ]

    -- `base_dir` is the directory of the configuration file.
    unfoldable pub load : Text → Config T → Result LoadError (Runtime T P)
    unfolding runtime_of checked
    load base_dir decoded =
        wrapped secret_failed
          (resolve_secret_files platform.files base_dir (apply_defaults decoded))
        >>= λ cfg. runtime_of (sync_legacy_upstream cfg) >>= λ rt. checked rt

-- `envPattern.ReplaceAllStringFunc`: each `${NAME}` is the value of the variable, as `getenv` gives
-- it. The state is the text read of a possible match: nothing, `$`, or `${` with a name.
pub data EnvState : Type 0 where
  outside dollar : EnvState
  in_name : Text → EnvState

abbrev is_name_start : ℕ → Bool
is_name_start c = (leb b'A' c && leb c b'Z') || (leb b'a' c && leb c b'z') || c == b'_'

abbrev extends_name : Text → ℕ → Bool
extends_name [] c = is_name_start c
extends_name (n ∷ name) c = is_name_start c || (leb b'0' c && leb c b'9')

-- What has been read of a match that fails is text; a `$` may begin the next one.
unfoldable pub pending : EnvState → Text
pending outside = []
pending dollar = b'$' ∷ []
pending (in_name name) = b'$' ∷ 0x7B ∷ name

abbrev closes : Text → ℕ → Bool
closes [] c = false
closes (n ∷ name) c = c == 0x7D

-- The text that goes out at a byte, and the next state.
unfoldable pub env_step : (Text → Text) → EnvState → ℕ → Text × EnvState
unfolding pending
env_step getenv outside c = if c == b'$' then ([], dollar) else (c ∷ [], outside)
env_step getenv dollar c =
    if c == 0x7B
    then ([], in_name [])
    else if c == b'$'
    then (b'$' ∷ [], dollar)
    else (b'$' ∷ c ∷ [], outside)
env_step getenv (in_name name) c =
    if closes name c
    then (getenv name, outside)
    else if extends_name name c
    then ([], in_name (name ++ c ∷ []))
    else if c == b'$'
    then (pending (in_name name), dollar)
    else (pending (in_name name) ++ c ∷ [], outside)

unfoldable pub expand_from : (Text → Text) → EnvState → Text → Text
unfolding env_step pending
expand_from getenv state [] = pending state
expand_from getenv state (c ∷ s) =
    let (out, next) = env_step getenv state c in out ++ expand_from getenv next s

unfoldable pub expand_env : (Text → Text) → Text → Text
unfolding expand_from
expand_env getenv s = expand_from getenv outside s
