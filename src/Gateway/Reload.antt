-- ===== src/Gateway/Reload.antt =====
-- internal/gateway/runtime.go: `Reload` and `validateHotReload`. `reflect.DeepEqual` is a parameter.
pub mod Clients
pub mod Atomic
use gem_gate.Prelude.{
  ℕ, Bool, true, false, not, ◌&&◌, Option, none, some, ℤ, pos, negsuc, List, [], ◌∷◌, ◌++◌, ◌==◌,
  length, if◌then◌else◌, Result, ok, err,
}
use gem_gate.Text.{Text, codes, text_eq}
use gem_gate.Access.{ClientAuth}
use gem_gate.Config.{Config, Runtime, RateLimitConfig}
use gem_gate.Config.Checks.{Url}
use gem_gate.LogRing.{LogEntry, add, resize}
use gem_gate.RateLimit.{RateLimitBackend, retain_tokens}
use gem_gate.Gateway.{Gateway, RuntimeSnapshot}
use gem_gate.Gateway.Snapshot.{Building, BuildError, build_runtime_snapshot}

-- The settings that a reload may not change, and an error of the build.
pub data ReloadError : Type 0 where
  listen_changed read_timeout_changed write_timeout_changed idle_timeout_changed : ReloadError
  rate_limit_changed telemetry_changed : ReloadError
  build_failed : BuildError → ReloadError

pub data ReloadResult : Type 0 where
  unchanged : ReloadResult
  reloaded : (providers clients : ℕ) → ReloadResult
  rejected : ReloadError → ReloadResult

infix 50 ◌==ℤ◌
abbrev pub ◌==ℤ◌ : ℤ → ℤ → Bool
◌==ℤ◌ (pos m) (pos n) = m == n
◌==ℤ◌ (negsuc m) (negsuc n) = m == n
◌==ℤ◌ _ _ = false

-- The equalities that `reflect.DeepEqual` decides.
pub record DeepEqual (T : Type 0) : Type 0 where
  pub same_config : Config T → Config T → Bool
  pub same_rate_limit : RateLimitConfig → RateLimitConfig → Bool
  pub same_telemetry : T → T → Bool

abbrev system : Text
system = codes "system"

-- An entry of the gateway itself.
abbrev pub system_entry : ℕ → Text → Text → LogEntry
system_entry time level message = record {
  time = time;
  level = level;
  client = system;
  client_ip = [];
  provider = [];
  method = [];
  path = [];
  status = 0;
  bytes = 0;
  duration = 0;
  request_id = [];
  message = message;
}

-- The keys of a map, as `range` meets them.
unfoldable pub token_keys : List (Text × ClientAuth) → List Text
token_keys [] = []
token_keys ((t, info) ∷ rest) = t ∷ token_keys rest

module _ {S E T P : Type 0} (same : DeepEqual T) (parse_url : Text → Option Url)
    (backend : RateLimitBackend S E) (digest : Text → List ℕ) (describe : ReloadError → Text)
    (summary : ℕ → ℕ → Text) where
  unfoldable pub validate_hot_reload : Runtime T P → Runtime T P → Option ReloadError
  validate_hot_reload old new =
      if not (text_eq old.config.server.listen new.config.server.listen)
      then some listen_changed
      else if not (old.read_timeout ==ℤ new.read_timeout)
      then some read_timeout_changed
      else if not (old.write_timeout ==ℤ new.write_timeout)
      then some write_timeout_changed
      else if not (old.idle_timeout ==ℤ new.idle_timeout)
      then some idle_timeout_changed
      else if not (same.same_rate_limit old.config.rate_limit new.config.rate_limit)
      then some rate_limit_changed
      else if not (same.same_telemetry old.config.telemetry new.config.telemetry)
      then some telemetry_changed
      else none

  -- The time of the entry is `Add`'s own.
  unfoldable pub record_reload_failure : Gateway S T P → ReloadError → ℕ → Gateway S T P
  record_reload_failure g e now = record g {
    logs =
        add g.logs (system_entry 0 (codes "error") (codes "config reload rejected: " ++ describe e))
          now;
  }

  -- The new snapshot takes effect, with what depends on it.
  adopt : Gateway S T P → Building → RuntimeSnapshot T P → ℕ → Gateway S T P
  unfolding token_keys
  adopt g b snapshot now = record g {
    runtime = snapshot;
    breakers = b.breakers;
    rate_limits = retain_tokens backend digest g.rate_limits (token_keys snapshot.access.tokens);
    logs =
        add (resize g.logs snapshot.cfg.config.logging.recent)
          (system_entry now (codes "info")
            (summary (length snapshot.providers) (length snapshot.access.tokens)))
          now;
  }

  built :
      Gateway S T P
      → ℕ
      → Building × Result BuildError (RuntimeSnapshot T P)
      → Gateway S T P × ReloadResult
  unfolding adopt record_reload_failure
  built g now (b, err e) = (
    record_reload_failure (record g { metrics = b.metrics }) (build_failed e) now,
    rejected (build_failed e),
  )
  built g now (b, ok snapshot) = (
    adopt (record g { metrics = b.metrics }) b snapshot now,
    reloaded (length snapshot.providers) (length snapshot.access.tokens),
  )

  unfoldable pub reload : Gateway S T P → Runtime T P → ℕ → Gateway S T P × ReloadResult
  unfolding built validate_hot_reload record_reload_failure
  reload g rt now =
      if same.same_config g.runtime.cfg.config rt.config
      then (g, unchanged)
      else elim (validate_hot_reload g.runtime.cfg rt) [
        | some e ↦ (record_reload_failure g e now, rejected e)
        | none ↦ built g now (build_runtime_snapshot parse_url rt g.breakers now g.metrics)
      ]
