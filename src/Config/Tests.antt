-- ===== src/Config/Tests.antt =====
-- A configuration file with one client and the settings of one provider, loaded, with small parsers
-- in place of Go's.
use gem_gate.Prelude.{
  ℕ, ◌+◌, ◌-◌, ◌*◌, true, false, ◌&&◌, ◌≡◌, refl, Option, none, some, ℤ, pos, [], ◌∷◌, ◌++◌, leb,
  if◌then◌else◌, is_ok, value_of,
}
use gem_gate.Config.{Config, Runtime}
use gem_gate.Text.{
  Text, codes, has_infix, contains, to_lower, trim_right, cut, cut_prefix, drop_byte, has_prefix,
  lower_byte, to_upper, trim_prefix, upper_byte, trim_space, text_eq, trim_suffix, has_suffix,
}
use gem_gate.Config.Checks.{Url, first_failure, provider_name_ok, any_control, any_empty, keys_of}
use gem_gate.Config.Validation.{
  validate_providers, provider_failure, validate_clients, client_failure, settings_failure,
  cors_failure, validate_origins, rate_limit_failure, validate,
}
use gem_gate.Provider.{normalize_type, catalog, lookup}
use gem_gate.Table.{find_name, assign}
use gem_gate.Config.Defaults.{
  breaker_defaults, catalog_base_url, client_defaults, cors_defaults, legacy_provider,
  legacy_upstream, logging_defaults, provider_defaults, rate_limit_defaults, server_defaults,
  sync_legacy_upstream, upstream_defaults, with_providers, apply_defaults,
}
use gem_gate.Config.Load.{Platform, provider_settings, runtime_of, load}
use gem_gate.Config.Numbers.{size_in, sized, duration_of, parse_bytes}
use gem_gate.Config.Proxies.{parse_entries, seen_prefix, parse_trusted_proxies}
use gem_gate.Config.Secrets.{
  read_secret_file, resolve_clients, resolve_providers, resolve_secret, resolve_secret_files,
}
use gem_gate.Config.Load.Loaded.{Loaded, load-Loaded}
use gem_gate.Config.Accepted.{Accepted, validate-Accepted}

unfoldable pub digits : ℕ → Text → Option ℤ
digits n [] = some (pos n)
digits n (c ∷ s) =
    let rest = digits (n * 10 + (c - b'0')) s in if leb b'0' c && leb c b'9' then rest else none

abbrev pub in_seconds : Option ℤ → Option ℤ
in_seconds (some (pos n)) = some (pos (n * 1000000000))
in_seconds _ = none

abbrev pub parse_url : Text → Option Url
parse_url s = elim (cut b':' s) [
  | none ↦ none
  | some (scheme, rest) ↦ some (record {
    scheme = scheme;
    host = trim_prefix rest (codes "//");
    has_user = false;
    path = [];
    raw_query = [];
    fragment = [];
  })
]

abbrev pub platform : Platform Text Text
platform = record {
  files = record { read_file = λ f. none; is_abs = λ f. false; join_path = λ a b. a ++ b };
  parsers = record {
    parse_duration =
        λ s. in_seconds (digits 0 (trim_suffix (trim_suffix s (codes "s")) (codes "m")));
    parse_int = digits 0;
  };
  net = record {
    parse_prefix = λ s. some s;
    masked = λ p. p;
    prefix_from = λ a n. a;
    prefix_addr = λ p. p;
    prefix_bits = λ p. 32;
    prefix_eq = text_eq;
    parse_addr = λ s. some s;
    unmap = λ a. a;
    bit_len = λ a. 32;
    is_4_in_6 = λ a. false;
  };
  parse_url = parse_url;
}

abbrev pub decoded : Config Unit
decoded = record {
  server = record {
    listen = [];
    read_timeout = [];
    write_timeout = [];
    idle_timeout = [];
    public_health = true;
    request_body_limit = codes "1KiB";
    trusted_proxies = codes "10.0.0.1" ∷ [];
    cors = record {
      enabled = none;
      allowed_origins = [];
      allowed_methods = [];
      allowed_headers = [];
      allow_credentials = false;
      max_age = [];
    };
  };
  upstream = record {
    base_url = codes "https://ai.test/";
    api_key = codes "k";
    api_key_file = [];
    timeout = [];
  };
  providers = [];
  default_provider = [];
  operations = record { token = codes "ops"; token_file = [] };
  clients =
      record {
        name = codes "local";
        token = codes "app";
        token_file = [];
        enabled = true;
        rate_limit_rpm = pos 2;
      }
      ∷ [];
  rate_limit = record {
    backend = [];
    redis = record { url = []; url_file = []; key_prefix = []; timeout = []; fail_open = false };
  };
  telemetry = tt;
  logging = record { recent = pos 0; log_body = false; log_headers = false };
}

pub loads : is_ok (load platform [] decoded) ≡ true
unfolding digits has_infix contains to_lower trim_right cut cut_prefix drop_byte has_prefix
    lower_byte to_upper trim_prefix upper_byte trim_space text_eq trim_suffix has_suffix
    validate_providers provider_failure first_failure provider_name_ok validate_clients
    client_failure settings_failure cors_failure validate_origins any_control any_empty keys_of
    rate_limit_failure validate normalize_type catalog lookup find_name assign breaker_defaults
    catalog_base_url client_defaults cors_defaults legacy_provider legacy_upstream logging_defaults
    provider_defaults rate_limit_defaults server_defaults sync_legacy_upstream upstream_defaults
    with_providers apply_defaults provider_settings runtime_of load size_in sized duration_of
    parse_bytes parse_entries seen_prefix parse_trusted_proxies read_secret_file resolve_clients
    resolve_providers resolve_secret resolve_secret_files
loads = refl

abbrev pub runtime : Runtime Unit Text
runtime = (value_of (load platform [] decoded) loads).0

from_file : Loaded platform [] decoded runtime
from_file = load-Loaded platform [] decoded runtime (value_of (load platform [] decoded) loads).1

validate-Accepted_example : Accepted parse_url runtime
validate-Accepted_example = validate-Accepted parse_url runtime from_file.passed

load-Loaded_example : Loaded platform [] decoded runtime
load-Loaded_example =
    load-Loaded platform [] decoded runtime (value_of (load platform [] decoded) loads).1
