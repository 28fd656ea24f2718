-- ===== src/Config/Checks.antt =====
-- internal/config/config.go: the tests that `validate` is made of. `url.Parse` is a parameter. A
-- sequence of `if … { return error }` is the list of its tests with their errors, of which the first
-- that holds is returned.
use gem_gate.Prelude.{
  ℕ, Bool, true, false, not, ◌&&◌, ◌||◌, Option, none, some, List, [], ◌∷◌, leb, ltb, ◌==◌,
  if◌then◌else◌,
}
use gem_gate.Text.{Text, codes, text_eq, is_empty, trim_space}

pub record Url : Type 0 where
  pub scheme : Text
  pub host : Text
  pub has_user : Bool
  pub path : Text
  pub raw_query : Text
  pub fragment : Text

pub data ConfigError : Type 0 where
  no_providers empty_provider_name unknown_default no_enabled_clients : ConfigError
  bad_provider_name duplicate_provider unsupported_type missing_api_key missing_base_url :
      Text → ConfigError
  bad_base_url base_url_parts empty_header bad_threshold bad_open_for : Text → ConfigError
  empty_client_name : ConfigError
  empty_token duplicate_token negative_rate_limit : Text → ConfigError
  shared_operations_token negative_body_limit : ConfigError
  no_origins empty_origin wildcard_credentials no_methods empty_method no_headers : ConfigError
  invalid_origin origin_scheme origin_path : Text → ConfigError
  empty_cors_header negative_max_age : ConfigError
  unknown_backend : Text → ConfigError
  missing_redis_url bad_redis_url redis_fragment bad_redis_timeout : ConfigError
  empty_key_prefix long_key_prefix control_in_key_prefix : ConfigError

unfoldable pub first_failure : List (Bool × ConfigError) → Option ConfigError
first_failure [] = none
first_failure ((fails, e) ∷ checks) = if fails then some e else first_failure checks

abbrev is_alphanumeric : ℕ → Bool
is_alphanumeric c =
    (leb b'A' c && leb c b'Z') || (leb b'a' c && leb c b'z') || (leb b'0' c && leb c b'9')

all_name_chars : Text → Bool
all_name_chars [] = true
all_name_chars (c ∷ s) =
    (is_alphanumeric c || c == b'.' || c == b'_' || c == b'-') && all_name_chars s

-- `^[A-Za-z0-9][A-Za-z0-9._-]*$`
unfoldable pub provider_name_ok : Text → Bool
unfolding all_name_chars
provider_name_ok [] = false
provider_name_ok (c ∷ s) = is_alphanumeric c && all_name_chars s

unfoldable pub any_empty : List Text → Bool
any_empty [] = false
any_empty (name ∷ names) = is_empty (trim_space name) || any_empty names

unfoldable pub keys_of : List (Text × Text) → List Text
keys_of [] = []
keys_of ((k, v) ∷ rest) = k ∷ keys_of rest

abbrev pub is_http : Url → Bool
is_http u = text_eq u.scheme (codes "http") || text_eq u.scheme (codes "https")

-- A text that is no absolute http(s) URL, and one with parts that are not allowed.
abbrev pub not_absolute : Option Url → Bool
not_absolute none = true
not_absolute (some u) = is_empty u.host || not (is_http u)

abbrev pub extra_parts : Option Url → Bool
extra_parts none = false
extra_parts (some u) = u.has_user || not (is_empty u.raw_query) || not (is_empty u.fragment)

-- A byte below 0x20 or of 0x7F is a rune, and a control character is such a byte.
unfoldable pub any_control : Text → Bool
any_control [] = false
any_control (c ∷ s) = ltb c 0x20 || c == 0x7F || any_control s

abbrev pub or_failure : Option ConfigError → Option ConfigError → Option ConfigError
or_failure none later = later
or_failure (some e) later = some e
