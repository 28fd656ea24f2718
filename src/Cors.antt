-- ===== src/Cors.antt =====
-- internal/gateway/cors.go: the policy built from the configuration, and what it does to a request.
-- The handler's maps are lists of their keys. A response under construction is its headers.
pub mod Decisions
pub mod Policy
mod Tests
pub mod Verdict
use gem_gate.Prelude.{
  ℕ, ◌+◌, ◌/◌, Bool, true, false, not, ◌&&◌, ◌||◌, Option, none, some, ℤ, pos, negsuc, List, [],
  ◌∷◌, ltb, if◌then◌else◌,
}
use gem_gate.Text.{
  Text, codes, text_eq, is_empty, contains, trim_space, to_upper, to_lower, equal_fold, split, join,
}
use gem_gate.Header.{Header, canonical_key, header_values, header_get, header_set, header_add}

-- `config.CORSConfig`. The policy takes the age as a duration.
pub record CorsConfig : Type 0 where
  pub enabled : Option Bool
  pub allowed_origins : List Text
  pub allowed_methods : List Text
  pub allowed_headers : List Text
  pub allow_credentials : Bool
  pub max_age : Text

-- `CORSConfig.IsEnabled`
abbrev pub is_enabled : Option Bool → Bool
is_enabled none = true
is_enabled (some b) = b

pub record CorsHandler : Type 0 where
  pub enabled : Bool
  pub wildcard_origin : Bool
  pub allowed_origins : List Text
  pub allowed_methods : List Text
  pub allowed_headers : List Text
  pub methods_header : Text
  pub headers_header : Text
  pub allow_credentials : Bool
  pub max_age_seconds : ℕ

-- A loop that normalizes each name and leaves out what is then empty.
unfoldable pub kept_names : (Text → Text) → List Text → List Text
kept_names normalize [] = []
kept_names normalize (name ∷ names) =
    let rest = kept_names normalize names in
    if is_empty (normalize name) then rest else normalize name ∷ rest

abbrev pub cors_method : Text → Text
cors_method method = to_upper (trim_space method)

abbrev pub cors_header : Text → Text
cors_header header = canonical_key (trim_space header)

unfoldable pub lowered : List Text → List Text
lowered [] = []
lowered (name ∷ names) = to_lower name ∷ lowered names

abbrev pub star : Text
star = codes "*"

-- The loop over the origins: whether one is the wildcard, and the others.
unfoldable pub any_star : List Text → Bool
any_star [] = false
any_star (origin ∷ origins) = text_eq (trim_space origin) star || any_star origins

unfoldable pub named_origins : List Text → List Text
named_origins [] = []
named_origins (origin ∷ origins) =
    let rest = named_origins origins in
    if text_eq (trim_space origin) star
    then rest
    else if is_empty (trim_space origin)
    then rest
    else trim_space origin ∷ rest

-- `int(maxAge.Round(time.Second).Seconds())` of a positive age in nanoseconds, which rounds half
-- up, for an age that is a second or more below the largest duration.
abbrev max_age_of : ℤ → ℕ
max_age_of (pos n) = (n + 500000000) / 1000000000
max_age_of (negsuc n) = 0

unfoldable pub new_cors_policy : CorsConfig → ℤ → CorsHandler
unfolding kept_names lowered any_star named_origins
new_cors_policy cfg max_age =
    let methods = kept_names cors_method cfg.allowed_methods in
    let headers = kept_names cors_header cfg.allowed_headers in
    record {
      enabled = is_enabled cfg.enabled;
      wildcard_origin = any_star cfg.allowed_origins;
      allowed_origins = named_origins cfg.allowed_origins;
      allowed_methods = methods;
      allowed_headers = lowered headers;
      methods_header = join (codes ", ") methods;
      headers_header = join (codes ", ") headers;
      allow_credentials = cfg.allow_credentials;
      max_age_seconds = max_age_of max_age;
    }

-- `appendVary`: the two loops that look for the value, and the addition where they do not find it.
any_part : List Text → Text → Bool
any_part [] value = false
any_part (part ∷ parts) value = equal_fold (trim_space part) value || any_part parts value

varies_on : List Text → Text → Bool
unfolding any_part
varies_on [] value = false
varies_on (existing ∷ rest) value = any_part (split b',' existing) value || varies_on rest value

unfoldable pub append_vary : Header → Text → Header
unfolding varies_on
append_vary h value =
    if varies_on (header_values h (codes "Vary")) value
    then h
    else header_add h (codes "Vary") value

-- The response with the headers of an allowed origin, or none if it is not allowed.
unfoldable pub allow_origin : CorsHandler → Header → Text → Option Header
allow_origin h w origin =
    if h.wildcard_origin
    then some (header_set w (codes "Access-Control-Allow-Origin") star)
    else if contains h.allowed_origins origin
    then some
        (append_vary (header_set w (codes "Access-Control-Allow-Origin") origin) (codes "Origin"))
    else none

abbrev pub set_nonempty : Header → Text → Text → Header
set_nonempty w key value = if is_empty value then w else header_set w key value

-- `strconv.Itoa` is the first argument.
unfoldable pub write_common_headers : (ℕ → Text) → CorsHandler → Header → Header
write_common_headers itoa h w =
    let w1 = set_nonempty w (codes "Access-Control-Allow-Methods") h.methods_header in
    let w2 = set_nonempty w1 (codes "Access-Control-Allow-Headers") h.headers_header in
    let w3 =
      if h.allow_credentials
      then header_set w2 (codes "Access-Control-Allow-Credentials") (codes "true")
      else w2 in
    if ltb 0 h.max_age_seconds
    then header_set w3 (codes "Access-Control-Max-Age") (itoa h.max_age_seconds)
    else w3

unfoldable pub method_allowed : CorsHandler → Text → Bool
method_allowed h method = contains h.allowed_methods (cors_method method)

unfoldable pub all_allowed : List Text → List Text → Bool
all_allowed allowed [] = true
all_allowed allowed (part ∷ parts) =
    let header = to_lower (trim_space part) in
    let rest = all_allowed allowed parts in
    if is_empty header then rest else if contains allowed header then rest else false

unfoldable pub headers_allowed : CorsHandler → Text → Bool
unfolding all_allowed
headers_allowed h value =
    if is_empty (trim_space value) then true else all_allowed h.allowed_headers (split b',' value)

-- The end of `handle`: the request goes on to the gateway, or it is answered with 403 and a message
-- or with 204. Each holds the response's headers as the policy leaves them.
pub data CorsOutcome : Type 0 where
  passed : Header → CorsOutcome
  rejected : Text → Header → CorsOutcome
  no_content : Header → CorsOutcome

abbrev pub origin_of : Header → Text
origin_of request = trim_space (header_get request (codes "Origin"))

abbrev pub requested_method : Header → Text
requested_method request = header_get request (codes "Access-Control-Request-Method")

abbrev pub requested_headers : Header → Text
requested_headers request = header_get request (codes "Access-Control-Request-Headers")

unfoldable pub is_preflight : Text → Header → Bool
is_preflight method request =
    text_eq method (codes "OPTIONS")
    && not (is_empty (origin_of request))
    && not (is_empty (trim_space (requested_method request)))

-- The second half of `handle`, for the response that the first half leaves.
unfoldable pub finish_preflight : CorsHandler → Header → Bool → Header → CorsOutcome
finish_preflight h request preflight w =
    if preflight
    then if method_allowed h (requested_method request)
      then if headers_allowed h (requested_headers request)
        then no_content (
            append_vary (append_vary w (codes "Access-Control-Request-Method"))
              (codes "Access-Control-Request-Headers"))
        else rejected (codes "CORS request header is not allowed") w
      else rejected (codes "CORS method is not allowed") w
    else passed w

-- What follows the answer of `allowOrigin`.
unfoldable pub after_origin :
    (ℕ → Text) → CorsHandler → Header → Bool → Header → Option Header → CorsOutcome
unfolding finish_preflight
after_origin itoa h request preflight w none =
    if preflight
    then rejected (codes "CORS origin is not allowed") w
    else finish_preflight h request preflight w
after_origin itoa h request preflight w (some w1) =
    finish_preflight h request preflight (write_common_headers itoa h w1)

unfoldable pub handle : (ℕ → Text) → CorsHandler → Text → Header → Header → CorsOutcome
unfolding after_origin finish_preflight
handle itoa h method request w =
    let preflight = is_preflight method request in
    if h.enabled
    then if is_empty (origin_of request)
      then finish_preflight h request preflight w
      else after_origin itoa h request preflight w (allow_origin h w (origin_of request))
    else passed w
