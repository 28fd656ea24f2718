-- ===== src/Forward.antt =====
-- internal/gateway/http_helpers.go: which headers cross the gateway.
pub mod Rules
mod Tests
use gem_gate.Prelude.{ℕ, Bool, true, false, not, ◌&&◌, ◌||◌, List, [], ◌∷◌, ◌++◌, if◌then◌else◌}
use gem_gate.Text.{Text, codes, is_empty, contains, to_lower, trim_space, split}
use gem_gate.Header.{Header, header_values, header_add}

abbrev pub hop_by_hop_headers : List Text
hop_by_hop_headers =
    codes "connection"
    ∷ codes "keep-alive"
    ∷ codes "proxy-authenticate"
    ∷ codes "proxy-authorization"
    ∷ codes "te"
    ∷ codes "trailer"
    ∷ codes "transfer-encoding"
    ∷ codes "upgrade"
    ∷ codes "host"
    ∷ codes "content-length"
    ∷ []

abbrev pub upstream_credential_headers : List Text
upstream_credential_headers =
    codes "authorization"
    ∷ codes "x-goog-api-key"
    ∷ codes "x-goog-user-project"
    ∷ codes "x-api-key"
    ∷ codes "api-key"
    ∷ codes "anthropic-version"
    ∷ []

abbrev pub forwarding_headers : List Text
forwarding_headers =
    codes "forwarded"
    ∷ codes "x-forwarded-for"
    ∷ codes "x-forwarded-host"
    ∷ codes "x-forwarded-port"
    ∷ codes "x-forwarded-proto"
    ∷ codes "x-real-ip"
    ∷ []

abbrev pub tracing_headers : List Text
tracing_headers = codes "traceparent" ∷ codes "tracestate" ∷ codes "baggage" ∷ []

-- The inner loop of `connectionHeaderNames`, over the parts of one value.
named_parts : List Text → List Text
named_parts [] = []
named_parts (part ∷ parts) =
    let name = to_lower (trim_space part) in
    let rest = named_parts parts in if is_empty name then rest else name ∷ rest

named_values : List Text → List Text
unfolding named_parts
named_values [] = []
named_values (value ∷ values) = named_parts (split b',' value) ++ named_values values

unfoldable pub connection_header_names : Header → List Text
unfolding named_values
connection_header_names h = named_values (header_values h (codes "Connection"))

-- `for _, v := range values { dst.Add(k, v) }`
unfoldable pub add_values : Header → Text → List Text → Header
add_values dst k [] = dst
add_values dst k (v ∷ vs) = add_values (header_add dst k v) k vs

-- The loop over the source, with the tests that lead to `continue`.
unfoldable pub copy_unless : (Text → Bool) → Header → Header → Header
unfolding add_values
copy_unless skip dst [] = dst
copy_unless skip dst ((k, values) ∷ src) =
    copy_unless skip (if skip (to_lower k) then dst else add_values dst k values) src

unfoldable pub skip_request : List Text → Text → Bool
skip_request connection lk =
    contains hop_by_hop_headers lk
    || contains connection lk
    || contains upstream_credential_headers lk
    || contains forwarding_headers lk
    || contains tracing_headers lk

unfoldable pub skip_response : List Text → Text → Bool
skip_response connection lk = contains hop_by_hop_headers lk || contains connection lk

unfoldable pub copy_request_headers : Header → Header → Header
copy_request_headers dst src = copy_unless (skip_request (connection_header_names src)) dst src

unfoldable pub copy_response_headers : Header → Header → Header
copy_response_headers dst src = copy_unless (skip_response (connection_header_names src)) dst src
