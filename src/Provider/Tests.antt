-- ===== src/Provider/Tests.antt =====
-- The catalog's entries, and the theorems about authentication at concrete inputs.
use gem_gate.Prelude.{◌≡◌, refl, some, [], ◌∷◌, ok, err}
use gem_gate.Text.{codes, text_eq, trim_space, has_infix, trim_prefix, to_lower}
use gem_gate.Header.{Header, canonical_key, header_set, header_del, store_values, remove_key}
use gem_gate.Provider.{
  gemini_spec, anthropic_spec, lookup, normalize_type, apply_headers, set_all, set_custom,
  authorized, apply_auth, is_gemini_open_ai_path, missing_api_key,
}

lookup_padded : lookup (codes " Gemini ") ≡ some gemini_spec
unfolding lookup normalize_type trim_space to_lower text_eq
lookup_padded = refl

anthropic_needs_key :
    apply_headers anthropic_spec [] (codes "/v1/messages") (codes " ") []
    ≡ err (missing_api_key (codes "anthropic"))
unfolding apply_headers set_all set_custom authorized trim_space header_set
anthropic_needs_key = refl

abbrev caller : Header
caller = (codes "Authorization", codes "Bearer client" ∷ []) ∷ []

abbrev native_headers : Header
native_headers = (codes "X-Goog-Api-Key", codes "k" ∷ []) ∷ []

native_request :
    apply_headers gemini_spec caller (codes "/v1beta/models") (codes "k") [] ≡ ok native_headers
unfolding apply_headers set_all set_custom authorized apply_auth is_gemini_open_ai_path trim_space
    header_set header_del store_values remove_key canonical_key text_eq trim_prefix has_infix
native_request = refl
