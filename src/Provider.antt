-- ===== src/Provider.antt =====
-- internal/provider/catalog.go: the provider types, and the authentication of an upstream request.
-- A map is a list of pairs, whose order stands for the order in which `range` meets the keys.
pub mod Auth
mod Tests
use gem_gate.Prelude.{
  ℕ, Bool, true, false, not, Option, none, some, List, [], ◌∷◌, ◌++◌, if◌then◌else◌, Result, ok,
  err, ◌>>=◌,
}
use gem_gate.Text.{Text, codes, text_eq, is_empty, to_lower, trim_space, trim_prefix, has_infix}
use gem_gate.Header.{Header, header_set, header_del}

-- `other` is a mode that the catalog does not name.
pub data AuthMode : Type 0 where
  auth_bearer auth_gemini auth_anthropic auth_none : AuthMode
  other : Text → AuthMode

pub record Spec : Type 0 where
  pub type : Text
  pub display_name : Text
  pub default_base_url : Text
  pub auth : AuthMode
  pub requires_api_key : Bool
  pub open_ai_compatible : Bool
  pub default_headers : List (Text × Text)

abbrev bearer_spec : Text → Text → Text → Bool → Spec
bearer_spec type display_name url compatible = record {
  type = type;
  display_name = display_name;
  default_base_url = url;
  auth = auth_bearer;
  requires_api_key = true;
  open_ai_compatible = compatible;
  default_headers = [];
}

abbrev pub gemini_spec : Spec
gemini_spec = record {
  type = codes "gemini";
  display_name = codes "Google Gemini";
  default_base_url = codes "https://generativelanguage.googleapis.com";
  auth = auth_gemini;
  requires_api_key = true;
  open_ai_compatible = true;
  default_headers = [];
}

abbrev pub anthropic_spec : Spec
anthropic_spec = record {
  type = codes "anthropic";
  display_name = codes "Anthropic Claude";
  default_base_url = codes "https://api.anthropic.com";
  auth = auth_anthropic;
  requires_api_key = true;
  open_ai_compatible = false;
  default_headers = (codes "Anthropic-Version", codes "2023-06-01") ∷ [];
}

abbrev open_ai_compatible_spec : Spec
open_ai_compatible_spec = record {
  type = codes "openai-compatible";
  display_name = codes "OpenAI-compatible";
  default_base_url = [];
  auth = auth_bearer;
  requires_api_key = false;
  open_ai_compatible = true;
  default_headers = [];
}

abbrev none_spec : Spec
none_spec = record {
  type = codes "none";
  display_name = codes "No-auth HTTP";
  default_base_url = [];
  auth = auth_none;
  requires_api_key = false;
  open_ai_compatible = false;
  default_headers = [];
}

unfoldable pub catalog : List Spec
catalog =
    gemini_spec
    ∷ bearer_spec (codes "openai") (codes "OpenAI") (codes "https://api.openai.com/v1") true
    ∷ anthropic_spec
    ∷ bearer_spec (codes "groq") (codes "Groq") (codes "https://api.groq.com/openai/v1") true
    ∷ bearer_spec (codes "mistral") (codes "Mistral AI") (codes "https://api.mistral.ai/v1") true
    ∷ bearer_spec (codes "openrouter") (codes "OpenRouter") (codes "https://openrouter.ai/api/v1")
        true
    ∷ bearer_spec (codes "deepseek") (codes "DeepSeek") (codes "https://api.deepseek.com") true
    ∷ bearer_spec (codes "xai") (codes "xAI") (codes "https://api.x.ai/v1") true
    ∷ bearer_spec (codes "cohere") (codes "Cohere") (codes "https://api.cohere.com/v2") false
    ∷ bearer_spec (codes "together") (codes "Together AI") (codes "https://api.together.ai/v1") true
    ∷ bearer_spec (codes "cerebras") (codes "Cerebras Inference")
        (codes "https://api.cerebras.ai/v1") true
    ∷ bearer_spec (codes "fireworks") (codes "Fireworks AI")
        (codes "https://api.fireworks.ai/inference/v1") true
    ∷ open_ai_compatible_spec
    ∷ none_spec
    ∷ []

unfoldable pub normalize_type : Text → Text
normalize_type value = to_lower (trim_space value)

-- Each entry of the catalog stands under its own type.
find_type : List Spec → Text → Option Spec
find_type [] kind = none
find_type (spec ∷ specs) kind = if text_eq spec.type kind then some spec else find_type specs kind

unfoldable pub lookup : Text → Option Spec
unfolding find_type catalog
lookup kind = find_type catalog (normalize_type kind)

pub data ApplyError : Type 0 where
  empty_header_name : ApplyError
  missing_api_key : Text → ApplyError
  unsupported_auth_mode : Text → ApplyError

unfoldable pub set_all : Header → List (Text × Text) → Header
set_all h [] = h
set_all h ((key, value) ∷ rest) = set_all (header_set h key value) rest

unfoldable pub set_custom : Header → List (Text × Text) → Result ApplyError Header
set_custom h [] = ok h
set_custom h ((key, value) ∷ rest) =
    let next = set_custom (header_set h key value) rest in
    if is_empty (trim_space key) then err empty_header_name else next

unfoldable pub is_gemini_open_ai_path : Text → Bool
is_gemini_open_ai_path path = has_infix (b'/' ∷ trim_prefix path (codes "/")) (codes "/openai/")

unfoldable pub bearer : Text → Text
bearer key = codes "Bearer " ++ key

abbrev pub authorization : Text
authorization = codes "Authorization"

abbrev pub x_goog_api_key : Text
x_goog_api_key = codes "X-Goog-Api-Key"

abbrev pub x_api_key : Text
x_api_key = codes "X-Api-Key"

unfoldable pub apply_auth : AuthMode → Header → Text → Text → Result ApplyError Header
apply_auth auth_bearer h path api_key = ok (header_set h authorization (bearer api_key))
apply_auth auth_gemini h path api_key =
    if is_gemini_open_ai_path path
    then ok (header_del (header_set h authorization (bearer api_key)) x_goog_api_key)
    else ok (header_del (header_set h x_goog_api_key api_key) authorization)
apply_auth auth_anthropic h path api_key = ok (header_set h x_api_key api_key)
apply_auth auth_none h path api_key = ok h
apply_auth (other mode) h path api_key = err (unsupported_auth_mode mode)

unfoldable pub authorized : Spec → Text → Text → Header → Result ApplyError Header
authorized s path api_key set =
    if is_empty (trim_space api_key)
    then (if s.requires_api_key then err (missing_api_key s.type) else ok set)
    else apply_auth s.auth set path api_key

-- The headers of the request, the path of its URL, the provider's key and its custom headers.
unfoldable pub apply_headers :
    Spec → Header → Text → Text → List (Text × Text) → Result ApplyError Header
apply_headers s h path api_key custom = do
  set ← set_custom (set_all h s.default_headers) custom
  authorized s path api_key set
