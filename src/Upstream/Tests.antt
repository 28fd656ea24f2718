-- ===== src/Upstream/Tests.antt =====
-- An upstream request, and the theorem about callers' headers at concrete inputs.
use gem_gate.Prelude.{List, [], ◌∷◌}
use gem_gate.Text.{Text, codes}
use gem_gate.Header.{Header}
use gem_gate.Provider.{gemini_spec}
use gem_gate.Upstream.{ProviderIdentity}

abbrev gemini : ProviderIdentity
gemini = record { name = codes "gemini"; spec = gemini_spec; api_key = codes "k"; headers = [] }

abbrev caller : Header
caller = (codes "Authorization", codes "Bearer app" ∷ []) ∷ (codes "Accept", codes "*/*" ∷ []) ∷ []

abbrev trace : List (Text × Text)
trace = (codes "Traceparent", codes "00-1-2-01") ∷ []
