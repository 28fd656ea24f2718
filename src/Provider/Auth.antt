-- ===== src/Provider/Auth.antt =====
-- internal/provider/catalog.go: where the provider's key stands, and on what it depends.
use gem_gate.Prelude.{
  false, ◌≡◌, refl, ◌∙◌, inl, inr, List, [], ◌∷◌, if◌then◌else◌, Bool-cases, Result, ok, err, ◌>>=◌,
  >>=-ok, arith,
}
use gem_gate.Text.{Text, text_eq, is_empty, trim_space}
use gem_gate.Header.{Header, stored, header_set, header_del, canonical_key}
use gem_gate.Header.Lookup.{stored-header_set, stored-header_del}
use gem_gate.Provider.{
  Spec, ApplyError, AuthMode, auth_bearer, auth_gemini, auth_anthropic, auth_none, other, set_all,
  set_custom, apply_auth, authorized, apply_headers, authorization, x_goog_api_key, x_api_key,
  bearer, is_gemini_open_ai_path,
}

-- Two outcomes agree at a name: the same error, or the same values under that name.
abbrev pub AgreeAt : Text → Result ApplyError Header → Result ApplyError Header → Type 0
AgreeAt j (ok g) (ok h) = stored g j ≡ stored h j
AgreeAt j (err a) (err b) = a ≡ b
AgreeAt j _ _ = ⊥

module _ (j : Text) where
  header_set-agree :
      (g h : Header) (k v : Text)
      → stored g j ≡ stored h j
      → stored (header_set g k v) j ≡ stored (header_set h k v) j
  header_set-agree g h k v e = rw (stored-header_set g k j v, stored-header_set h k j v, e)

  header_del-agree :
      (g h : Header) (k : Text)
      → stored g j ≡ stored h j
      → stored (header_del g k) j ≡ stored (header_del h k) j
  header_del-agree g h k e = rw (stored-header_del g k j, stored-header_del h k j, e)

  set_all-agree :
      (g h : Header) (pairs : List (Text × Text))
      → stored g j ≡ stored h j
      → stored (set_all g pairs) j ≡ stored (set_all h pairs) j
  unfolding set_all
  set_all-agree g h [] e = e
  set_all-agree g h ((k, v) ∷ rest) e =
      set_all-agree (header_set g k v) (header_set h k v) rest (header_set-agree g h k v e)

  set_custom-agree :
      (g h : Header) (pairs : List (Text × Text))
      → stored g j ≡ stored h j
      → AgreeAt j (set_custom g pairs) (set_custom h pairs)
  unfolding set_custom
  set_custom-agree g h [] e = e
  set_custom-agree g h ((k, v) ∷ rest) e = elim (Bool-cases (is_empty (trim_space k))) [
    | inl blank ↦ rw blank
    | inr named ↦
        rw named
          (set_custom-agree (header_set g k v) (header_set h k v) rest (header_set-agree g h k v e))
  ]

  apply_auth-agree :
      (mode : AuthMode) (g h : Header) (path key : Text)
      → stored g j ≡ stored h j
      → AgreeAt j (apply_auth mode g path key) (apply_auth mode h path key)
  unfolding apply_auth
  apply_auth-agree auth_bearer g h path key e = header_set-agree g h authorization (bearer key) e
  apply_auth-agree auth_gemini g h path key e = elim (Bool-cases (is_gemini_open_ai_path path)) [
    | inl yes' ↦
        rw yes'
          (header_del-agree _ _ x_goog_api_key (header_set-agree g h authorization (bearer key) e))
    | inr no' ↦
        rw no' (header_del-agree _ _ authorization (header_set-agree g h x_goog_api_key key e))
  ]
  apply_auth-agree auth_anthropic g h path key e = header_set-agree g h x_api_key key e
  apply_auth-agree auth_none g h path key e = e
  apply_auth-agree (other mode) g h path key e = refl

  authorized-agree :
      (s : Spec) (path key : Text) (g h : Header)
      → stored g j ≡ stored h j
      → AgreeAt j (authorized s path key g) (authorized s path key h)
  unfolding authorized
  authorized-agree s path key g h e = elim (Bool-cases (is_empty (trim_space key))) [
    | inl blank ↦
        rw blank
          (elim (Bool-cases s.requires_api_key) [ inl needed ↦ rw needed | inr free ↦ rw free e ])
    | inr given ↦ rw given (apply_auth-agree s.auth g h path key e)
  ]

  bind-agree :
      (f : Header → Result ApplyError Header) (r q : Result ApplyError Header)
      → AgreeAt j r q
      → ((g h : Header) → stored g j ≡ stored h j → AgreeAt j (f g) (f h))
      → AgreeAt j (r >>= f) (q >>= f)
  bind-agree f (ok g) (ok h) e k = k g h e
  bind-agree f (ok g) (err b) e k = absurd e
  bind-agree f (err a) (ok h) e k = absurd e
  bind-agree f (err a) (err b) e k = e

  -- What `ApplyHeaders` leaves under a name depends on nothing that stood under other names, and
  -- whether it fails depends on none of the headers.
  pub apply_headers-agree :
      (s : Spec) (g h : Header) (path key : Text) (custom : List (Text × Text))
      → stored g j ≡ stored h j
      → AgreeAt j (apply_headers s g path key custom) (apply_headers s h path key custom)
  unfolding apply_headers
  apply_headers-agree s g h path key custom e =
      bind-agree (authorized s path key) _ _
        (set_custom-agree _ _ custom (set_all-agree g h s.default_headers e))
        (authorized-agree s path key)

module _ (h : Header) (v : Text) where
  bearer_alone :
      (stored (header_del (header_set h authorization v) x_goog_api_key) authorization ≡ v ∷ [])
      × (stored (header_del (header_set h authorization v) x_goog_api_key) x_goog_api_key ≡ [])
  unfolding canonical_key text_eq
  bearer_alone = (
    stored-header_del _ x_goog_api_key authorization
        ∙ stored-header_set h authorization authorization v,
    stored-header_del _ x_goog_api_key x_goog_api_key,
  )

  native_key_alone :
      (stored (header_del (header_set h x_goog_api_key v) authorization) authorization ≡ [])
      × (stored (header_del (header_set h x_goog_api_key v) authorization) x_goog_api_key ≡ v ∷ [])
  unfolding canonical_key text_eq
  native_key_alone = (
    stored-header_del _ authorization authorization,
    stored-header_del _ authorization x_goog_api_key
        ∙ stored-header_set h x_goog_api_key x_goog_api_key v,
  )

-- The places of the key in the headers of an authorised Gemini request.
abbrev pub KeyOnce : Header → Text → Text → Type 0
KeyOnce h path key =
    (stored h authorization ≡ (if is_gemini_open_ai_path path then bearer key ∷ [] else []))
    × (stored h x_goog_api_key ≡ (if is_gemini_open_ai_path path then [] else key ∷ []))

gemini_auth :
    (g h : Header) (path key : Text) → apply_auth auth_gemini g path key ≡ ok h → KeyOnce h path key
unfolding apply_auth
gemini_auth g h path key e = ground (arith, bearer_alone g (bearer key), native_key_alone g key)

gemini_authorized :
    (s : Spec) (g h : Header) (path key : Text)
    → s.auth ≡ auth_gemini
    → is_empty (trim_space key) ≡ false
    → authorized s path key g ≡ ok h
    → KeyOnce h path key
unfolding authorized
gemini_authorized s g h path key a k e = gemini_auth g h path key (rw (k, a) at e)

-- A Gemini request that is authorised carries the key exactly once: as a bearer token on an
-- OpenAI-compatible path and under `X-Goog-Api-Key` on any other, and the other name is empty.
pub gemini_exclusive :
    (s : Spec) (g h : Header) (path key : Text) (custom : List (Text × Text))
    → s.auth ≡ auth_gemini
    → is_empty (trim_space key) ≡ false
    → apply_headers s g path key custom ≡ ok h
    → KeyOnce h path key
unfolding apply_headers
gemini_exclusive s g h path key custom a k e =
    let (set, done, rest) = >>=-ok (set_custom (set_all g s.default_headers) custom) _ e in
    gemini_authorized s set h path key a k rest
