-- ===== src/Cors/Decisions.antt =====
-- internal/gateway/cors.go: which requests the policy lets through, answers and refuses, and what
-- an allowed origin is told.
use gem_gate.Prelude.{
  ℕ, Bool, true, false, ◌&&◌, ◌||◌, ◌≡◌, refl, ◌∙◌, inl, inr, some, List, [], ◌∷◌, if◌then◌else◌,
  Bool-cases, arith, ltb,
}
use gem_gate.Text.{Text, codes, text_eq, is_empty, contains}
use gem_gate.Header.{Header, stored, header_set, canonical_key}
use gem_gate.Header.Lookup.{stored-header_set, stored-header_add}
use gem_gate.Cors.{
  CorsHandler, CorsOutcome, passed, rejected, no_content, origin_of, requested_method,
  requested_headers, is_preflight, handle, after_origin, finish_preflight, allow_origin,
  method_allowed, headers_allowed, append_vary, write_common_headers, star, set_nonempty,
}

-- Where the policy has no wildcard and does not list the request's origin, a preflight request with an
-- origin is answered with 403 if the policy is on, and any other request passes on; in both cases the
-- policy leaves the response's headers as they were.
pub handle-unlisted :
    (itoa : ℕ → Text) (h : CorsHandler) (method : Text) (request w : Header)
    → h.wildcard_origin ≡ false
    → contains h.allowed_origins (origin_of request) ≡ false
    → handle itoa h method request w ≡ (
        if h.enabled && is_preflight method request
        then rejected (codes "CORS origin is not allowed") w
        else passed w)
unfolding handle after_origin finish_preflight allow_origin is_preflight
handle-unlisted itoa h method request w plain unlisted =
    elim (Bool-cases (is_empty (origin_of request))) [
      | inl e ↦ rw e (ground (arith))
      | inr e ↦ rw (e, plain, unlisted) (ground (arith))
    ]

abbrev pub is_no_content : CorsOutcome → Bool
is_no_content (passed w) = false
is_no_content (rejected message w) = false
is_no_content (no_content w) = true

-- A preflight request is answered with 204 exactly if the policy is on, its origin is allowed, by
-- the wildcard or by the list, and so are the method and every header that it asks for.
pub handle-no_content :
    (itoa : ℕ → Text) (h : CorsHandler) (method : Text) (request w : Header)
    → is_no_content (handle itoa h method request w) ≡ (
        h.enabled
        && is_preflight method request
        && (h.wildcard_origin || contains h.allowed_origins (origin_of request))
        && method_allowed h (requested_method request)
        && headers_allowed h (requested_headers request))
unfolding handle after_origin finish_preflight allow_origin is_preflight
handle-no_content itoa h method request w = elim (Bool-cases (is_empty (origin_of request))) [
  | inl e ↦ rw e (ground (arith))
  | inr e ↦ rw e (ground (arith))
]

abbrev pub headers_of : CorsOutcome → Header
headers_of (passed w) = w
headers_of (rejected message w) = w
headers_of (no_content w) = w

abbrev allow_origin_header : Text
allow_origin_header = codes "Access-Control-Allow-Origin"

set_other :
    (w : Header) (k v : Text)
    → text_eq (canonical_key k) allow_origin_header ≡ false
    → stored (header_set w k v) allow_origin_header ≡ stored w allow_origin_header
set_other w k v e = rw (stored-header_set w k allow_origin_header v, e)

append_vary_other :
    (w : Header) (value : Text)
    → stored (append_vary w value) allow_origin_header ≡ stored w allow_origin_header
unfolding append_vary text_eq canonical_key
append_vary_other w value =
    ground (arith, stored-header_add w (codes "Vary") allow_origin_header value)

set_if_other :
    (b : Bool) (w : Header) (k v : Text)
    → text_eq (canonical_key k) allow_origin_header ≡ false
    → stored (if b then w else header_set w k v) allow_origin_header ≡ stored w allow_origin_header
set_if_other true w k v e = refl
set_if_other false w k v e = set_other w k v e

set_when_other :
    (b : Bool) (w : Header) (k v : Text)
    → text_eq (canonical_key k) allow_origin_header ≡ false
    → stored (if b then header_set w k v else w) allow_origin_header ≡ stored w allow_origin_header
set_when_other true w k v e = set_other w k v e
set_when_other false w k v e = refl

write_common_other :
    (itoa : ℕ → Text) (h : CorsHandler) (w : Header)
    → stored (write_common_headers itoa h w) allow_origin_header ≡ stored w allow_origin_header
unfolding write_common_headers text_eq canonical_key
write_common_other itoa h w =
    let w1 = set_nonempty w (codes "Access-Control-Allow-Methods") h.methods_header in
    let w2 = set_nonempty w1 (codes "Access-Control-Allow-Headers") h.headers_header in
    let w3 =
      if h.allow_credentials
      then header_set w2 (codes "Access-Control-Allow-Credentials") (codes "true")
      else w2 in
    set_when_other (ltb 0 h.max_age_seconds) w3 (codes "Access-Control-Max-Age")
      (itoa h.max_age_seconds) refl
    ∙ set_when_other h.allow_credentials w2 (codes "Access-Control-Allow-Credentials")
        (codes "true") refl
    ∙ set_if_other (is_empty h.headers_header) w1 (codes "Access-Control-Allow-Headers")
        h.headers_header refl
    ∙ set_if_other (is_empty h.methods_header) w (codes "Access-Control-Allow-Methods")
        h.methods_header refl

finish_other :
    (h : CorsHandler) (request : Header) (preflight : Bool) (w : Header)
    → stored (headers_of (finish_preflight h request preflight w)) allow_origin_header
      ≡ stored w allow_origin_header
unfolding finish_preflight
finish_other h request preflight w =
    let v1 = append_vary w (codes "Access-Control-Request-Method") in
    ground (
      arith,
      append_vary_other w (codes "Access-Control-Request-Method"),
      append_vary_other v1 (codes "Access-Control-Request-Headers"),
    )

allowed_told :
    (itoa : ℕ → Text) (h : CorsHandler) (request : Header) (preflight : Bool) (w w1 : Header)
    → (headers : List Text) → stored w1 allow_origin_header ≡ headers
    → stored (headers_of (after_origin itoa h request preflight w (some w1))) allow_origin_header
      ≡ headers
unfolding after_origin
allowed_told itoa h request preflight w w1 headers e =
    finish_other h request preflight (write_common_headers itoa h w1)
    ∙ write_common_other itoa h w1
    ∙ e

or_false : {a b : Bool} → a ≡ false → (a || b) ≡ true → b ≡ true
or_false e h = ground (arith)

set_told :
    (w : Header) (v : Text)
    → stored (header_set w allow_origin_header v) allow_origin_header ≡ v ∷ []
unfolding text_eq canonical_key
set_told w v = stored-header_set w allow_origin_header allow_origin_header v

-- Whatever the policy decides of a request with an origin that it allows, whether it is to be passed on,
-- answered or refused, the headers that it leaves the response name under
-- Access-Control-Allow-Origin that origin, or the wildcard where the policy has it, and nothing else,
-- whatever they had there before. What the provider's response adds later is not among them.
pub handle-listed :
    (itoa : ℕ → Text) (h : CorsHandler) (method : Text) (request w : Header)
    → h.enabled ≡ true
    → is_empty (origin_of request) ≡ false
    → (h.wildcard_origin || contains h.allowed_origins (origin_of request)) ≡ true
    → stored (headers_of (handle itoa h method request w)) (codes "Access-Control-Allow-Origin")
      ≡ (if h.wildcard_origin then star else origin_of request) ∷ []
unfolding handle allow_origin method_allowed headers_allowed write_common_headers
handle-listed itoa h method request w on named listed =
    let origin = origin_of request in
    let preflight = is_preflight method request in
    let echoed = header_set w allow_origin_header origin in
    rw (on, named)
      (elim (Bool-cases h.wildcard_origin) [
        | inl wild ↦ rw wild (
            allowed_told itoa h request preflight w (header_set w allow_origin_header star)
              (star ∷ []) (set_told w star))
        | inr plain ↦
            rw (plain, or_false plain listed)
              (allowed_told itoa h request preflight w (append_vary echoed (codes "Origin"))
                (origin ∷ []) (append_vary_other echoed (codes "Origin") ∙ set_told w origin))
      ])
