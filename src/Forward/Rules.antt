-- ===== src/Forward/Rules.antt =====
-- internal/gateway/http_helpers.go: what a copy takes over and what it leaves out.
use gem_gate.Prelude.{
  Bool, true, false, ◌≡◌, refl, sym, ap, ◌∙◌, inl, inr, List, [], ◌∷◌, ◌++◌, append-nil,
  append_assoc, if◌then◌else◌, Bool-cases, arith, ◌||◌, not, keep, map, subst,
}
use gem_gate.Text.{Text, codes, text_eq, to_lower, contains, split, trim_space, is_empty}
use gem_gate.Text.Equality.{text_eq_iff}
use gem_gate.Header.{Header, header_values, stored, header_add, canonical_key}
use gem_gate.Header.Lookup.{stored-header_add, to_lower-canonical_key}
use gem_gate.Forward.{
  add_values, copy_unless, connection_header_names, skip_request, skip_response,
  copy_request_headers, copy_response_headers, hop_by_hop_headers, upstream_credential_headers,
  forwarding_headers, tracing_headers, named_parts, named_values,
}

stored-add_values :
    (dst : Header) (k j : Text) (vs : List Text)
    → stored (add_values dst k vs) j
      ≡ (if text_eq (canonical_key k) j then stored dst j ++ vs else stored dst j)
unfolding add_values
stored-add_values dst k j [] = ground (arith, append-nil (stored dst j))
stored-add_values dst k j (v ∷ vs) =
    rw (stored-add_values (header_add dst k v) k j vs, stored-header_add dst k j v)
      (ground (arith, append_assoc (stored dst j) (v ∷ []) vs))

-- Keys as a parsed request has them: canonical, and each once.
abbrev pub Keyed : Header → Type 0
Keyed [] = Unit {0}
Keyed ((k, vs) ∷ h) = (canonical_key k ≡ k) × (stored h k ≡ []) × Keyed h

module _ (skip : Text → Bool) where
  skip-ne :
      (k j : Text)
      → skip (to_lower j) ≡ true
      → skip (to_lower k) ≡ false
      → text_eq (canonical_key k) j ≡ false
  skip-ne k j h e = elim (Bool-cases (text_eq (canonical_key k) j)) [
    | inl same ↦
        cc (h, e, to_lower-canonical_key k, ap to_lower ((text_eq_iff (canonical_key k) j).0 same))
    | inr other ↦ other
  ]

  copy_one_skipped :
      (dst : Header) (k j : Text) (vs : List Text)
      → skip (to_lower j) ≡ true
      → stored (if skip (to_lower k) then dst else add_values dst k vs) j ≡ stored dst j
  copy_one_skipped dst k j vs h = elim (Bool-cases (skip (to_lower k))) [
    | inl e ↦ rw e
    | inr e ↦ rw (e, stored-add_values dst k j vs, skip-ne k j h e)
  ]

  -- A name that the tests skip is left as it was, however the source spells it.
  pub copy_unless_skipped :
      (dst src : Header) (j : Text)
      → skip (to_lower j) ≡ true
      → stored (copy_unless skip dst src) j ≡ stored dst j
  unfolding copy_unless
  copy_unless_skipped dst [] j h = refl
  copy_unless_skipped dst ((k, vs) ∷ src) j h =
      copy_unless_skipped (if skip (to_lower k) then dst else add_values dst k vs) src j h
      ∙ copy_one_skipped dst k j vs h

  copy_one_passed :
      (dst src : Header) (k j : Text) (vs : List Text)
      → skip (to_lower j) ≡ false
      → canonical_key k ≡ k
      → stored src k ≡ []
      → stored (if skip (to_lower k) then dst else add_values dst k vs) j ++ stored src j
        ≡ stored dst j ++ stored ((k, vs) ∷ src) j
  unfolding stored
  copy_one_passed dst src k j vs h c u = elim (Bool-cases (text_eq k j)) [
    | inl same ↦
        let e = (text_eq_iff k j).0 same in
        rw (same, ap skip (ap to_lower e) ∙ h, stored-add_values dst k j vs, c, same)
          (cc (append-nil (stored dst j ++ vs), ap (stored src) e, u))
    | inr other ↦ elim (Bool-cases (skip (to_lower k))) [
      | inl e ↦ rw (other, e)
      | inr e ↦ rw (other, e, stored-add_values dst k j vs, c, other)
    ]
  ]

  -- Every other name of the source is taken over with all its values, in order.
  pub copy_unless_passed :
      (dst src : Header) (j : Text)
      → skip (to_lower j) ≡ false
      → Keyed src
      → stored (copy_unless skip dst src) j ≡ stored dst j ++ stored src j
  unfolding copy_unless
  copy_unless_passed dst [] j h keyed = unfold stored in sym (append-nil (stored dst j))
  copy_unless_passed dst ((k, vs) ∷ src) j h keyed =
      copy_unless_passed (if skip (to_lower k) then dst else add_values dst k vs) src j h keyed.2
      ∙ copy_one_passed dst src k j vs h keyed.0 keyed.1

-- What a copy of a request's headers leaves out: hop-by-hop headers, credentials, forwarding and tracing.
abbrev pub left_out : List Text
left_out =
    codes "connection"
    ∷ codes "keep-alive"
    ∷ codes "proxy-authenticate"
    ∷ codes "proxy-authorization"
    ∷ codes "te"
    ∷ codes "trailer"
    ∷ codes "transfer-encoding"
    ∷ codes "upgrade"
    ∷ codes "host"
    ∷ codes "content-length"
    ∷ codes "authorization"
    ∷ codes "x-goog-api-key"
    ∷ codes "x-goog-user-project"
    ∷ codes "x-api-key"
    ∷ codes "api-key"
    ∷ codes "anthropic-version"
    ∷ codes "forwarded"
    ∷ codes "x-forwarded-for"
    ∷ codes "x-forwarded-host"
    ∷ codes "x-forwarded-port"
    ∷ codes "x-forwarded-proto"
    ∷ codes "x-real-ip"
    ∷ codes "traceparent"
    ∷ codes "tracestate"
    ∷ codes "baggage"
    ∷ []

abbrev pub all_parts : List Text → List Text
all_parts [] = []
all_parts (value ∷ values) = split b',' value ++ all_parts values

-- The names that the Connection headers list: their parts between commas, without white space, in lower
-- case.
abbrev pub listed_by : Header → List Text
listed_by h =
    keep (λ n. not (is_empty n))
      (map (λ part. to_lower (trim_space part)) (all_parts (header_values h (codes "Connection"))))

named_parts-keep :
    (parts rest : List Text)
    → named_parts parts ++ keep (λ n. not (is_empty n)) (map (λ p. to_lower (trim_space p)) rest)
      ≡ keep (λ n. not (is_empty n)) (map (λ p. to_lower (trim_space p)) (parts ++ rest))
unfolding named_parts
named_parts-keep [] rest = refl
named_parts-keep (part ∷ parts) rest = ground (arith, named_parts-keep parts rest)

named_values-keep :
    (values : List Text)
    → named_values values
      ≡ keep (λ n. not (is_empty n)) (map (λ p. to_lower (trim_space p)) (all_parts values))
unfolding named_values
named_values-keep [] = refl
named_values-keep (value ∷ values) =
    ap (λ ns. named_parts (split b',' value) ++ ns) (named_values-keep values)
    ∙ named_parts-keep (split b',' value) (all_parts values)

connection_header_names-listed_by : (h : Header) → connection_header_names h ≡ listed_by h
unfolding connection_header_names
connection_header_names-listed_by h = named_values-keep (header_values h (codes "Connection"))

contains-append :
    (xs ys : List Text) (t : Text) → contains (xs ++ ys) t ≡ (contains xs t || contains ys t)
unfolding contains
contains-append [] ys t = refl
contains-append (x ∷ xs) ys t = ground (arith, contains-append xs ys t)

skip_request-left_out :
    (connection : List Text) (lk : Text)
    → skip_request connection lk ≡ (contains left_out lk || contains connection lk)
unfolding skip_request
skip_request-left_out connection lk = ground (
  arith,
  contains-append hop_by_hop_headers
      (upstream_credential_headers ++ (forwarding_headers ++ tracing_headers)) lk,
  contains-append upstream_credential_headers (forwarding_headers ++ tracing_headers) lk,
  contains-append forwarding_headers tracing_headers lk,
)

-- For a source whose keys are canonical and distinct, the copy of a request's headers keeps under each
-- name what the destination had, followed by all the values of the source in order unless the name,
-- in any case, is that of a hop-by-hop, credential, forwarding or tracing header or is one that a
-- Connection header of the source lists.
pub copy_request_headers-exact :
    (dst src : Header) (j : Text)
    → Keyed src
    → stored (copy_request_headers dst src) j ≡ (
        if contains left_out (to_lower j) || contains (listed_by src) (to_lower j)
        then stored dst j
        else stored dst j ++ stored src j)
unfolding copy_request_headers
copy_request_headers-exact dst src j keyed =
    let skip = skip_request (connection_header_names src) in
    let rule : skip (to_lower j)
        ≡ (contains left_out (to_lower j) || contains (listed_by src) (to_lower j)) =
      skip_request-left_out (connection_header_names src) (to_lower j)
      ∙ ap (λ ns. contains left_out (to_lower j) || contains ns (to_lower j))
          (connection_header_names-listed_by src) in
    subst
      (λ (b : Bool).
        stored (copy_request_headers dst src) j
        ≡ (if b then stored dst j else stored dst j ++ stored src j))
      rule
      (elim (Bool-cases (skip (to_lower j))) [
        | inl e ↦ rw e (copy_unless_skipped skip dst src j e)
        | inr e ↦ rw e (copy_unless_passed skip dst src j e keyed)
      ])

-- For a source whose keys are canonical and distinct, the copy of a response's headers keeps under
-- each name what the destination had, followed by all the values of the source in order unless the
-- name is a hop-by-hop header or one that Connection names.
pub copy_response_headers-exact :
    (dst src : Header) (j : Text)
    → Keyed src
    → stored (copy_response_headers dst src) j ≡ (
        if skip_response (connection_header_names src) (to_lower j)
        then stored dst j
        else stored dst j ++ stored src j)
unfolding copy_response_headers
copy_response_headers-exact dst src j keyed =
    let skip = skip_response (connection_header_names src) in
    elim (Bool-cases (skip (to_lower j))) [
      | inl e ↦ rw e (copy_unless_skipped skip dst src j e)
      | inr e ↦ rw e (copy_unless_passed skip dst src j e keyed)
    ]
