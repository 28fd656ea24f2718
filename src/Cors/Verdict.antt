-- ===== src/Cors/Verdict.antt =====
-- internal/gateway/cors.go: the decision of the policy as one condition.
use gem_gate.Prelude.{
  ℕ, Bool, true, not, ◌&&◌, ◌||◌, ◌≡◌, refl, inl, inr, List, [], ◌∷◌, map, keep, Bool-cases,
  if◌then◌else◌, arith,
}
use gem_gate.Text.{Text, codes, text_eq, is_empty, contains, trim_space, to_upper, to_lower, split}
use gem_gate.Header.{Header, header_get}
use gem_gate.Cors.{
  CorsHandler, CorsOutcome, passed, rejected, no_content, handle, after_origin, finish_preflight,
  allow_origin, is_preflight, method_allowed, headers_allowed, all_allowed,
}
use gem_gate.Cors.Decisions.{headers_of}

pub data Verdict : Type 0 where
  let_through refused answered : Verdict

abbrev pub verdict_of : CorsOutcome → Verdict
verdict_of (passed w) = let_through
verdict_of (rejected message w) = refused
verdict_of (no_content w) = answered

abbrev pub every : (Text → Bool) → List Text → Bool
every p [] = true
every p (t ∷ ts) = p t && every p ts

module _ (h : CorsHandler) (request : Header) where
  abbrev pub origin : Text
  origin = trim_space (header_get request (codes "Origin"))

  -- The policy is on, and the request names an origin that it allows.
  abbrev pub origin_allowed : Bool
  origin_allowed =
      h.enabled && not (is_empty origin) && (h.wildcard_origin || contains h.allowed_origins origin)

  abbrev pub asked_headers : Text
  asked_headers = header_get request (codes "Access-Control-Request-Headers")

  -- What a preflight request asks for: its method, and every name in its list of headers.
  abbrev pub asks_allowed : Bool
  asks_allowed =
      contains h.allowed_methods
        (to_upper (trim_space (header_get request (codes "Access-Control-Request-Method"))))
      && (is_empty (trim_space asked_headers)
          || every (contains h.allowed_headers) (
              keep (λ name. not (is_empty name))
                (map (λ part. to_lower (trim_space part)) (split b',' asked_headers))))

  -- A preflight request that reaches the policy: OPTIONS with an origin and the method asked for.
  abbrev pub preflight : Text → Bool
  preflight method =
      h.enabled
      && text_eq method (codes "OPTIONS")
      && not (is_empty origin)
      && not (is_empty (trim_space (header_get request (codes "Access-Control-Request-Method"))))

  abbrev pub verdict : Text → Verdict
  verdict method =
      if preflight method
      then if origin_allowed && asks_allowed then answered else refused
      else let_through

all_allowed-every :
    (allowed parts : List Text)
    → all_allowed allowed parts
      ≡ every
          (contains allowed)
          (keep (λ name. not (is_empty name)) (map (λ part. to_lower (trim_space part)) parts))
unfolding all_allowed
all_allowed-every allowed [] = refl
all_allowed-every allowed (part ∷ parts) = ground (arith, all_allowed-every allowed parts)

-- Every request is decided by one condition: a preflight request, which is OPTIONS with an origin and
-- a method asked for, is answered with 204 if its origin, its method and every header that it asks for
-- are allowed, and is else refused with 403, where the policy is on; any other request is let through.
-- Unless the policy is on and allows the request's origin it leaves the response's headers as they were.
pub handle-verdict :
    (itoa : ℕ → Text) (h : CorsHandler) (method : Text) (request w : Header)
    → (verdict_of (handle itoa h method request w) ≡ verdict h request method)
      × (headers_of (handle itoa h method request w)
          ≡ (if origin_allowed h request then headers_of (handle itoa h method request w) else w))
unfolding handle after_origin finish_preflight allow_origin is_preflight method_allowed
    headers_allowed
handle-verdict itoa h method request w =
    let names = all_allowed-every h.allowed_headers (split b',' (asked_headers h request)) in
    elim (Bool-cases (is_empty (origin h request))) [
      | inl e ↦ (rw e (ground (arith, names)), rw e (ground arith))
      | inr e ↦ (rw e (ground (arith, names)), rw e (ground arith))
    ]
