-- ===== src/Route.antt =====
-- internal/gateway/proxy.go: `resolveProvider` and `prepareBody`, and `singleJoiningSlash` of
-- internal/gateway/http_helpers.go.
pub mod Paths
pub mod Bodies
mod Tests
use gem_gate.Prelude.{
  ℕ, zero, suc, ◌+◌, ◌^◌, Bool, true, false, not, ◌&&◌, Option, none, some, ℤ, pos, negsuc, List,
  [], ◌∷◌, ◌++◌, leb, ltb, ◌==◌, if◌then◌else◌, length, drop, Result, ok, err, is_positive,
}
use gem_gate.Table.{find_name}
use gem_gate.Text.{
  Text, codes, text_eq, is_empty, cut, cut_prefix, has_prefix, has_suffix, trim_prefix,
}

abbrev pub providers_prefix : Text
providers_prefix = codes "/providers/"

-- The errors, with their status: 400 and 404.
pub data RouteError : Type 0 where
  bad_provider_route : RouteError
  unknown_provider : Text → RouteError

abbrev pub route_status : RouteError → ℕ
route_status bad_provider_route = 400
route_status (unknown_provider name) = 404

module _ {ℓ} {P : Type ℓ} (default_provider : P) (providers : List (Text × P)) where
  found_route : Text → Text → Option P → Result RouteError (P × Text)
  found_route name rest none = err (unknown_provider name)
  found_route name rest (some p) = ok (p, b'/' ∷ rest)

  named_route : Option (Text × Text) → Result RouteError (P × Text)
  unfolding found_route
  named_route none = err bad_provider_route
  named_route (some (name, rest)) =
      if is_empty name
      then err bad_provider_route
      else found_route name rest (find_name providers name)

  prefixed_route : Text → Option Text → Result RouteError (P × Text)
  unfolding named_route
  prefixed_route path none = ok (default_provider, path)
  prefixed_route path (some rest) = named_route (cut b'/' rest)

  -- The provider and the path at it. The index of the slash is not positive where there is none or
  -- the name is empty.
  unfoldable pub resolve_provider : Text → Result RouteError (P × Text)
  unfolding prefixed_route
  resolve_provider path = prefixed_route path (cut_prefix providers_prefix path)

unfoldable pub single_joining_slash : Text → Text → Text
single_joining_slash a b =
    let aslash = has_suffix a (codes "/") in
    let bslash = has_prefix b (codes "/") in
    if aslash && bslash
    then a ++ drop 1 b
    else if not aslash && not bslash
    then a ++ b'/' ∷ b
    else a ++ b

-- A request body as a stream: the bytes that it delivers, and whether it then fails.
pub record Stream : Type 0 where
  pub content : List ℕ
  pub fails : Bool

pub data BodyError : Type 0 where
  body_too_large read_failed : BodyError

take : ℕ → List ℕ → List ℕ
take zero bs = []
take (suc n) [] = []
take (suc n) (b ∷ bs) = b ∷ take n bs

-- `io.ReadAll(io.LimitReader(body, n))`: a failure behind the limit is not met.
unfoldable pub read_limited : ℕ → Stream → Result BodyError (List ℕ)
unfolding take
read_limited n s =
    if leb n (length s.content)
    then ok (take n s.content)
    else if s.fails
    then err read_failed
    else ok s.content

-- `N` of the `io.LimitReader`: `limit+1` as an int64, where a reader with a negative `N` reads nothing.
abbrev pub bytes_let_through : ℕ → ℕ
bytes_let_through limit = if leb (2 ^ 63) (limit + 1) then 0 else limit + 1

-- `contentLength > limit`
abbrev exceeds : ℤ → ℕ → Bool
exceeds (pos n) limit = ltb limit n
exceeds (negsuc n) limit = false

-- The body to send, and its length, which is negative if it is not known.
buffer_body : ℕ → Stream → ℤ → Result BodyError (Option Stream × ℤ)
buffer_body limit s content_length =
    if exceeds content_length limit
    then err body_too_large
    else elim (read_limited (bytes_let_through limit) s) [
      | err e ↦ err e
      | ok bytes ↦
          if ltb limit (length bytes)
          then err body_too_large
          else ok (some (record { content = bytes; fails = false }), pos (length bytes))
    ]

-- `none` is the absent body, `nil` or `http.NoBody`.
unfoldable pub prepare_body : ℤ → Option Stream → ℤ → Result BodyError (Option Stream × ℤ)
unfolding buffer_body
prepare_body limit none content_length = ok (none, pos 0)
prepare_body (pos (suc n)) (some s) content_length = buffer_body (suc n) s content_length
prepare_body _ (some s) content_length = ok (some s, content_length)
