-- ===== src/Access.antt =====
-- internal/gateway/operations_auth.go and `authenticate` of internal/gateway/proxy.go: who may use the
-- application plane and who the operations plane. A request is read through its headers.
pub mod Planes
mod Tests
use gem_gate.Prelude.{
  is_some, ℕ, Bool, true, false, not, ◌||◌, Option, none, some, ℤ, List, [], ◌∷◌, ◌++◌, ◌==◌,
  if◌then◌else◌, length,
}
use gem_gate.Text.{Text, codes, text_eq, is_empty, trim_space, cut, equal_fold}
use gem_gate.Header.{Header, header_get}

pub record ClientAuth : Type 0 where
  pub name : Text
  pub rate_limit_rpm : ℤ

-- The fields of `runtimeSnapshot` that decide about access.
pub record AccessState : Type 0 where
  pub tokens : List (Text × ClientAuth)
  pub operations_token : Text

unfoldable pub find_token : List (Text × ClientAuth) → Text → Option ClientAuth
find_token [] token = none
find_token ((t, info) ∷ rest) token = if text_eq t token then some info else find_token rest token

-- `strings.SplitN(auth, " ", 2)` has two parts exactly if there is a space.
unfoldable pub bearer_token : Header → Text
bearer_token h = elim (cut b' ' (trim_space (header_get h (codes "Authorization")))) [
  | none ↦ []
  | some (scheme, token) ↦ if not (equal_fold scheme (codes "Bearer")) then [] else trim_space token
]

-- `none` where the third result is false.
unfoldable pub authenticate : AccessState → Header → Option (ClientAuth × Text)
authenticate state h =
    let token = bearer_token h in
    if is_empty token
    then none
    else elim (find_token state.tokens token) [ none ↦ none | some info ↦ some (info, token) ]

-- `subtle.ConstantTimeCompare`
abbrev constant_time_compare : Text → Text → ℕ
constant_time_compare a b = if text_eq a b then 1 else 0

unfoldable pub operations_authorized : AccessState → Header → Bool
operations_authorized state h =
    if is_empty state.operations_token
    then is_some (authenticate state h)
    else (let token = bearer_token h in
        if is_empty token || not (length token == length state.operations_token)
        then false
        else constant_time_compare token state.operations_token == 1)

unfoldable pub is_operational_path : Text → Bool
is_operational_path path =
    text_eq path (codes "/_healthz")
    || text_eq path (codes "/_readyz")
    || text_eq path (codes "/_metrics")
    || text_eq path (codes "/_config")
