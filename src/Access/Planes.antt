-- ===== src/Access/Planes.antt =====
-- internal/gateway/operations_auth.go: the tokens of the two planes.
use gem_gate.Prelude.{true, false, ◌≡◌, ◌≢◌, ◌↔◌, ap, ◌∙◌, none, [], ◌∷◌, arith}
use gem_gate.Text.{Text, is_empty}
use gem_gate.Text.Equality.{text_eq_iff}
use gem_gate.Header.{Header}
use gem_gate.Access.{AccessState, find_token, bearer_token, authenticate, operations_authorized}

pub is_empty_iff : (s : Text) → (is_empty s ≡ true) ↔ (s ≡ [])
is_empty_iff [] = ground arith
is_empty_iff (c ∷ s) = ground arith

-- With a dedicated operations token a request may use the operations plane exactly if its bearer
-- token is that token.
pub operations_authorized-dedicated :
    (state : AccessState) (h : Header)
    → state.operations_token ≢ []
    → (operations_authorized state h ≡ true) ↔ (bearer_token h ≡ state.operations_token)
unfolding operations_authorized
operations_authorized-dedicated state h n = ground (
  arith,
  is_empty_iff state.operations_token,
  is_empty_iff (bearer_token h),
  text_eq_iff (bearer_token h) state.operations_token,
)

-- Without one, exactly if it may use the application plane.
pub operations_authorized-shared :
    (state : AccessState) (h : Header)
    → state.operations_token ≡ []
    → (operations_authorized state h ≡ false) ↔ (authenticate state h ≡ none)
unfolding operations_authorized
operations_authorized-shared state h e = ground arith

-- Where the dedicated operations token is no client's token, no request may use both planes.
pub planes_disjoint :
    (state : AccessState) (h : Header)
    → state.operations_token ≢ []
    → find_token state.tokens state.operations_token ≡ none
    → operations_authorized state h ≡ true
    → authenticate state h ≡ none
unfolding authenticate
planes_disjoint state h n absent ok' =
    let e = (operations_authorized-dedicated state h n).0 ok' in
    ground (arith, ap (find_token state.tokens) e ∙ absent)
