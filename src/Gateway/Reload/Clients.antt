-- ===== src/Gateway/Reload/Clients.antt =====
-- internal/gateway/runtime.go: the tokens of a snapshot against the configured clients.
use gem_gate.Prelude.{
  ◌&&◌, ◌≡◌, refl, Option, none, some, List, [], ◌∷◌, if◌then◌else◌, arith, is_some, ap, ◌∙◌,
}
use gem_gate.Text.{Text, text_eq, contains}
use gem_gate.Table.{assign}
use gem_gate.Access.{ClientAuth, find_token}
use gem_gate.Config.{ClientConfig}
use gem_gate.Gateway.Snapshot.{add_tokens}
use gem_gate.Gateway.Snapshot.Tokens.{find_token-assign}
use gem_gate.Gateway.Reload.{token_keys}

-- The name and the limit of the last enabled client with a token.
abbrev pub last_enabled : List ClientConfig → Text → Option ClientAuth
last_enabled [] t = none
last_enabled (c ∷ cs) t = elim (last_enabled cs t) [
  | some info ↦ some info
  | none ↦
      if c.enabled && text_eq c.token t
      then some (record { name = c.name; rate_limit_rpm = c.rate_limit_rpm })
      else none
]

find_token-add_tokens :
    (ts : List (Text × ClientAuth)) (cs : List ClientConfig) (t : Text)
    → find_token (add_tokens ts cs) t
      ≡ elim (last_enabled cs t) [ some info ↦ some info | none ↦ find_token ts t ]
unfolding add_tokens
find_token-add_tokens ts [] t = refl
find_token-add_tokens ts (c ∷ cs) t =
    let info : ClientAuth = record { name = c.name; rate_limit_rpm = c.rate_limit_rpm } in
    let entry = find_token-assign ts c.token t info in
    let later = find_token-add_tokens (assign ts c.token info) cs t in
    let skipped = find_token-add_tokens ts cs t in ground (arith, entry, later, skipped)

-- The tokens are those of the enabled clients, each with the name and the limit of the last.
pub tokens-last_enabled :
    (cs : List ClientConfig) (t : Text) → find_token (add_tokens [] cs) t ≡ last_enabled cs t
unfolding find_token
tokens-last_enabled cs t = find_token-add_tokens [] cs t ∙ same (last_enabled cs t)
  where
    same : (o : Option ClientAuth) → (elim o [ some info ↦ some info | none ↦ none ]) ≡ o
    same none = refl
    same (some info) = refl

contains-token_keys :
    (ts : List (Text × ClientAuth)) (t : Text)
    → contains (token_keys ts) t ≡ is_some (find_token ts t)
unfolding contains token_keys find_token
contains-token_keys [] t = refl
contains-token_keys ((k, info) ∷ ts) t = ground (arith, contains-token_keys ts t)

pub keys-last_enabled :
    (cs : List ClientConfig) (t : Text)
    → contains (token_keys (add_tokens [] cs)) t ≡ is_some (last_enabled cs t)
keys-last_enabled cs t =
    contains-token_keys (add_tokens [] cs) t ∙ ap is_some (tokens-last_enabled cs t)
