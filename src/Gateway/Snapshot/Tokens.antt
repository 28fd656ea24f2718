-- ===== src/Gateway/Snapshot/Tokens.antt =====
-- internal/gateway/runtime.go: the tokens of a runtime snapshot, and the two planes under a
-- configuration that was accepted.
use gem_gate.Prelude.{
  ℕ, true, false, ◌&&◌, ◌≡◌, ◌≢◌, refl, subst, sym, ap, ◌∙◌, inl, inr, Option, none, some, List, [],
  ◌∷◌, ok, Bool-cases, arith, if◌then◌else◌,
}
use gem_gate.Text.{Text, text_eq, contains}
use gem_gate.Text.Equality.{text_eq_iff}
use gem_gate.Table.{assign, find_name, find-assign}
use gem_gate.Header.{Header}
use gem_gate.Access.{ClientAuth, find_token, authenticate, operations_authorized}
use gem_gate.Access.Planes.{planes_disjoint, is_empty_iff}
use gem_gate.Circuit.{CircuitBreaker}
use gem_gate.Config.{ClientConfig, Runtime}
use gem_gate.Config.Checks.{Url}
use gem_gate.Config.Validation.Failures.{Distinct}
use gem_gate.Config.Validation.Loops.{enabled_tokens, tokens_of}
use gem_gate.Config.Accepted.{Accepted}
use gem_gate.Metrics.{Metrics}
use gem_gate.Gateway.Snapshot.{add_tokens, build_runtime_snapshot}
use gem_gate.Gateway.Snapshot.Built.{build_fields}
use gem_gate.Gateway.{RuntimeSnapshot}

abbrev auth_of : ClientConfig → ClientAuth
auth_of c = record { name = c.name; rate_limit_rpm = c.rate_limit_rpm }

-- The enabled client with a token.
pub client_with : List ClientConfig → Text → Option ClientAuth
client_with [] t = none
client_with (c ∷ cs) t =
    let rest = client_with cs t in if c.enabled && text_eq c.token t then some (auth_of c) else rest

find_token-name : (ts : List (Text × ClientAuth)) (t : Text) → find_token ts t ≡ find_name ts t
unfolding find_token find_name
find_token-name [] t = refl
find_token-name ((k, i) ∷ ts) t = rw (find_token-name ts t) refl

pub find_token-assign :
    (ts : List (Text × ClientAuth)) (k t : Text) (i : ClientAuth)
    → find_token (assign ts k i) t ≡ (if text_eq k t then some i else find_token ts t)
find_token-assign ts k t i =
    rw (find_token-name (assign ts k i) t, find_token-name ts t) (find-assign ts k t i)

client_with-none :
    (cs : List ClientConfig) (t : Text)
    → contains (enabled_tokens cs) t ≡ false
    → client_with cs t ≡ none
unfolding client_with enabled_tokens contains
client_with-none [] t h = refl
client_with-none (c ∷ cs) t h = ground (arith, h, client_with-none cs t)

same_option {ℓ} : {A : Type ℓ} (o : Option A) → (elim o [ none ↦ none | some a ↦ some a ]) ≡ o
same_option none = refl
same_option (some a) = refl

add_tokens-find :
    (ts : List (Text × ClientAuth)) (cs : List ClientConfig) (t : Text)
    → Distinct (enabled_tokens cs)
    → find_token (add_tokens ts cs) t
      ≡ elim (client_with cs t) [ none ↦ find_token ts t | some i ↦ some i ]
unfolding add_tokens client_with
add_tokens-find ts [] t d = refl
add_tokens-find ts (c ∷ cs) t d = elim (Bool-cases c.enabled) [
  | inr off ↦
      let ih = add_tokens-find ts cs t (subst Distinct (sym (tokens_of false c cs off)) d) in
      ground (arith, off, ih)
  | inl on ↦
      let d' = subst Distinct (sym (tokens_of true c cs on)) d in
      let ih = add_tokens-find (assign ts c.token (auth_of c)) cs t d'.1 in
      let entry = find_token-assign ts c.token t (auth_of c) in
      elim (Bool-cases (text_eq c.token t)) [
        | inr other ↦ ground (arith, on, other, ih, entry)
        | inl same ↦
            let gone =
              ap (client_with cs) (sym ((text_eq_iff c.token t).0 same))
              ∙ client_with-none cs c.token d'.0 in
            ground (arith, on, same, ih, entry, gone)
      ]
]

-- With distinct tokens a snapshot admits exactly the enabled clients, each by its own token and with
-- its own name and limit.
pub tokens_exact :
    (cs : List ClientConfig) (t : Text)
    → Distinct (enabled_tokens cs)
    → find_token (add_tokens [] cs) t ≡ client_with cs t
tokens_exact cs t d =
    add_tokens-find [] cs t d ∙ (unfold find_token in same_option (client_with cs t))

module _ {T P : Type 0} (parse_url : Text → Option Url) (rt : Runtime T P)
    (accepted : Accepted parse_url rt) where
  no_client_of_operations :
      rt.config.operations.token ≢ []
      → find_token (add_tokens [] rt.config.clients) rt.config.operations.token ≡ none
  no_client_of_operations n =
      tokens_exact rt.config.clients rt.config.operations.token accepted.tokens_distinct
      ∙ client_with-none rt.config.clients rt.config.operations.token
          (ground (arith, accepted.operations_apart, is_empty_iff rt.config.operations.token))

  -- Under an accepted configuration with a dedicated operations token no request may use both the
  -- operations plane and the application plane of the snapshot that is built from it.
  pub snapshot_planes :
      (previous : List (Text × CircuitBreaker)) (now : ℕ) (metrics : Metrics)
      (s : RuntimeSnapshot T P) (h : Header)
      → (build_runtime_snapshot parse_url rt previous now metrics).1 ≡ ok s
      → rt.config.operations.token ≢ []
      → operations_authorized s.access h ≡ true
      → authenticate s.access h ≡ none
  snapshot_planes previous now metrics s h made n authorized =
      let access = (build_fields parse_url rt previous now metrics s made).1 in
      planes_disjoint s.access h (λ e. n (sym (ap (λ a. a.operations_token) access) ∙ e))
        (ap (λ a. find_token a.tokens a.operations_token) access ∙ no_client_of_operations n)
        authorized
