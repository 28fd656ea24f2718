-- ===== src/Config/Validation/Loops.antt =====
-- internal/config/config.go: the loops of `validate` over the providers and the clients.
use gem_gate.Prelude.{
  ◌+◌, Bool, true, false, not, ◌&&◌, ◌||◌, ◌≡◌, ◌⊎◌, refl, subst, inl, inr, Option, none, some,
  List, [], ◌∷◌, map, All, length, Bool-cases, Option-cases, ok, is_positive, is_negative, arith,
  if◌then◌else◌,
}
use gem_gate.Text.{Text, text_eq, contains, is_empty, trim_space}
use gem_gate.Table.{find_name}
use gem_gate.Provider.{Spec, lookup}
use gem_gate.Config.{ProviderConfig, ClientConfig, CircuitBreakerRuntime}
use gem_gate.Config.Checks.{Url, is_http, provider_name_ok}
use gem_gate.Config.Validation.{
  or_default_policy, provider_failure, validate_providers, client_failure, validate_clients,
}
use gem_gate.Config.Validation.Failures.{first_failure-Passed, Distinct, Unseen, Unseen-cons}

abbrev pub names : List ProviderConfig → List Text
names ps = map (λ p. p.name) ps

-- The tokens of the enabled clients.
unfoldable pub enabled_tokens : List ClientConfig → List Text
enabled_tokens [] = []
enabled_tokens (c ∷ cs) = if c.enabled then c.token ∷ enabled_tokens cs else enabled_tokens cs

-- What is asked of an enabled client.
pub record ClientOk (c : ClientConfig) : Type 0 where
  pub named : is_empty (trim_space c.name) ≡ false
  pub has_token : is_empty (trim_space c.token) ≡ false
  pub limit_ok : is_negative c.rate_limit_rpm ≡ false

abbrev pub EnabledOk : ClientConfig → Type 0
EnabledOk c = (c.enabled ≡ false) ⊎ ClientOk c

module _ (parse_url : Text → Option Url) where
  -- What is asked of a provider under the circuit settings.
  pub record ProviderOk (circuits : List (Text × CircuitBreakerRuntime)) (p : ProviderConfig)
      : Type 0 where
    pub name_ok : provider_name_ok p.name ≡ true
    pub spec : Spec
    pub known : lookup p.type ≡ some spec
    pub keyed : (spec.requires_api_key && is_empty (trim_space p.api_key)) ≡ false
    pub url : Url
    pub parsed : parse_url p.base_url ≡ some url
    pub host : is_empty url.host ≡ false
    pub http : is_http url ≡ true
    pub no_user : url.has_user ≡ false
    pub threshold_ok :
        ((or_default_policy (find_name circuits p.name)).enabled
          && not (is_positive (or_default_policy (find_name circuits p.name)).failure_threshold))
        ≡ false
    pub open_for_ok :
        ((or_default_policy (find_name circuits p.name)).enabled
          && not (is_positive (or_default_policy (find_name circuits p.name)).open_for))
        ≡ false

  provider_failure-ProviderOk :
      (circuits : List (Text × CircuitBreakerRuntime)) (seen : List Text) (p : ProviderConfig)
      → provider_failure parse_url circuits seen p ≡ none
      → ProviderOk circuits p × (contains seen p.name ≡ false)
  unfolding provider_failure
  provider_failure-ProviderOk circuits seen p h =
      let c = first_failure-Passed _ h in
      elim (Option-cases (lookup p.type)) [
        | inl unknown ↦ absurd (ground (arith, c, unknown))
        | inr (spec, known) ↦ elim (Option-cases (parse_url p.base_url)) [
          | inl bad ↦ absurd (ground (arith, c, bad))
          | inr (url, parsed) ↦ (
            record {
              name_ok = ground (arith, c);
              spec = spec;
              known = known;
              keyed = ground (arith, c, known);
              url = url;
              parsed = parsed;
              host = ground (arith, c, parsed);
              http = ground (arith, c, parsed);
              no_user = ground (arith, c, parsed);
              threshold_ok = ground (arith, c);
              open_for_ok = ground (arith, c);
            },
            ground (arith, c),
          )
        ]
      ]

  module _ (circuits : List (Text × CircuitBreakerRuntime)) (default : Text) where
    abbrev pub LoopAccepts : List Text → Bool → List ProviderConfig → Bool → Type 0
    LoopAccepts seen found ps result =
        All (ProviderOk circuits) ps
        × Distinct (names ps)
        × Unseen seen (names ps)
        × (result ≡ (found || contains (names ps) default))

    pub validate_providers-accepts :
        (seen : List Text) (found : Bool) (ps : List ProviderConfig) (result : Bool)
        → validate_providers parse_url circuits default seen found ps ≡ ok result
        → LoopAccepts seen found ps result
    unfolding validate_providers contains
    validate_providers-accepts seen found [] result h = (tt, tt, tt, ground (arith, h))
    validate_providers-accepts seen found (p ∷ ps) result h =
        elim (Option-cases (provider_failure parse_url circuits seen p)) [
          | inr (e, failed) ↦ absurd (ground (arith, h, failed))
          | inl passed ↦
              let rest =
                validate_providers-accepts (p.name ∷ seen) (found || text_eq p.name default) ps
                  result (ground (arith, h, passed)) in
              let this = provider_failure-ProviderOk circuits seen p passed in
              let unseen = Unseen-cons p.name seen (names ps) rest.2 in
              ((this.0, rest.0), (unseen.0, rest.1), (this.1, unseen.1), ground (arith, rest.3))
        ]

client_failure-ClientOk :
    (seen : List Text) (c : ClientConfig)
    → client_failure seen c ≡ none
    → ClientOk c × (contains seen c.token ≡ false)
unfolding client_failure
client_failure-ClientOk seen c h =
    let p = first_failure-Passed _ h in
    (record { named = p.0; has_token = p.1.0; limit_ok = p.1.1.1.0 }, p.1.1.0)

abbrev pub ClientsAccept : List Text → List ClientConfig → List Text → List Text → Type 0
ClientsAccept seen cs out tokens =
    All EnabledOk cs
    × Distinct tokens
    × Unseen seen tokens
    × (length out ≡ length seen + length tokens)
    × ((t : Text) → contains out t ≡ (contains seen t || contains tokens t))

-- Both forms of the tokens, by whether the first client is enabled.
pub tokens_of :
    (b : Bool) (c : ClientConfig) (cs : List ClientConfig)
    → c.enabled ≡ b
    → (if b then c.token ∷ enabled_tokens cs else enabled_tokens cs) ≡ enabled_tokens (c ∷ cs)
unfolding enabled_tokens
tokens_of b c cs e = rw e refl

pub validate_clients-accepts :
    (seen : List Text) (cs : List ClientConfig) (out : List Text)
    → validate_clients seen cs ≡ ok out
    → ClientsAccept seen cs out (enabled_tokens cs)
unfolding validate_clients contains
validate_clients-accepts seen [] out h =
    unfold enabled_tokens in (tt, tt, tt, ground (arith, h), λ t. ground (arith, h))
validate_clients-accepts seen (c ∷ cs) out h = elim (Bool-cases c.enabled) [
  | inr off ↦
      let rest = validate_clients-accepts seen cs out (ground (arith, h, off)) in
      subst (ClientsAccept seen (c ∷ cs) out) (tokens_of false c cs off)
        ((inl off, rest.0), rest.1, rest.2, rest.3, rest.4)
  | inl on ↦ elim (Option-cases (client_failure seen c)) [
    | inr (e, failed) ↦ absurd (ground (arith, h, on, failed))
    | inl passed ↦
        let rest =
          validate_clients-accepts (c.token ∷ seen) cs out (ground (arith, h, on, passed)) in
        let this = client_failure-ClientOk seen c passed in
        let unseen = Unseen-cons c.token seen (enabled_tokens cs) rest.2 in
        subst (ClientsAccept seen (c ∷ cs) out) (tokens_of true c cs on) (
          (inr this.0, rest.0),
          (unseen.0, rest.1),
          (this.1, unseen.1),
          omega (arith, rest.3),
          λ t. ground (arith, rest.4 t),
        )
  ]
]
