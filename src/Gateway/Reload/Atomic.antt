-- ===== src/Gateway/Reload/Atomic.antt =====
-- internal/gateway/runtime.go: what a reload changes, and what it leaves as it was.
pub mod Running
use gem_gate.Prelude.{
  ℕ, true, false, ◌≡◌, refl, ap, inl, inr, Option, none, some, List, [], ◌∷◌, map, is_some, Result,
  ok, err, Option-cases, Bool-cases, arith, subst, sym, ◌∙◌, ◌⊎◌, if◌then◌else◌, ◌++◌,
}
use gem_gate.Text.{Text, codes, text_eq, contains}
use gem_gate.Table.{find_name}
use gem_gate.Config.{Runtime}
use gem_gate.Config.Checks.{Url}
use gem_gate.Config.Validation.Loops.{names}
use gem_gate.LogRing.{add}
use gem_gate.RateLimit.{RateLimitBackend, retain_tokens, retained_keys, rate_limit_key}
use gem_gate.Access.{find_token}
use gem_gate.Gateway.Reload.Clients.{last_enabled, tokens-last_enabled, keys-last_enabled}
use gem_gate.Gateway.Snapshot.Breakers.{due}
use gem_gate.Gateway.{Gateway, RuntimeSnapshot}
use gem_gate.Gateway.Snapshot.{Building, BuildError, build_runtime_snapshot, add_tokens}
use gem_gate.Gateway.Snapshot.Built.{build_fields, snapshot_breakers}
use gem_gate.Gateway.Reload.{
  ReloadError, build_failed, ReloadResult, token_keys, unchanged, rejected, DeepEqual, system_entry,
  validate_hot_reload, record_reload_failure, built, reload,
}

retained_keys-map :
    (digest : Text → List ℕ) (tokens : List Text)
    → retained_keys digest tokens ≡ map (rate_limit_key digest) tokens
unfolding retained_keys
retained_keys-map digest [] = refl
retained_keys-map digest (t ∷ ts) = rw (retained_keys-map digest ts) refl

module _ {S E T P : Type 0} (same : DeepEqual T) (parse_url : Text → Option Url)
    (backend : RateLimitBackend S E) (digest : Text → List ℕ) (describe : ReloadError → Text)
    (summary : ℕ → ℕ → Text) where
  abbrev after : Gateway S T P → Runtime T P → ℕ → Gateway S T P × ReloadResult
  after = reload same parse_url backend digest describe summary

  -- What stays when a reload is rejected: all but the metrics, where providers may have got an
  -- entry, and the log, which has the error at its end.
  pub record KeptBy (g g2 : Gateway S T P) (e : ReloadError) (now : ℕ) : Type 0 where
    pub same_runtime : g2.runtime ≡ g.runtime
    pub same_breakers : g2.breakers ≡ g.breakers
    pub same_rate_limits : g2.rate_limits ≡ g.rate_limits
    pub logged :
        g2.logs
        ≡ add g.logs
            (system_entry 0 (codes "error") (codes "config reload rejected: " ++ describe e))
            now

  abbrev failed : Gateway S T P → ReloadError → ℕ → Gateway S T P
  failed = record_reload_failure same parse_url backend digest describe summary

  failed-KeptBy :
      (g h : Gateway S T P) (e : ReloadError) (now : ℕ)
      → h.runtime ≡ g.runtime
      → h.breakers ≡ g.breakers
      → h.rate_limits ≡ g.rate_limits
      → h.logs ≡ g.logs
      → KeptBy g (failed h e now) e now
  unfolding record_reload_failure
  failed-KeptBy g h e now runtime breakers limits logs = record {
    same_runtime = runtime;
    same_breakers = breakers;
    same_rate_limits = limits;
    logged =
        ap
          (λ r.
            add r (system_entry 0 (codes "error") (codes "config reload rejected: " ++ describe e))
              now)
          logs;
  }

  -- The results that are as they should be where the result is a rejection.
  abbrev Explained : Gateway S T P → ℕ → Gateway S T P × ReloadResult → Type 0
  Explained g now r = (e : ReloadError) → r.1 ≡ rejected e → KeptBy g r.0 e now

  rejection :
      (g h : Gateway S T P) (f : ReloadError) (now : ℕ)
      → KeptBy g (failed h f now) f now
      → Explained g now (failed h f now, rejected f)
  rejection g h f now kept e same_error =
      subst (λ x. KeptBy g (failed h f now) x now) (rejected_injective same_error) kept
    where
      rejected_injective : {a b : ReloadError} → rejected a ≡ rejected b → a ≡ b
      rejected_injective h = cc

  built-Explained :
      (g : Gateway S T P) (now : ℕ) (r : Building × Result BuildError (RuntimeSnapshot T P))
      → Explained g now (built same parse_url backend digest describe summary g now r)
  unfolding built
  built-Explained g now (b, err f) =
      rejection g (record g { metrics = b.metrics }) (build_failed f) now
        (failed-KeptBy g (record g { metrics = b.metrics }) (build_failed f) now refl refl refl
          refl)
  built-Explained g now (b, ok s) = λ e h. cc

  -- The three ways of a reload.
  reload-cases :
      (g : Gateway S T P) (rt : Runtime T P) (now : ℕ)
      → (after g rt now ≡ (g, unchanged))
        ⊎ ((e : ReloadError) × (after g rt now ≡ (failed g e now, rejected e)))
        ⊎ ((same.same_config g.runtime.cfg.config rt.config ≡ false)
            × (validate_hot_reload same parse_url backend digest describe summary g.runtime.cfg rt
                ≡ none)
            × (after g rt now
                ≡ built same parse_url backend digest describe summary g now
                    (build_runtime_snapshot parse_url rt g.breakers now g.metrics)))
  unfolding reload
  reload-cases g rt now = elim (Bool-cases (same.same_config g.runtime.cfg.config rt.config)) [
    | inl equal ↦ inl (rw equal refl)
    | inr differs ↦
        elim (Option-cases
          (validate_hot_reload same parse_url backend digest describe summary g.runtime.cfg rt)) [
            | inl none_wrong ↦ inr (inr (differs, none_wrong, rw differs (rw none_wrong refl)))
            | inr (e, wrong) ↦ inr (inl (e, rw differs (rw wrong refl)))
          ]
  ]

  -- A reload that is rejected keeps the running snapshot, the breakers and the rate limits; the log
  -- has one more entry, the error.
  pub reload-KeptBy :
      (g : Gateway S T P) (rt : Runtime T P) (now : ℕ) (e : ReloadError)
      → (after g rt now).1 ≡ rejected e
      → KeptBy g (after g rt now).0 e now
  reload-KeptBy g rt now e h = elim (reload-cases g rt now) [
    | inl same_config ↦ absurd (not_rejected same_config)
    | inr (inl (f, wrong)) ↦
        subst (Explained g now) (sym wrong)
          (rejection g g f now (failed-KeptBy g g f now refl refl refl refl)) e h
    | inr (inr (differs, fits, made)) ↦
        subst (Explained g now) (sym made)
          (built-Explained g now (build_runtime_snapshot parse_url rt g.breakers now g.metrics)) e h
  ]
    where
      not_rejected : ¬ (after g rt now ≡ (g, unchanged))
      not_rejected same_config = apart (sym (ap (λ r. r.1) same_config) ∙ h)
        where
          apart : ¬ (unchanged ≡ rejected e)
          apart h = cc

  -- What is in effect after a reload: the configuration and the breakers that its providers have.
  pub record InEffect (g g2 : Gateway S T P) (rt : Runtime T P) (now : ℕ) : Type 0 where
    pub runs : g2.runtime.cfg ≡ rt
    pub same_listen : text_eq g.runtime.cfg.config.server.listen rt.config.server.listen ≡ true
    pub breakers_carried :
        (j : Text)
        → find_name g2.breakers j ≡ (
            if contains (names rt.config.providers) j
            then some (due (find_name rt.provider_circuits j) (find_name g.breakers j) now)
            else none)
    pub clients_only :
        (t : Text) → find_token g2.runtime.access.tokens t ≡ last_enabled rt.config.clients t
    pub operations_token : g2.runtime.access.operations_token ≡ rt.config.operations.token
    pub kept_tokens : List Text
    pub kept_enabled :
        (t : Text) → contains kept_tokens t ≡ is_some (last_enabled rt.config.clients t)
    pub windows_asked : g2.rate_limits ≡ record g.rate_limits {
      backend_state =
          backend.retain g.rate_limits.backend_state (map (rate_limit_key digest) kept_tokens);
    }

  asked :
      (g : Gateway S T P) (tokens : List Text)
      → retain_tokens backend digest g.rate_limits tokens ≡ record g.rate_limits {
        backend_state =
            backend.retain g.rate_limits.backend_state (map (rate_limit_key digest) tokens);
      }
  unfolding retain_tokens
  asked g tokens =
      ap
        (λ (keys : List Text). record g.rate_limits {
          backend_state = backend.retain g.rate_limits.backend_state keys;
        })
        (retained_keys-map digest tokens)

  fits-listen :
      (old new : Runtime T P)
      → validate_hot_reload same parse_url backend digest describe summary old new ≡ none
      → text_eq old.config.server.listen new.config.server.listen ≡ true
  unfolding validate_hot_reload
  fits-listen old new h = ground (arith, h)

  adopted :
      (g : Gateway S T P) (rt : Runtime T P) (now : ℕ) (s : RuntimeSnapshot T P)
      → validate_hot_reload same parse_url backend digest describe summary g.runtime.cfg rt ≡ none
      → (build_runtime_snapshot parse_url rt g.breakers now g.metrics).1 ≡ ok s
      → after g rt now
        ≡ built same parse_url backend digest describe summary g now
            (build_runtime_snapshot parse_url rt g.breakers now g.metrics)
      → InEffect g (after g rt now).0 rt now
  unfolding built
  adopted g rt now s fits made result =
      let out = build_runtime_snapshot parse_url rt g.breakers now g.metrics in
      let fields = build_fields parse_url rt g.breakers now g.metrics s made in
      subst (λ r. InEffect g r.0 rt now)
        (sym (
          result
          ∙ ap (λ r. built same parse_url backend digest describe summary g now (out.0, r)) made))
        (record {
          runs = fields.0;
          same_listen = fits-listen g.runtime.cfg rt fits;
          breakers_carried = λ j. snapshot_breakers parse_url rt g.breakers now g.metrics s j made;
          clients_only = λ t.
              ap (λ a. find_token a.tokens t) fields.1 ∙ tokens-last_enabled rt.config.clients t;
          operations_token = ap (λ a. a.operations_token) fields.1;
          kept_tokens = token_keys (add_tokens [] rt.config.clients);
          kept_enabled = keys-last_enabled rt.config.clients;
          windows_asked =
              ap (λ a. retain_tokens backend digest g.rate_limits (token_keys a.tokens)) fields.1
              ∙ asked g (token_keys (add_tokens [] rt.config.clients));
        })
