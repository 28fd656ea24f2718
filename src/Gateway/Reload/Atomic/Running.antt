-- ===== src/Gateway/Reload/Atomic/Running.antt =====
-- internal/gateway/runtime.go: the configuration that runs after a reload.
use gem_gate.Prelude.{Result-cases, ℕ, true, ◌≡◌, refl, ap, inl, inr, err, ◌∙◌, ◌⊎◌, List, Option}
use gem_gate.Text.{Text, text_eq}
use gem_gate.Config.{Runtime}
use gem_gate.Config.Checks.{Url}
use gem_gate.RateLimit.{RateLimitBackend}
use gem_gate.Gateway.{Gateway}
use gem_gate.Gateway.Snapshot.{BuildError, Building, build_runtime_snapshot}
use gem_gate.Gateway.Reload.{
  ReloadError, ReloadResult, DeepEqual, built, reload, record_reload_failure,
}
use gem_gate.Gateway.Reload.Atomic.{failed, adopted, reload-cases}

module _ {S E T P : Type 0} (same : DeepEqual T) (parse_url : Text → Option Url)
    (backend : RateLimitBackend S E) (digest : Text → List ℕ) (describe : ReloadError → Text)
    (summary : ℕ → ℕ → Text) where
  -- The old configuration, or the new one at the same address.
  abbrev pub RunsOneOf : Gateway S T P → Runtime T P → Gateway S T P → Type 0
  RunsOneOf g rt g2 =
      (g2.runtime.cfg ≡ g.runtime.cfg)
      ⊎ ((g2.runtime.cfg ≡ rt)
          × (text_eq g.runtime.cfg.config.server.listen rt.config.server.listen ≡ true))

  built_kept :
      (g : Gateway S T P) (now : ℕ) (b : Building) (e : BuildError)
      → (built same parse_url backend digest describe summary g now (b, err e)).0.runtime.cfg
        ≡ g.runtime.cfg
  unfolding built record_reload_failure
  built_kept g now b e = refl

  failed_kept :
      (g : Gateway S T P) (e : ReloadError) (now : ℕ)
      → (failed same parse_url backend digest describe summary g e now).runtime.cfg ≡ g.runtime.cfg
  unfolding record_reload_failure
  failed_kept g e now = refl

  pub reload-RunsOneOf :
      (g : Gateway S T P) (rt : Runtime T P) (now : ℕ)
      → RunsOneOf g rt (reload same parse_url backend digest describe summary g rt now).0
  reload-RunsOneOf g rt now =
      let out = build_runtime_snapshot parse_url rt g.breakers now g.metrics in
      let cfg = λ (r : Gateway S T P × ReloadResult). r.0.runtime.cfg in
      let make = built same parse_url backend digest describe summary g now in
      elim (reload-cases same parse_url backend digest describe summary g rt now) [
        | inl unchanged ↦ inl (ap cfg unchanged)
        | inr (inl (e, wrong)) ↦ inl (ap cfg wrong ∙ failed_kept g e now)
        | inr (inr (differs, fits, made)) ↦ elim (Result-cases out.1) [
          | inl (e, bad) ↦
              inl (ap cfg made ∙ ap (λ r. cfg (make (out.0, r))) bad ∙ built_kept g now out.0 e)
          | inr (s, good) ↦
              let f =
                adopted same parse_url backend digest describe summary g rt now s fits good made in
              inr (f.runs, f.same_listen)
        ]
      ]
