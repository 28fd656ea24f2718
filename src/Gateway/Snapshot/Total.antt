-- ===== src/Gateway/Snapshot/Total.antt =====
-- internal/gateway/runtime.go: an accepted configuration can be put into effect.
use gem_gate.Prelude.{
  is_some, ℕ, true, false, ◌||◌, ◌≡◌, refl, ◌∙◌, Option, none, List, [], ◌∷◌, All, ok, Option-cases,
  arith, inl, inr,
}
use gem_gate.Text.{Text, codes, text_eq, contains, is_empty}
use gem_gate.Table.{find_name, find-assign}
use gem_gate.Provider.{Spec}
use gem_gate.Circuit.{CircuitBreaker}
use gem_gate.Config.{Config, Runtime, ProviderConfig}
use gem_gate.Config.Checks.{Url, is_http}
use gem_gate.Config.Validation.Loops.{names, ProviderOk}
use gem_gate.Config.Accepted.{Accepted}
use gem_gate.Config.Completed.{NoSlash, load-NoSlash}
use gem_gate.Config.Load.{Platform, load}
use gem_gate.Config.Load.Loaded.{load-Loaded}
use gem_gate.Metrics.{Metrics}
use gem_gate.Gateway.{RuntimeSnapshot}
use gem_gate.Gateway.Snapshot.{
  Building, added, build_providers, build_runtime_snapshot, after_loop, snapshot_of,
  duration_or_zero,
}

http_scheme : (u : Url) → is_http u ≡ true → is_empty u.scheme ≡ false
http_scheme u h = named u.scheme h
  where
    named :
        (s : Text)
        → (text_eq s (codes "http") || text_eq s (codes "https")) ≡ true
        → is_empty s ≡ false
    named [] h = unfold text_eq in cc h
    named (c ∷ s) h = refl

module _ {T P : Type 0} (parse_url : Text → Option Url) (rt : Runtime T P)
    (previous : List (Text × CircuitBreaker)) (now : ℕ) where
  build_goes_on :
      (b : Building) (p : ProviderConfig) (ps : List ProviderConfig)
      → (o : ProviderOk parse_url rt.provider_circuits p) → NoSlash p
      → build_providers parse_url rt previous now b (p ∷ ps)
        ≡ build_providers parse_url rt previous now
            (added parse_url rt previous now b p o.spec o.url)
            ps
  unfolding build_providers
  build_goes_on b p ps o slash =
      ground (arith, o.known, slash, o.parsed, http_scheme o.url o.http, o.host)

  added-present :
      (b : Building) (p : ProviderConfig) (s : Spec) (u : Url) (j : Text)
      → is_some (find_name (added parse_url rt previous now b p s u).providers j)
        ≡ (text_eq p.name j || is_some (find_name b.providers j))
  unfolding added
  added-present b p s u j = ground (
    arith,
    find-assign b.providers p.name j (record {
      identity = record { name = p.name; spec = s; api_key = p.api_key; headers = p.headers };
      base_url = u;
      timeout = duration_or_zero (find_name rt.provider_timeouts p.name);
    }),
  )

  build_finishes :
      (b : Building) (ps : List ProviderConfig)
      → All (ProviderOk parse_url rt.provider_circuits) ps
      → All NoSlash ps
      → (out : Building) × (build_providers parse_url rt previous now b ps ≡ (out, none))
        × ((j : Text)
            → is_some (find_name out.providers j)
              ≡ (contains (names ps) j || is_some (find_name b.providers j)))
  unfolding contains
  build_finishes b [] oks slashes = (b, unfold build_providers in refl, λ j. refl)
  build_finishes b (p ∷ ps) oks slashes =
      let o = oks.0 in
      let next = added parse_url rt previous now b p o.spec o.url in
      let (out, ends, found) = build_finishes next ps oks.1 slashes.1 in
      (
        out,
        build_goes_on b p ps o slashes.0 ∙ ends,
        λ j. ground (arith, found j, added-present b p o.spec o.url j),
      )

  pub build-Accepted :
      (metrics : Metrics)
      → Accepted parse_url rt
      → All NoSlash rt.config.providers
      → (s : RuntimeSnapshot T P) × ((build_runtime_snapshot parse_url rt previous now metrics).1
          ≡ ok s)
  unfolding build_runtime_snapshot after_loop
  build-Accepted metrics accepted slashes =
      let (out, ends, found) =
        build_finishes (record { metrics = metrics; providers = []; breakers = [] })
          rt.config.providers accepted.providers_ok slashes in
      elim (Option-cases (find_name out.providers rt.config.default_provider)) [
        | inl missing ↦
            absurd
              (ground (arith, missing, found rt.config.default_provider, accepted.default_named))
        | inr (default, here) ↦
            (snapshot_of parse_url rt previous now out default, ground (arith, ends, here))
      ]

-- Every configuration that `Load` returns can be put into effect: whichever breakers the gateway had,
-- `buildRuntimeSnapshot` makes a snapshot of it.
pub load-builds :
    {A P T : Type 0} (platform : Platform A P) (base_dir : Text) (decoded : Config T)
    (rt : Runtime T P) (previous : List (Text × CircuitBreaker)) (now : ℕ) (metrics : Metrics)
    → load platform base_dir decoded ≡ ok rt
    → (s : RuntimeSnapshot T P) × ((build_runtime_snapshot platform.parse_url rt previous now
          metrics).1
        ≡ ok s)
load-builds platform base_dir decoded rt previous now metrics h =
    build-Accepted platform.parse_url rt previous now metrics
      (load-Loaded platform base_dir decoded rt h).accepted
      (load-NoSlash platform base_dir decoded rt h)
