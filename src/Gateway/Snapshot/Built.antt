-- ===== src/Gateway/Snapshot/Built.antt =====
-- internal/gateway/runtime.go: when a snapshot is built, and which breakers it has.
use gem_gate.Prelude.{
  ℕ, ◌≡◌, refl, ap, ◌∙◌, inl, inr, Option, none, some, List, [], ◌∷◌, ok, Bool-cases, Option-cases,
  arith, if◌then◌else◌,
}
use gem_gate.Text.{Text, text_eq, contains, trim_right}
use gem_gate.Text.Equality.{text_eq_iff}
use gem_gate.Table.{find_name, find-assign}
use gem_gate.Circuit.{CircuitBreaker}
use gem_gate.Config.{Runtime, ProviderConfig}
use gem_gate.Config.Checks.{Url}
use gem_gate.Config.Validation.Loops.{names}
use gem_gate.Cors.{new_cors_policy}
use gem_gate.Metrics.{Metrics}
use gem_gate.Provider.{lookup}
use gem_gate.Gateway.{RuntimeSnapshot, ProviderRuntime}
use gem_gate.Gateway.Snapshot.Breakers.{due, breaker_for-due}
use gem_gate.Gateway.Snapshot.{
  Building, BuildError, usable, added, build_providers, build_runtime_snapshot, after_loop,
  breaker_for, circuit_policy_for, snapshot_of, add_tokens,
}

module _ {T P : Type 0} (parse_url : Text → Option Url) (rt : Runtime T P)
    (previous : List (Text × CircuitBreaker)) (now : ℕ) where
  abbrev carried : Text → CircuitBreaker
  carried j = breaker_for previous j (circuit_policy_for rt.provider_circuits j) now

  -- A loop that ends without an error.
  abbrev Finished : Building → List ProviderConfig → Building → Type 0
  Finished b ps out = build_providers parse_url rt previous now b ps ≡ (out, none)

  named :
      (bs : List (Text × CircuitBreaker)) (n j : Text)
      → (if text_eq n j then some (carried n) else find_name bs j)
        ≡ (if text_eq n j then some (carried j) else find_name bs j)
  named bs n j = elim (Bool-cases (text_eq n j)) [
    | inl same ↦ rw same (ap (λ k. some (carried k)) ((text_eq_iff n j).0 same))
    | inr other ↦ rw other refl
  ]

  build_step :
      (b : Building) (p : ProviderConfig) (ps : List ProviderConfig) (out : Building)
      → Finished b (p ∷ ps) out
      → (next : Building) × Finished next ps out
        × ((j : Text)
            → find_name next.breakers j
              ≡ (if text_eq p.name j then some (carried j) else find_name b.breakers j))
  unfolding build_providers added
  build_step b p ps out h = elim (Option-cases (lookup p.type)) [
    | inl unknown ↦ absurd (ground (arith, h, unknown))
    | inr (spec, known) ↦ elim (Option-cases (usable (parse_url (trim_right p.base_url b'/')))) [
      | inl bad ↦ absurd (ground (arith, h, known, bad))
      | inr (u, good) ↦ (
        added parse_url rt previous now b p spec u,
        ground (arith, h, known, good),
        λ j. find-assign b.breakers p.name j (carried p.name) ∙ named b.breakers p.name j,
      )
    ]
  ]

  build_breakers :
      (b : Building) (ps : List ProviderConfig) (out : Building) (j : Text)
      → Finished b ps out
      → find_name out.breakers j
        ≡ (if contains (names ps) j then some (carried j) else find_name b.breakers j)
  unfolding contains
  build_breakers b [] out j h = unfold build_providers in ground (arith, h)
  build_breakers b (p ∷ ps) out j h =
      let (next, rest, entry) = build_step b p ps out h in
      ground (arith, build_breakers next ps out j rest, entry j)

  abbrev empty_building : Metrics → Building
  empty_building metrics = record { metrics = metrics; providers = []; breakers = [] }

  -- A snapshot comes from a loop that ended without an error.
  build_inversion :
      (metrics : Metrics) (s : RuntimeSnapshot T P)
      → (build_runtime_snapshot parse_url rt previous now metrics).1 ≡ ok s
      → Finished
          (empty_building metrics)
          rt.config.providers
          (build_runtime_snapshot parse_url rt previous now metrics).0
        × (default : ProviderRuntime) × (find_name
              (build_runtime_snapshot parse_url rt previous now metrics).0.providers
              rt.config.default_provider
            ≡ some default)
        × (s
            ≡ snapshot_of parse_url rt previous now
                (build_runtime_snapshot parse_url rt previous now metrics).0
                default)
  unfolding build_runtime_snapshot after_loop
  build_inversion metrics s made =
      split (build_providers parse_url rt previous now (empty_building metrics) rt.config.providers)
        refl made
    where
      split :
          (r : Building × Option BuildError)
          → build_providers parse_url rt previous now (empty_building metrics) rt.config.providers
            ≡ r
          → (after_loop parse_url rt previous now r).1 ≡ ok s
          → (build_providers parse_url rt previous now (empty_building metrics) rt.config.providers
              ≡ ((after_loop parse_url rt previous now r).0, none))
            × (default : ProviderRuntime) × (find_name
                  (after_loop parse_url rt previous now r).0.providers
                  rt.config.default_provider
                ≡ some default)
            × (s
                ≡ snapshot_of parse_url rt previous now
                    (after_loop parse_url rt previous now r).0
                    default)
      split (b, some e) same h = cc
      split (b, none) same h =
          elim (Option-cases (find_name b.providers rt.config.default_provider)) [
            | inl missing ↦ absurd (ground (arith, h, missing))
            | inr (default, found) ↦ (same, default, found, ground (arith, h, found))
          ]

  -- The fields of the snapshot that do not come from the loop.
  pub build_fields :
      (metrics : Metrics) (s : RuntimeSnapshot T P)
      → (build_runtime_snapshot parse_url rt previous now metrics).1 ≡ ok s
      → (s.cfg ≡ rt)
        × (s.access ≡ record {
          tokens = add_tokens [] rt.config.clients;
          operations_token = rt.config.operations.token;
        })
        × (s.cors ≡ new_cors_policy rt.config.server.cors rt.cors_max_age)
  unfolding snapshot_of
  build_fields metrics s made =
      let (loop, default, found, e) = build_inversion metrics s made in
      (ap (λ r. r.cfg) e, ap (λ r. r.access) e, ap (λ r. r.cors) e)

  -- In a snapshot that is built every configured provider has the breaker that is due to it, and no
  -- other name has one: a closed one of its settings, or, where it had one and both are on, one of its
  -- settings that takes over the state, the failures and the interval of the one that it had.
  pub snapshot_breakers :
      (metrics : Metrics) (s : RuntimeSnapshot T P) (j : Text)
      → (build_runtime_snapshot parse_url rt previous now metrics).1 ≡ ok s
      → find_name (build_runtime_snapshot parse_url rt previous now metrics).0.breakers j ≡ (
          if contains (names rt.config.providers) j
          then some (due (find_name rt.provider_circuits j) (find_name previous j) now)
          else none)
  snapshot_breakers metrics s j made =
      let (loop, default, found, e) = build_inversion metrics s made in
      build_breakers (empty_building metrics) rt.config.providers _ j loop
      ∙ (unfold find_name in
          ap (λ b. if contains (names rt.config.providers) j then some b else none)
            (breaker_for-due rt.provider_circuits previous j now))
