-- ===== src/Gateway/Operations/Ready.antt =====
-- internal/gateway/readiness.go: when the gateway is ready, and what follows from it.
use gem_gate.Prelude.{
  is_some, ℕ, true, false, not, ◌&&◌, ◌≡◌, refl, ap, inl, inr, none, some, List, [], ◌∷◌,
  Bool-cases, arith, if◌then◌else◌,
}
use gem_gate.Text.{Text, text_eq}
use gem_gate.Text.Equality.{text_eq_iff}
use gem_gate.Table.{find_name}
use gem_gate.Circuit.{CircuitBreaker, CircuitSnapshot}
use gem_gate.Circuit
use gem_gate.Metrics.{Health}
use gem_gate.Gateway.{Gateway, ProviderRuntime}
use gem_gate.Gateway.Exchange.{breaker_of}
use gem_gate.Gateway.Operations.{
  circuit_snapshots, readiness_entry, readiness_loop, or_closed, refuses, write_readiness,
  active_provider_metrics, provider_health_snapshot,
}

circuit_snapshots-find :
    (breakers : List (Text × CircuitBreaker)) (providers : List (Text × ProviderRuntime)) (now : ℕ)
    (j : Text)
    → find_name (circuit_snapshots breakers providers now) j ≡ (
        if is_some (find_name providers j)
        then some (Circuit.snapshot (breaker_of breakers j) now)
        else none)
unfolding find_name circuit_snapshots
circuit_snapshots-find breakers [] now j = refl
circuit_snapshots-find breakers ((name, p) ∷ providers) now j = elim (Bool-cases (text_eq name j)) [
  | inl same ↦
      rw same (
        ap (λ k. some (Circuit.snapshot (breaker_of breakers k) now)) ((text_eq_iff name j).0 same))
  | inr other ↦ rw other (circuit_snapshots-find breakers providers now j)
]

readiness_loop-ready :
    (health : List (Text × Health)) (circuits : List (Text × CircuitSnapshot)) (default : Text)
    (providers : List (Text × ProviderRuntime))
    → (readiness_loop health circuits default providers).1
      ≡ not (
          is_some (find_name providers default)
          && refuses (readiness_entry health circuits default).circuit)
unfolding find_name readiness_loop
readiness_loop-ready health circuits default [] = refl
readiness_loop-ready health circuits default ((name, p) ∷ providers) =
    elim (Bool-cases (text_eq name default)) [
      | inl same ↦
          let state =
            ap (λ k. refuses (or_closed (find_name circuits k)).state)
              ((text_eq_iff name default).0 same) in
          ground (arith, same, state, readiness_loop-ready health circuits default providers)
      | inr other ↦ rw other (readiness_loop-ready health circuits default providers)
    ]

-- A breaker that does not refuse in its snapshot admits a request at that time.
snapshot-admits :
    (b : CircuitBreaker) (now : ℕ)
    → refuses (Circuit.snapshot b now).state ≡ false
    → (Circuit.allow b now).1.allowed ≡ true
unfolding Circuit.snapshot Circuit.allow
snapshot-admits b now h = ground (arith, h)

module _ {S P T : Type 0} where
  pub write_readiness-status :
      (g : Gateway S T P) (now : ℕ)
      → is_some (find_name g.runtime.providers g.runtime.cfg.config.default_provider) ≡ true
      → (write_readiness g now).0 ≡ (
          if refuses
            (Circuit.snapshot
              (breaker_of g.breakers g.runtime.cfg.config.default_provider)
              now).state
          then 503
          else 200)
  unfolding write_readiness
  write_readiness-status g now known = ground (
    arith,
    known,
    readiness_loop-ready
        (provider_health_snapshot (active_provider_metrics g.metrics.providers g.runtime.providers))
        (circuit_snapshots g.breakers g.runtime.providers now) g.runtime.cfg.config.default_provider
        g.runtime.providers,
    circuit_snapshots-find g.breakers g.runtime.providers now g.runtime.cfg.config.default_provider,
  )

  -- When readiness answers 200, the breaker of the default provider admits a request at that time.
  pub ready_admits :
      (g : Gateway S T P) (now : ℕ)
      → is_some (find_name g.runtime.providers g.runtime.cfg.config.default_provider) ≡ true
      → (write_readiness g now).0 ≡ 200
      → (Circuit.allow (breaker_of g.breakers g.runtime.cfg.config.default_provider) now).1.allowed
        ≡ true
  ready_admits g now known ready =
      let b = breaker_of g.breakers g.runtime.cfg.config.default_provider in
      snapshot-admits b now (ground (arith, ready, write_readiness-status g now known))
