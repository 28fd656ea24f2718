-- ===== src/Config/Load/Settings.antt =====
-- internal/config/config.go: the loop of `Load` over the providers.
use gem_gate.Prelude.{
  false, ◌≡◌, ◌∙◌, some, ℤ, List, [], ◌∷◌, ◌++◌, All, Result, ok, err, >>=-ok, arith, if◌then◌else◌,
}
use gem_gate.Text.{Text, codes, contains, text_eq}
use gem_gate.Text.Equality.{text_eq_refl}
use gem_gate.Table.{find_name, assign, find-assign}
use gem_gate.Config.{ProviderConfig, CircuitBreakerRuntime, breaker_enabled}
use gem_gate.Config.Numbers.{duration_of}
use gem_gate.Config.Validation.Failures.{Distinct}
use gem_gate.Config.Validation.Loops.{names}
use gem_gate.Config.Load.{
  Platform, LoadError, ProviderSettings, setting, wrapped, provider_settings,
}

pub wrapped-ok :
    {E A : Type 0} (wrap : E → LoadError) (r : Result E A) (a : A)
    → wrapped wrap r ≡ ok a
    → r ≡ ok a
wrapped-ok wrap (err e) a h = cc
wrapped-ok wrap (ok b) a h = ground (arith, h)

module _ {A P : Type 0} (platform : Platform A P) where
  -- The entries of a provider in the maps of the settings.
  pub record Listed (timeouts : List (Text × ℤ)) (circuits : List (Text × CircuitBreakerRuntime))
      (p : ProviderConfig) : Type 0 where
    pub timeout : ℤ
    pub timeout_parsed : duration_of platform.parsers p.timeout ≡ ok timeout
    pub timeout_listed : find_name timeouts p.name ≡ some timeout
    pub open_for : ℤ
    pub open_for_parsed : duration_of platform.parsers p.circuit_breaker.open_for ≡ ok open_for
    pub circuit_listed :
        find_name circuits p.name
        ≡ some (record {
          enabled = breaker_enabled p.circuit_breaker;
          failure_threshold = p.circuit_breaker.failure_threshold;
          open_for = open_for;
        })

  abbrev Untouched : ProviderSettings → ProviderSettings → Text → Type 0
  Untouched seen out j =
      (find_name out.timeouts j ≡ find_name seen.timeouts j)
      × (find_name out.circuits j ≡ find_name seen.circuits j)

  abbrev entered : Text → ProviderSettings → ProviderConfig → ℤ → ℤ → ProviderSettings
  entered default seen p d open_for = record {
    timeouts = assign seen.timeouts p.name d;
    circuits = assign seen.circuits p.name (record {
      enabled = breaker_enabled p.circuit_breaker;
      failure_threshold = p.circuit_breaker.failure_threshold;
      open_for = open_for;
    });
    upstream_timeout = if text_eq p.name default then d else seen.upstream_timeout;
  }

  settings_step :
      (default : Text) (seen : ProviderSettings) (p : ProviderConfig) (ps : List ProviderConfig)
      (out : ProviderSettings)
      → provider_settings platform default seen (p ∷ ps) ≡ ok out
      → (d : ℤ) × (open_for : ℤ) × (duration_of platform.parsers p.timeout ≡ ok d)
        × (duration_of platform.parsers p.circuit_breaker.open_for ≡ ok open_for)
        × (provider_settings platform default (entered default seen p d open_for) ps ≡ ok out)
  unfolding provider_settings setting
  settings_step default seen p ps out h =
      let (d, e, rest) = >>=-ok (setting platform (p.name ++ codes " timeout") p.timeout) _ h in
      let (open_for, f, last) =
        >>=-ok
          (setting platform (p.name ++ codes " circuit_breaker.open_for")
            p.circuit_breaker.open_for)
          _ rest in
      (
        d,
        open_for,
        wrapped-ok _ (duration_of platform.parsers p.timeout) d e,
        wrapped-ok _ (duration_of platform.parsers p.circuit_breaker.open_for) open_for f,
        last,
      )

  settings-Untouched :
      (default : Text) (seen : ProviderSettings) (ps : List ProviderConfig) (out : ProviderSettings)
      (j : Text)
      → provider_settings platform default seen ps ≡ ok out
      → contains (names ps) j ≡ false
      → Untouched seen out j
  unfolding contains
  settings-Untouched default seen [] out j h c = unfold provider_settings in ground (arith, h)
  settings-Untouched default seen (p ∷ ps) out j h c =
      let (d, open_for, e, f, rest) = settings_step default seen p ps out h in
      let later =
        settings-Untouched default (entered default seen p d open_for) ps out j rest
          (ground (arith, c)) in
      let circuit : CircuitBreakerRuntime = record {
        enabled = breaker_enabled p.circuit_breaker;
        failure_threshold = p.circuit_breaker.failure_threshold;
        open_for = open_for;
      } in
      (
        later.0 ∙ ground (arith, c, find-assign seen.timeouts p.name j d),
        later.1 ∙ ground (arith, c, find-assign seen.circuits p.name j circuit),
      )

  pub settings_listed :
      (default : Text) (seen : ProviderSettings) (ps : List ProviderConfig) (out : ProviderSettings)
      → provider_settings platform default seen ps ≡ ok out
      → Distinct (names ps)
      → All (Listed out.timeouts out.circuits) ps
  settings_listed default seen [] out h c = tt
  settings_listed default seen (p ∷ ps) out h c =
      let (d, open_for, e, f, rest) = settings_step default seen p ps out h in
      let later =
        settings-Untouched default (entered default seen p d open_for) ps out p.name rest c.0 in
      let circuit : CircuitBreakerRuntime = record {
        enabled = breaker_enabled p.circuit_breaker;
        failure_threshold = p.circuit_breaker.failure_threshold;
        open_for = open_for;
      } in
      (
        record {
          timeout = d;
          timeout_parsed = e;
          timeout_listed =
              later.0
              ∙ ground (arith, find-assign seen.timeouts p.name p.name d, text_eq_refl p.name);
          open_for = open_for;
          open_for_parsed = f;
          circuit_listed =
              later.1
              ∙ ground
                  (arith, find-assign seen.circuits p.name p.name circuit, text_eq_refl p.name);
        },
        settings_listed default (entered default seen p d open_for) ps out rest c.1,
      )
