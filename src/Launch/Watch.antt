-- ===== src/Launch/Watch.antt =====
-- cmd/gemgate/main.go: `watchConfig`, by which a running gateway takes up changes of its configuration
-- file. What is read at each tick is given: the decoded file, or the text of an error.
pub mod Running
use gem_gate.Prelude.{ℕ, List, [], ◌∷◌, ◌++◌, Result, ok, err, Option}
use gem_gate.Text.{Text, codes}
use gem_gate.Config.{Config}
use gem_gate.Config.Load.{Platform, LoadError, load}
use gem_gate.LogRing.{add}
use gem_gate.RateLimit.{RateLimitBackend}
use gem_gate.Gateway.{Gateway}
use gem_gate.Gateway.Reload.{ReloadError, DeepEqual, system_entry, reload}

-- A tick of the timer.
pub record Tick (T : Type 0) : Type 0 where
  pub file : Result Text (Config T)
  pub now : ℕ

module _ {S E A T P : Type 0} (platform : Platform A P) (base_dir : Text)
    (load_error : LoadError → Text) (same : DeepEqual T) (backend : RateLimitBackend S E)
    (digest : Text → List ℕ) (describe : ReloadError → Text) (summary : ℕ → ℕ → Text) where
  -- `RecordReloadFailure` of an error that is not nil.
  unfoldable pub record_failure : Gateway S T P → Text → ℕ → Gateway S T P
  record_failure g text now = record g {
    logs =
        add g.logs (system_entry 0 (codes "error") (codes "config reload rejected: " ++ text)) now;
  }

  unfoldable pub watch_tick : Gateway S T P → Tick T → Gateway S T P
  unfolding record_failure
  watch_tick g t = elim t.file [
    | err text ↦ record_failure g text t.now
    | ok decoded ↦ elim (load platform base_dir decoded) [
      | err e ↦ record_failure g (load_error e) t.now
      | ok rt ↦ (reload same platform.parse_url backend digest describe summary g rt t.now).0
    ]
  ]

  unfoldable pub watch_config : Gateway S T P → List (Tick T) → Gateway S T P
  unfolding watch_tick
  watch_config g [] = g
  watch_config g (t ∷ ts) = watch_config (watch_tick g t) ts
