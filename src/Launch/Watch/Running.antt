-- ===== src/Launch/Watch/Running.antt =====
-- cmd/gemgate/main.go: which configurations a watched gateway can come to run.
use gem_gate.Prelude.{ℕ, ◌≡◌, refl, sym, ap, ◌∙◌, subst, inl, inr, List, [], ◌∷◌, Result, ok, err}
use gem_gate.Text.{Text}
use gem_gate.Text.Equality.{text_eq_iff}
use gem_gate.Config.{Config, Runtime}
use gem_gate.Config.Accepted.{Accepted}
use gem_gate.Config.Load.{Platform, LoadError, load}
use gem_gate.Config.Load.Loaded.{load-Loaded}
use gem_gate.RateLimit.{RateLimitBackend}
use gem_gate.Gateway.{Gateway}
use gem_gate.Gateway.Reload.{ReloadError, DeepEqual, reload}
use gem_gate.Gateway.Reload.Atomic.Running.{reload-RunsOneOf}
use gem_gate.Launch.Watch.{Tick, record_failure, watch_tick, watch_config}

module _ {S E A T P : Type 0} (platform : Platform A P) (base_dir : Text)
    (load_error : LoadError → Text) (same : DeepEqual T) (backend : RateLimitBackend S E)
    (digest : Text → List ℕ) (describe : ReloadError → Text) (summary : ℕ → ℕ → Text) where
  -- A configuration that `validate` accepts, at the address.
  pub record RunsAccepted (listen : Text) (g : Gateway S T P) : Type 0 where
    pub accepted : Accepted platform.parse_url g.runtime.cfg
    pub at_address : g.runtime.cfg.config.server.listen ≡ listen

  abbrev ticked : Gateway S T P → Tick T → Gateway S T P
  ticked = watch_tick platform base_dir load_error same backend digest describe summary

  abbrev reloaded_with : Gateway S T P → Runtime T P → ℕ → Gateway S T P
  reloaded_with g rt now =
      (reload same platform.parse_url backend digest describe summary g rt now).0

  reload-RunsAccepted :
      (listen : Text) (g : Gateway S T P) (decoded : Config T) (rt : Runtime T P) (now : ℕ)
      → load platform base_dir decoded ≡ ok rt
      → RunsAccepted listen g
      → RunsAccepted listen (reloaded_with g rt now)
  reload-RunsAccepted listen g decoded rt now h r =
      elim (reload-RunsOneOf same platform.parse_url backend digest describe summary g rt now) [
        | inl kept ↦ record {
          accepted = subst (Accepted platform.parse_url) (sym kept) r.accepted;
          at_address = ap (λ c. c.config.server.listen) kept ∙ r.at_address;
        }
        | inr (taken, listens) ↦ record {
          accepted =
              subst (Accepted platform.parse_url) (sym taken)
                (load-Loaded platform base_dir decoded rt h).accepted;
          at_address =
              ap (λ c. c.config.server.listen) taken
              ∙ sym (
                  (text_eq_iff g.runtime.cfg.config.server.listen rt.config.server.listen).0
                    listens)
              ∙ r.at_address;
        }
      ]

  loaded-RunsAccepted :
      (listen : Text) (g : Gateway S T P) (decoded : Config T) (now : ℕ)
      (out : Result LoadError (Runtime T P))
      → load platform base_dir decoded ≡ out
      → RunsAccepted listen g
      → RunsAccepted listen (elim out [
        | err e ↦
            record_failure platform base_dir load_error same backend digest describe summary g
              (load_error e)
              now
        | ok rt ↦ reloaded_with g rt now
      ])
  unfolding record_failure
  loaded-RunsAccepted listen g decoded now (err e) h r = record {
    accepted = r.accepted;
    at_address = r.at_address;
  }
  loaded-RunsAccepted listen g decoded now (ok rt) h r =
      reload-RunsAccepted listen g decoded rt now h r

  file-RunsAccepted :
      (listen : Text) (g : Gateway S T P) (file : Result Text (Config T)) (now : ℕ)
      → RunsAccepted listen g
      → RunsAccepted listen (ticked g (record { file = file; now = now }))
  unfolding watch_tick record_failure
  file-RunsAccepted listen g (err text) now r = record {
    accepted = r.accepted;
    at_address = r.at_address;
  }
  file-RunsAccepted listen g (ok decoded) now r =
      loaded-RunsAccepted listen g decoded now (load platform base_dir decoded) refl r

  -- Whatever the file holds at each tick, readable or not, valid or not: a gateway that starts with a
  -- configuration that `validate` accepts runs such a configuration after any ticks, at the address at
  -- which it started.
  pub watch_config-RunsAccepted :
      (listen : Text) (g : Gateway S T P) (ticks : List (Tick T))
      → RunsAccepted listen g
      → RunsAccepted listen
          (watch_config platform base_dir load_error same backend digest describe summary g ticks)
  unfolding watch_config
  watch_config-RunsAccepted listen g [] r = r
  watch_config-RunsAccepted listen g (t ∷ ts) r =
      watch_config-RunsAccepted listen (ticked g t) ts (file-RunsAccepted listen g t.file t.now r)
