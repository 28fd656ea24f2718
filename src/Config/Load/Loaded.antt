-- ===== src/Config/Load/Loaded.antt =====
-- internal/config/config.go: what `Load` returns, from its defaults to its checks.
use gem_gate.Prelude.{
  Result, subst, inl, inr, ℕ, ◌≡◌, refl, none, pos, [], All, ok, >>=-ok, Option-cases, arith,
}
use gem_gate.Text.{Text, codes}
use gem_gate.Config.{Config, Runtime}
use gem_gate.Config.Defaults.{apply_defaults, sync_legacy_upstream}
use gem_gate.Config.Secrets.{resolve_secret_files}
use gem_gate.Config.Numbers.{duration_of, parse_bytes}
use gem_gate.Config.Proxies.{parse_trusted_proxies}
use gem_gate.Config.Validation.{validate}
use gem_gate.Config.Accepted.{Accepted, validate-Accepted}
use gem_gate.Config.Load.{
  LoadError, Platform, setting, wrapped, secret_failed, bad_setting, bad_proxies, provider_settings,
  runtime_of, checked, load,
}
use gem_gate.Config.Load.Settings.{Listed, wrapped-ok, settings_listed}

pub ok_injective {ℓ κ} :
    {E : Type ℓ} {A : Type κ} {a b : A} → ◌≡◌ {A = Result E A} (ok a) (ok b) → a ≡ b
ok_injective h = cc

module _ {A P T : Type 0} (platform : Platform A P) where
  -- The numbers of a runtime configuration come from its texts.
  pub record Parsed (rt : Runtime T P) : Type 0 where
    pub read_timeout_parsed :
        duration_of platform.parsers rt.config.server.read_timeout ≡ ok rt.read_timeout
    pub write_timeout_parsed :
        duration_of platform.parsers rt.config.server.write_timeout ≡ ok rt.write_timeout
    pub idle_timeout_parsed :
        duration_of platform.parsers rt.config.server.idle_timeout ≡ ok rt.idle_timeout
    pub limit : ℕ
    pub limit_parsed : parse_bytes platform.parsers rt.config.server.request_body_limit ≡ ok limit
    pub limit_set : rt.request_body_limit ≡ pos limit
    pub max_age_parsed :
        duration_of platform.parsers rt.config.server.cors.max_age ≡ ok rt.cors_max_age
    pub proxies_parsed :
        parse_trusted_proxies platform.net rt.config.server.trusted_proxies ≡ ok rt.trusted_proxies
    pub rate_limit_timeout_parsed :
        duration_of platform.parsers rt.config.rate_limit.redis.timeout ≡ ok rt.rate_limit_timeout
    pub settings :
        provider_settings platform rt.config.default_provider
          (record { timeouts = []; circuits = []; upstream_timeout = pos 0 })
          rt.config.providers
        ≡ ok (record {
          timeouts = rt.provider_timeouts;
          circuits = rt.provider_circuits;
          upstream_timeout = rt.upstream_timeout;
        })

  runtime_of-Parsed :
      (cfg : Config T) (rt : Runtime T P)
      → runtime_of platform cfg ≡ ok rt
      → (rt.config ≡ cfg) × Parsed rt
  unfolding runtime_of setting
  runtime_of-Parsed cfg rt h =
      let (a, ea, h1) =
        >>=-ok (setting platform (codes "server.read_timeout") cfg.server.read_timeout) _ h in
      let (b, eb, h2) =
        >>=-ok (setting platform (codes "server.write_timeout") cfg.server.write_timeout) _ h1 in
      let (c, ec, h3) =
        >>=-ok (setting platform (codes "server.idle_timeout") cfg.server.idle_timeout) _ h2 in
      let (n, en, h4) =
        >>=-ok
          (wrapped (bad_setting (codes "server.request_body_limit"))
            (parse_bytes platform.parsers cfg.server.request_body_limit))
          _ h3 in
      let (m, em, h5) =
        >>=-ok (setting platform (codes "server.cors.max_age") cfg.server.cors.max_age) _ h4 in
      let (ps, eps, h6) =
        >>=-ok (wrapped bad_proxies (parse_trusted_proxies platform.net cfg.server.trusted_proxies))
          _ h5 in
      let (r, er, h7) =
        >>=-ok (setting platform (codes "rate_limit.redis.timeout") cfg.rate_limit.redis.timeout) _
          h6 in
      let (s, es, h8) =
        >>=-ok
          (provider_settings platform cfg.default_provider
            (record { timeouts = []; circuits = []; upstream_timeout = pos 0 }) cfg.providers)
          _ h7 in
      subst (λ r. (r.config ≡ cfg) × Parsed r) (ok_injective h8)
        (
          refl,
          record {
            read_timeout_parsed =
                wrapped-ok _ (duration_of platform.parsers cfg.server.read_timeout) a ea;
            write_timeout_parsed =
                wrapped-ok _ (duration_of platform.parsers cfg.server.write_timeout) b eb;
            idle_timeout_parsed =
                wrapped-ok _ (duration_of platform.parsers cfg.server.idle_timeout) c ec;
            limit = n;
            limit_parsed =
                wrapped-ok _ (parse_bytes platform.parsers cfg.server.request_body_limit) n en;
            limit_set = refl;
            max_age_parsed =
                wrapped-ok _ (duration_of platform.parsers cfg.server.cors.max_age) m em;
            proxies_parsed =
                wrapped-ok _ (parse_trusted_proxies platform.net cfg.server.trusted_proxies) ps eps;
            rate_limit_timeout_parsed =
                wrapped-ok _ (duration_of platform.parsers cfg.rate_limit.redis.timeout) r er;
            settings = es;
          },
        )

  -- What a loaded configuration has. Its `config` is the file's with the defaults and the secrets.
  pub record Loaded (base_dir : Text) (decoded : Config T) (rt : Runtime T P) : Type 0 where
    pub resolved : Config T
    pub secrets_read :
        resolve_secret_files platform.files base_dir (apply_defaults decoded) ≡ ok resolved
    pub config_is : rt.config ≡ sync_legacy_upstream resolved
    pub parsed : Parsed rt
    pub passed : validate platform.parse_url rt ≡ none
    pub accepted : Accepted platform.parse_url rt
    pub listed : All (Listed platform rt.provider_timeouts rt.provider_circuits) rt.config.providers

  -- A configuration that `Load` returns is the decoded one with the defaults and the secrets put in;
  -- each duration, size and prefix of it is what the text of its setting parses to; `validate`
  -- accepts it; and every provider has its own timeout and circuit settings, whichever others there
  -- are.
  pub load-Loaded :
      (base_dir : Text) (decoded : Config T) (rt : Runtime T P)
      → load platform base_dir decoded ≡ ok rt
      → Loaded base_dir decoded rt
  unfolding load checked
  load-Loaded base_dir decoded rt h =
      let (cfg, secrets, h1) =
        >>=-ok
          (wrapped secret_failed
            (resolve_secret_files platform.files base_dir (apply_defaults decoded)))
          _ h in
      let (out, made, h2) = >>=-ok (runtime_of platform (sync_legacy_upstream cfg)) _ h1 in
      elim (Option-cases (validate platform.parse_url out)) [
        | inr (e, failed) ↦ absurd (ground (arith, h2, failed))
        | inl passed ↦
            subst (Loaded base_dir decoded)
              (ok_injective {E = LoadError} (ground (arith, h2, passed)))
              (loaded cfg out (wrapped-ok _ _ cfg secrets) made passed)
      ]
    where
      loaded :
          (cfg : Config T) (out : Runtime T P)
          → resolve_secret_files platform.files base_dir (apply_defaults decoded) ≡ ok cfg
          → runtime_of platform (sync_legacy_upstream cfg) ≡ ok out
          → validate platform.parse_url out ≡ none
          → Loaded base_dir decoded out
      loaded cfg out secrets made passed =
          let r = runtime_of-Parsed (sync_legacy_upstream cfg) out made in
          let a = validate-Accepted platform.parse_url out passed in
          record {
            resolved = cfg;
            secrets_read = secrets;
            config_is = r.0;
            parsed = r.1;
            passed = passed;
            accepted = a;
            listed =
                settings_listed platform out.config.default_provider _ out.config.providers _
                  r.1.settings a.names_distinct;
          }
