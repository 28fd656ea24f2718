-- ===== src/Config/Completed.antt =====
-- internal/config/config.go: the base URLs of a configuration that `Load` returns.
use mathlib.Core.List.{reverse, reverse-reverse}
use gem_gate.Prelude.{
  not, ℕ, ◌≡◌, refl, sym, ap, ◌∙◌, subst, List, [], ◌∷◌, All, map, ok, >>=-ok, arith,
}
use gem_gate.Text.{Text, codes, is_empty, trim_space, trim_right, drop_byte}
use gem_gate.Config.{Config, Runtime, ProviderConfig}
use gem_gate.Config.Defaults.{
  apply_defaults, provider_defaults, with_providers, sync_legacy_upstream,
}
use gem_gate.Config.Secrets.{
  Files, SecretError, resolve_secret_files, resolve_providers, resolve_clients, resolve_secret,
}
use gem_gate.Config.Load.{Platform, load}
use gem_gate.Config.Load.Loaded.{load-Loaded, ok_injective}

-- A base URL with no slash at its end.
abbrev pub NoSlash : ProviderConfig → Type 0
NoSlash p = trim_right p.base_url b'/' ≡ p.base_url

drop_byte_twice : (sep : ℕ) (s : Text) → drop_byte sep (drop_byte sep s) ≡ drop_byte sep s
unfolding drop_byte
drop_byte_twice sep [] = refl
drop_byte_twice sep (c ∷ s) = ground (arith, drop_byte_twice sep s)

trim_right_twice : (s : Text) (sep : ℕ) → trim_right (trim_right s sep) sep ≡ trim_right s sep
unfolding trim_right
trim_right_twice s sep =
    ap (λ r. reverse (drop_byte sep r)) (reverse-reverse (drop_byte sep (reverse s)))
    ∙ ap reverse (drop_byte_twice sep (reverse s))

defaults-NoSlash : (ps : List ProviderConfig) → All NoSlash (map provider_defaults ps)
unfolding provider_defaults
defaults-NoSlash [] = tt
defaults-NoSlash (p ∷ ps) = (trim_right_twice _ b'/', defaults-NoSlash ps)

-- The secrets leave the base URLs as they are.
resolved-NoSlash :
    (files : Files) (base_dir : Text) (ps : List ProviderConfig) (out : List ProviderConfig)
    → All NoSlash ps
    → resolve_providers files base_dir ps ≡ ok out
    → All NoSlash out
unfolding resolve_providers
resolved-NoSlash files base_dir [] out slashes h =
    subst (All NoSlash) (ok_injective {E = SecretError} h) tt
resolved-NoSlash files base_dir (p ∷ ps) out slashes h =
    let (key, ek, h1) =
      >>=-ok
        (resolve_secret files base_dir p.name (not (is_empty (trim_space p.api_key))) p.api_key
          p.api_key_file)
        _ h in
    let (rest, er, h2) = >>=-ok (resolve_providers files base_dir ps) _ h1 in
    subst (All NoSlash) (ok_injective {E = SecretError} h2)
      (slashes.0, resolved-NoSlash files base_dir ps rest slashes.1 er)

module _ {A P T : Type 0} (platform : Platform A P) where
  secrets-NoSlash :
      (base_dir : Text) (cfg out : Config T)
      → All NoSlash cfg.providers
      → resolve_secret_files platform.files base_dir cfg ≡ ok out
      → All NoSlash out.providers
  unfolding resolve_secret_files
  secrets-NoSlash base_dir cfg out slashes h =
      let (providers, e1, h1) =
        >>=-ok (resolve_providers platform.files base_dir cfg.providers) _ h in
      let (clients, e2, h2) = >>=-ok (resolve_clients platform.files base_dir cfg.clients) _ h1 in
      let (token, e3, h3) =
        >>=-ok
          (resolve_secret platform.files base_dir (codes "operations")
            (not (is_empty cfg.operations.token)) cfg.operations.token cfg.operations.token_file)
          _ h2 in
      let (url, e4, h4) =
        >>=-ok
          (resolve_secret platform.files base_dir (codes "rate_limit.redis")
            (not (is_empty cfg.rate_limit.redis.url)) cfg.rate_limit.redis.url
            cfg.rate_limit.redis.url_file)
          _ h3 in
      subst (λ c. All NoSlash c.providers) (ok_injective {E = SecretError} h4)
        (resolved-NoSlash platform.files base_dir cfg.providers providers slashes e1)

  apply_defaults-NoSlash : (cfg : Config T) → All NoSlash (apply_defaults cfg).providers
  unfolding apply_defaults sync_legacy_upstream
  apply_defaults-NoSlash cfg = defaults-NoSlash (with_providers cfg).providers

  pub load-NoSlash :
      (base_dir : Text) (decoded : Config T) (rt : Runtime T P)
      → load platform base_dir decoded ≡ ok rt
      → All NoSlash rt.config.providers
  unfolding sync_legacy_upstream
  load-NoSlash base_dir decoded rt h =
      let l = load-Loaded platform base_dir decoded rt h in
      subst (λ c. All NoSlash c.providers) (sym l.config_is)
        (secrets-NoSlash base_dir (apply_defaults decoded) l.resolved
          (apply_defaults-NoSlash decoded) l.secrets_read)
