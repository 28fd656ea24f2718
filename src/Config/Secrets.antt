-- ===== src/Config/Secrets.antt =====
-- internal/config/config.go: `resolveSecretFiles` and `readSecretFile`. The file system and the paths
-- of package filepath are parameters.
use gem_gate.Prelude.{
  Bool, not, ◌&&◌, Option, none, some, List, [], ◌∷◌, if◌then◌else◌, Result, ok, err, ◌>>=◌,
}
use gem_gate.Text.{Text, codes, is_empty, trim_space}
use gem_gate.Config.{Config, ProviderConfig, ClientConfig}

pub record Files : Type 0 where
  pub read_file : Text → Option Text
  pub is_abs : Text → Bool
  pub join_path : Text → Text → Text

pub data SecretError : Type 0 where
  both_given : Text → SecretError
  unreadable : Text → SecretError
  empty_secret : Text → SecretError

module _ (files : Files) (base_dir : Text) where
  unfoldable pub read_secret_file : Text → Result SecretError Text
  read_secret_file name =
      let path = if files.is_abs name then name else files.join_path base_dir name in
      elim (files.read_file path) [
        | none ↦ err (unreadable name)
        | some content ↦
            let secret = trim_space content in
            if is_empty secret then err (empty_secret name) else ok secret
      ]

  -- A secret with its file: both may not be given, and the file's content is the secret. `given` is
  -- whether the code takes the secret as given, and `who` names the owner in the error.
  unfoldable pub resolve_secret : Text → Bool → Text → Text → Result SecretError Text
  unfolding read_secret_file
  resolve_secret who given secret file =
      if given && not (is_empty file)
      then err (both_given who)
      else if is_empty file
      then ok secret
      else read_secret_file file

  unfoldable pub resolve_providers : List ProviderConfig → Result SecretError (List ProviderConfig)
  unfolding resolve_secret
  resolve_providers [] = ok []
  resolve_providers (p ∷ ps) =
      resolve_secret p.name (not (is_empty (trim_space p.api_key))) p.api_key p.api_key_file
      >>= λ key. resolve_providers ps >>= λ rest. ok (record p { api_key = key } ∷ rest)

  unfoldable pub resolve_clients : List ClientConfig → Result SecretError (List ClientConfig)
  unfolding resolve_secret
  resolve_clients [] = ok []
  resolve_clients (c ∷ cs) =
      resolve_secret c.name (not (is_empty (trim_space c.token))) c.token c.token_file >>= λ token.
      resolve_clients cs >>= λ rest. ok (record c { token = token } ∷ rest)

  unfoldable pub resolve_secret_files : {T : Type 0} → Config T → Result SecretError (Config T)
  unfolding resolve_providers resolve_clients resolve_secret
  resolve_secret_files cfg = do
    providers ← resolve_providers cfg.providers
    clients ← resolve_clients cfg.clients
    token ←
        resolve_secret (codes "operations") (not (is_empty cfg.operations.token))
          cfg.operations.token cfg.operations.token_file
    url ←
        resolve_secret (codes "rate_limit.redis") (not (is_empty cfg.rate_limit.redis.url))
          cfg.rate_limit.redis.url cfg.rate_limit.redis.url_file
    ok (record cfg {
      providers = providers;
      clients = clients;
      operations = record cfg.operations { token = token };
      rate_limit = record cfg.rate_limit { redis = record cfg.rate_limit.redis { url = url } };
    })
