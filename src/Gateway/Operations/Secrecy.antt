-- ===== src/Gateway/Operations/Secrecy.antt =====
-- internal/gateway/proxy.go: what the configuration page tells of the secrets.
use gem_gate.Prelude.{map}
use gem_gate.Text.{Text}
use gem_gate.Config.{ProviderConfig, ClientConfig}
use gem_gate.Access.{ClientAuth}
use gem_gate.Gateway.{RuntimeSnapshot, ProviderRuntime}

module _ (f : Text → Text) where
  abbrev pub change_client : ClientConfig → ClientConfig
  change_client c = record c { token = f c.token }

  abbrev pub change_provider : ProviderConfig → ProviderConfig
  change_provider p = record p { api_key = f p.api_key }

  abbrev pub change_token : Text × ClientAuth → Text × ClientAuth
  change_token (t, info) = (f t, info)

  abbrev pub change_identity : ProviderRuntime → ProviderRuntime
  change_identity p = record p { identity = record p.identity { api_key = f p.identity.api_key } }

  abbrev pub change_built : Text × ProviderRuntime → Text × ProviderRuntime
  change_built (name, p) = (name, change_identity p)

  -- A snapshot in which every token and every key is another one: in the configuration those of the
  -- clients, of the providers, of the upstream and of the operations, and those that are built of them.
  abbrev pub change_secrets : {T P : Type 0} → RuntimeSnapshot T P → RuntimeSnapshot T P
  change_secrets s = record s {
    cfg = record s.cfg {
      config = record s.cfg.config {
        clients = map change_client s.cfg.config.clients;
        providers = map change_provider s.cfg.config.providers;
        upstream = record s.cfg.config.upstream { api_key = f s.cfg.config.upstream.api_key };
        operations = record s.cfg.config.operations { token = f s.cfg.config.operations.token };
      };
    };
    providers = map change_built s.providers;
    default_provider = change_identity s.default_provider;
    access = record {
      tokens = map change_token s.access.tokens;
      operations_token = f s.access.operations_token;
    };
  }
