-- ===== src/Gateway/Fixtures.antt =====
-- A gateway with one provider and one client, for the tests.
use gem_gate.Prelude.{true, false, none, some, pos, [], ◌∷◌, if◌then◌else◌}
use gem_gate.Text.{Text, codes, is_empty, has_prefix}
use gem_gate.Circuit.{default_circuit_policy, new_circuit_breaker_with_policy}
use gem_gate.ClientIp.{NetIp}
use gem_gate.Config.{Runtime}
use gem_gate.Config.Tests.{decoded}
use gem_gate.LogRing.{new_log_ring}
use gem_gate.Provider.{auth_none}
use gem_gate.Metrics.{new_metrics}
use gem_gate.RateLimit.{Windows}
use gem_gate.Gateway.{Gateway, ProviderRuntime}
use gem_gate.Gateway.World.{World, answer}
use gem_gate.Gateway.Streams.{Write, IncomingRequest, end_of_file, more}
use gem_gate.Gateway.Replies.{Texts}
use gem_gate.Transport.{close_ok}

abbrev pub provider : ProviderRuntime
provider = record {
  identity = record {
    name = codes "ai";
    spec = record {
      type = codes "local";
      display_name = codes "Local";
      default_base_url = [];
      auth = auth_none;
      requires_api_key = false;
      open_ai_compatible = true;
      default_headers = [];
    };
    api_key = [];
    headers = [];
  };
  base_url = record {
    scheme = codes "https";
    host = codes "ai.test";
    has_user = false;
    path = [];
    raw_query = [];
    fragment = [];
  };
  timeout = pos 0;
}

-- The configuration, whose provider and circuit settings are the defaults.
abbrev pub settings : Runtime Unit Text
settings = record {
  config = record decoded { default_provider = codes "ai" };
  read_timeout = pos 1;
  write_timeout = pos 1;
  idle_timeout = pos 1;
  upstream_timeout = pos 0;
  provider_timeouts = [];
  provider_circuits = [];
  trusted_proxies = [];
  request_body_limit = pos 8;
  cors_max_age = pos 0;
  rate_limit_timeout = pos 1;
}

abbrev pub gateway : Gateway Windows Unit Text
gateway = record {
  runtime = record {
    cfg = settings;
    providers = (codes "ai", provider) ∷ [];
    default_provider = provider;
    access = record {
      tokens = (codes "app", record { name = codes "local"; rate_limit_rpm = pos 2 }) ∷ [];
      operations_token = codes "ops";
    };
    cors = record {
      enabled = false;
      wildcard_origin = false;
      allowed_origins = [];
      allowed_methods = [];
      allowed_headers = [];
      methods_header = [];
      headers_header = [];
      allow_credentials = false;
      max_age_seconds = 0;
    };
  };
  breakers = (codes "ai", new_circuit_breaker_with_policy default_circuit_policy) ∷ [];
  rate_limits = record { backend_state = []; fail_open = false };
  metrics = new_metrics;
  logs = new_log_ring (pos 4);
}

abbrev pub a_write : Write
a_write = record { size = 3; wrote = 3; failed = none; aborted = false; at = 20 }

abbrev pub net : NetIp Text Text
net = record {
  parse_addr = λ s. if is_empty s then none else some s;
  unmap = λ a. a;
  addr_string = λ a. a;
  prefix_contains = λ p a. has_prefix a p;
  split_host = λ s. none;
}

abbrev pub world : World Text Text
world = record {
  net = net;
  itoa = λ n. n ∷ [];
  request_valid = λ m u. true;
  trace_context = (codes "Traceparent", codes "00-1-2-01") ∷ [];
  exchange = λ u. answer 200 [] (more a_write (end_of_file a_write));
  close = (close_ok, false, 30);
  refusal_write = a_write;
  started_at = 10;
  answered_at = 20;
  finished_at = 30;
  random = some (1 ∷ []);
  gone = false;
  gone_later = false;
}

abbrev pub texts : Texts ⊥ Unit Unit
texts = record {
  error_headers = λ h. h;
  not_found_message = codes "404 page not found";
  limit_error = λ e. [];
  proxy_error = λ e. [];
  master_name = λ u. none;
  telemetry_told = λ t. t;
}

abbrev pub request : IncomingRequest
request = record {
  method = codes "POST";
  path = codes "/v1";
  raw_query = [];
  request_uri = codes "/v1";
  remote_addr = codes "1.1.1.1";
  headers = (codes "Authorization", codes "Bearer app" ∷ []) ∷ [];
  body = none;
  content_length = pos 0;
}
