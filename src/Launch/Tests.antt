-- ===== src/Launch/Tests.antt =====
-- The theorems about the program's start, its end and its watch at concrete inputs.
use gem_gate.Prelude.{◌≡◌, refl, true, false, none, some, pos, List, [], ◌∷◌, ok, err, value_of}
use gem_gate.Text.{Text, codes, text_eq}
use gem_gate.Config.Load.{load}
use gem_gate.Config.Load.Loaded.{load-Loaded}
use gem_gate.Config.Tests.{decoded, platform, runtime, loads}
use gem_gate.RateLimit.{Windows, memory_backend}
use gem_gate.Gateway.{Gateway}
use gem_gate.Gateway.Reload.{DeepEqual}
use gem_gate.Gateway.Fixtures.{gateway}
use gem_gate.Launch.{Outside, stopped, run}
use gem_gate.Launch.Released.{released, in_order, nothing_before, run-released}
use gem_gate.Launch.Watch.{Tick, watch_config}
use gem_gate.Launch.Watch.Running.{RunsAccepted, watch_config-RunsAccepted}

-- The address of the operations listener is taken.
abbrev outside : Outside Text
outside = record {
  flags = ok (record {
    config = codes "gemgate.yaml";
    reload_interval = pos 1;
    operations_listen = codes ":9";
  });
  config_missing = false;
  setup_error = none;
  load_error = none;
  telemetry_error = none;
  gateway_error = none;
  application_error = none;
  server_listen = codes ":8";
  operations_error = some (codes "address in use");
  interface_error = none;
  ending = stopped;
  operations_shutdown = none;
  server_shutdown = none;
  limits_close = none;
}

run-released_example :
    (released (run false outside).0 ≡ true) × (in_order nothing_before (run false outside).0 ≡ true)
run-released_example = run-released false outside

abbrev same : DeepEqual Unit
same = record {
  same_config = λ a b. text_eq a.server.request_body_limit b.server.request_body_limit;
  same_rate_limit = λ a b. text_eq a.backend b.backend;
  same_telemetry = λ a b. true;
}

-- The gateway runs what was read from the file.
abbrev loaded : Gateway Windows Unit Text
loaded = record gateway { runtime = record gateway.runtime { cfg = runtime } }

-- The file cannot be read, then it is as before, then its address is another.
abbrev ticks : List (Tick Unit)
ticks =
    record { file = err (codes "no such file"); now = 5 }
    ∷ record { file = ok decoded; now = 6 }
    ∷ record {
      file = ok (record decoded { server = record decoded.server { listen = codes ":9" } });
      now = 7;
    }
    ∷ []

watch_config-RunsAccepted_example :
    RunsAccepted platform []
      (λ e. [])
      same
      memory_backend
      (λ t. t)
      (λ e. [])
      (λ n m. [])
      runtime.config.server.listen
      (watch_config platform []
        (λ e. [])
        same
        memory_backend
        (λ t. t)
        (λ e. [])
        (λ n m. [])
        loaded
        ticks)
watch_config-RunsAccepted_example =
    watch_config-RunsAccepted platform [] (λ e. []) same memory_backend (λ t. t) (λ e. [])
      (λ n m. []) runtime.config.server.listen loaded ticks
      (record {
        accepted =
            (load-Loaded platform [] decoded runtime
              (value_of (load platform [] decoded) loads).1).accepted;
        at_address = refl;
      })
