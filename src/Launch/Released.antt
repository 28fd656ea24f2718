-- ===== src/Launch/Released.antt =====
-- cmd/gemgate/main.go: what every run of the program releases, and in which order it serves.
use gem_gate.Prelude.{ℕ, Bool, true, false, not, ◌&&◌, ◌||◌, ◌≡◌, none, List, [], ◌∷◌, arith, ◌==◌}
use gem_gate.Launch.{
  Outside, Effect, telemetry_started, telemetry_shut, gateway_made, application_bound,
  application_closed, operations_bound, operations_isolated, application_serving,
  operations_serving, watching, watch_cancelled, operations_shut, shutdown_logged, server_shut,
  limits_closed, run,
}

abbrev pub tag : Effect → ℕ
tag telemetry_started = 0
tag telemetry_shut = 1
tag gateway_made = 2
tag application_bound = 3
tag application_closed = 4
tag operations_bound = 5
tag operations_isolated = 6
tag application_serving = 7
tag operations_serving = 8
tag watching = 9
tag watch_cancelled = 10
tag operations_shut = 11
tag server_shut = 12
tag limits_closed = 13
tag shutdown_logged = 14

abbrev pub done : Effect → List Effect → Bool
done e [] = false
done e (f ∷ es) = tag f == tag e || done e es

abbrev pub implies : Bool → Bool → Bool
implies a b = not a || b

-- What is started is ended: the telemetry, the gateway and its rate limits, the watch of the
-- configuration, and both listeners, which a server that serves them closes.
abbrev pub released : List Effect → Bool
released es =
    implies (done telemetry_started es) (done telemetry_shut es)
    && implies (done gateway_made es) (done server_shut es && done limits_closed es)
    && implies (done application_bound es)
        (done application_closed es || (done application_serving es && done server_shut es))
    && implies (done operations_bound es) (done operations_serving es && done operations_shut es)
    && implies (done watching es) (done watch_cancelled es)

-- What has been done before an effect.
pub record Before : Type 0 where
  pub application : Bool
  pub operations : Bool
  pub isolated : Bool
  pub serving : Bool

abbrev pub nothing_before : Before
nothing_before = record {
  application = false;
  operations = false;
  isolated = false;
  serving = false;
}

-- A listener serves after it is bound, and none is bound after one serves; the operations listener
-- is bound and serves only where the operations paths are taken off the application's, which is done
-- before anything serves.
abbrev pub in_order : Before → List Effect → Bool
in_order b [] = true
in_order b (application_bound ∷ es) = not b.serving && in_order (record b { application = true }) es
in_order b (operations_bound ∷ es) = not b.serving && in_order (record b { operations = true }) es
in_order b (operations_isolated ∷ es) = not b.serving && in_order (record b { isolated = true }) es
in_order b (application_serving ∷ es) =
    (b.application && implies b.operations b.isolated) && in_order (record b { serving = true }) es
in_order b (operations_serving ∷ es) =
    (b.operations && b.isolated) && in_order (record b { serving = true }) es
in_order b (e ∷ es) = in_order b es

-- Whatever the outside answers, at whichever step the program fails or is ended: all that it started
-- is released, no listener serves before it is bound, and none is bound or taken off the application
-- after one serves; the operations listener serves only where its paths are off the application's.
pub run-released :
    {E : Type 0} (with_tui : Bool) (o : Outside E)
    → (released (run with_tui o).0 ≡ true) × (in_order nothing_before (run with_tui o).0 ≡ true)
unfolding run
run-released with_tui o = (ground arith, ground arith)

-- The program ends without an error only if the application was served.
pub run_served :
    {E : Type 0} (with_tui : Bool) (o : Outside E)
    → (run with_tui o).1 ≡ none
    → done application_serving (run with_tui o).0 ≡ true
unfolding run
run_served with_tui o h = ground arith
