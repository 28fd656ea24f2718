-- ===== src/Launch.antt =====
-- cmd/gemgate/main.go: the start and the end of the program, `run` with `shutdown`, and
-- `Gateway.Shutdown` of internal/gateway/gateway.go. What the flags, the setup, the packages and the
-- operating system answer is given; what `run` does with them is the list of its effects. The
-- `watchConfig` of a running gateway is the child module `Watch`.
pub mod Released
mod Tests
pub mod Watch
use gem_gate.Prelude.{
  Bool, true, false, ℤ, Option, none, some, List, [], ◌∷◌, ◌++◌, if◌then◌else◌, Result, ok, err,
  is_positive, is_negative,
}
use gem_gate.Text.{Text, text_eq, is_empty, trim_space}

pub record Flags : Type 0 where
  pub config : Text
  pub reload_interval : ℤ
  pub operations_listen : Text

-- How the serving program is ended: by the terminal interface or a signal, or by a server.
pub data Ending (E : Type 0) : Type 0 where
  stopped : Ending E
  server_ended : Option E → Ending E

-- What is answered, in the order of the calls.
pub record Outside (E : Type 0) : Type 0 where
  pub flags : Result E Flags
  pub config_missing : Bool
  pub setup_error : Option E
  pub load_error : Option E
  pub telemetry_error : Option E
  pub gateway_error : Option E
  pub application_error : Option E
  pub server_listen : Text
  pub operations_error : Option E
  pub interface_error : Option E
  pub ending : Ending E
  pub operations_shutdown : Option E
  pub server_shutdown : Option E
  pub limits_close : Option E

pub data Effect : Type 0 where
  telemetry_started telemetry_shut gateway_made : Effect
  application_bound application_closed operations_bound operations_isolated : Effect
  application_serving operations_serving watching watch_cancelled : Effect
  operations_shut shutdown_logged server_shut limits_closed : Effect

pub data LaunchError (E : Type 0) : Type 0 where
  failed : E → LaunchError E
  negative_interval same_address : LaunchError E

abbrev pub Outcome : Type 0 → Type 0
Outcome E = List Effect × Option (LaunchError E)

-- `Gateway.Shutdown`: both parts are shut whatever the first one answers.
abbrev pub gateway_shutdown : List Effect
gateway_shutdown = shutdown_logged ∷ server_shut ∷ limits_closed ∷ []

-- Both listeners are there.
unfoldable pub serving_effects : Flags → Bool → List Effect
serving_effects f operations =
    application_serving
    ∷ ((if operations then operations_serving ∷ [] else [])
        ++ (if is_positive f.reload_interval then watching ∷ [] else []))

module _ {E : Type 0} where
  abbrev pub failure : Option E → Option (LaunchError E)
  failure none = none
  failure (some e) = some (failed e)

  -- The first error, if any.
  abbrev pub first_error : Option E → Option E → Option E
  first_error none later = later
  first_error (some e) later = some e

  abbrev pub gateway_shutdown_error : Outside E → Option E
  gateway_shutdown_error o = first_error o.server_shutdown o.limits_close

  -- `shutdown`, with the operations server if there is one.
  unfoldable pub shutdown : Outside E → Bool → List Effect × Option E
  shutdown o operations = (
    if operations then operations_shut ∷ gateway_shutdown else gateway_shutdown,
    first_error (gateway_shutdown_error o) (if operations then o.operations_shutdown else none),
  )

  -- What is returned at the end of serving; a server's error is returned whatever `shutdown` answers.
  unfoldable pub served : Bool → Outside E → Bool → Outcome E
  unfolding shutdown
  served with_tui o operations =
      let (effects, e) = shutdown o operations in
      let ended = watch_cancelled ∷ effects in
      if with_tui
      then (ended, elim o.interface_error [ some f ↦ some (failed f) | none ↦ failure e ])
      else elim o.ending [ stopped ↦ (ended, failure e) | server_ended f ↦ (ended, failure f) ]

  abbrev pub after : List Effect → Outcome E → Outcome E
  after effects (more, e) = (effects ++ more, e)

  unfoldable pub serve : Bool → Flags → Outside E → Bool → Outcome E
  unfolding serving_effects served
  serve with_tui f o operations =
      after (serving_effects f operations) (served with_tui o operations)

  -- From the application's listener on.
  unfoldable pub bind_operations : Bool → Flags → Outside E → Outcome E
  unfolding serve
  bind_operations with_tui f o =
      let addr = trim_space f.operations_listen in
      if is_empty addr
      then serve with_tui f o false
      else if text_eq addr (trim_space o.server_listen)
      then (application_closed ∷ gateway_shutdown, some same_address)
      else elim o.operations_error [
        | some e ↦ (application_closed ∷ gateway_shutdown, some (failed e))
        | none ↦ after (operations_bound ∷ operations_isolated ∷ []) (serve with_tui f o true)
      ]

  unfoldable pub bind_application : Bool → Flags → Outside E → Outcome E
  unfolding bind_operations
  bind_application with_tui f o = elim o.application_error [
    | some e ↦ (gateway_shutdown, some (failed e))
    | none ↦ after (application_bound ∷ []) (bind_operations with_tui f o)
  ]

  unfoldable pub make_gateway : Bool → Flags → Outside E → Outcome E
  unfolding bind_application
  make_gateway with_tui f o = elim o.gateway_error [
    | some e ↦ ([], some (failed e))
    | none ↦ after (gateway_made ∷ []) (bind_application with_tui f o)
  ]

  -- The shutdown of the telemetry is deferred; its error is logged only.
  unfoldable pub start_telemetry : Bool → Flags → Outside E → Outcome E
  unfolding make_gateway
  start_telemetry with_tui f o = elim o.telemetry_error [
    | some e ↦ ([], some (failed e))
    | none ↦
        let (effects, e) = make_gateway with_tui f o in
        (telemetry_started ∷ (effects ++ telemetry_shut ∷ []), e)
  ]

  unfoldable pub run_with : Bool → Flags → Outside E → Outcome E
  unfolding start_telemetry
  run_with with_tui f o =
      if is_negative f.reload_interval
      then ([], some negative_interval)
      else elim (if o.config_missing then o.setup_error else none) [
        | some e ↦ ([], some (failed e))
        | none ↦ elim o.load_error [
          | some e ↦ ([], some (failed e))
          | none ↦ start_telemetry with_tui f o
        ]
      ]

  unfoldable pub run : Bool → Outside E → Outcome E
  unfolding run_with
  run with_tui o = elim o.flags [ err e ↦ ([], some (failed e)) | ok f ↦ run_with with_tui f o ]
