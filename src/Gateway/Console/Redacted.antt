-- ===== src/Gateway/Console/Redacted.antt =====
-- internal/gateway/gateway.go: what the terminal interface is told of the secrets.
use gem_gate.Prelude.{◌≡◌}
use gem_gate.Text.{Text}
use gem_gate.Report.{redact}
use gem_gate.Gateway.{Gateway}
use gem_gate.Gateway.Operations.Secrecy.{change_secrets}

module _ (f : Text → Text) (alike : (t : Text) → redact (f t) ≡ redact t) where
  abbrev pub change_gateway : {S T P : Type 0} → Gateway S T P → Gateway S T P
  change_gateway g = record g { runtime = change_secrets f g.runtime }
