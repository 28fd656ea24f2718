-- ===== src/Upstream/Secrecy.antt =====
-- internal/gateway/proxy.go and http_helpers.go: what a caller's headers can do to the upstream request.
use gem_gate.Prelude.{Bool, ◌||◌, List, Result, ok, err}
use gem_gate.Text.{Text, contains}
use gem_gate.Header.{Header}
use gem_gate.Forward.{
  upstream_credential_headers, forwarding_headers, tracing_headers, hop_by_hop_headers,
}
use gem_gate.Provider.{ApplyError}
use gem_gate.Upstream.{inject}

-- The names that a caller cannot set on the upstream request.
abbrev pub guarded : Text → Bool
guarded lk =
    contains hop_by_hop_headers lk
    || contains upstream_credential_headers lk
    || contains forwarding_headers lk
    || contains tracing_headers lk

-- The headers as they go, with a trace context.
abbrev pub traced_headers : List (Text × Text) → Result ApplyError Header → Result ApplyError Header
traced_headers trace (ok h) = ok (inject h trace)
traced_headers trace (err e) = err e
