-- ===== src/Gateway/World.antt =====
-- What the world does while a request is served, in place of net/http, the clock and crypto/rand.
use gem_gate.Prelude.{ℕ, Bool, Option, List}
use gem_gate.Text.{Text}
use gem_gate.Header.{Header}
use gem_gate.ClientIp.{NetIp}
use gem_gate.Config.Checks.{Url}
use gem_gate.Transport.{BodyCall}
use gem_gate.Gateway.Streams.{UpstreamRequest, Write, Reading}

-- What the provider's server answers: nothing, or a status, headers and a body.
pub data Answer : Type 0 where
  no_answer : Bool → Answer
  answer : ℕ → Header → Reading → Answer

pub record World (A P : Type 0) : Type 0 where
  pub net : NetIp A P
  pub itoa : ℕ → Text
  -- `http.NewRequestWithContext` takes the method and the URL.
  pub request_valid : Text → Url → Bool
  -- What the transport injects of the caller's trace, if it propagates it.
  pub trace_context : List (Text × Text)
  pub exchange : UpstreamRequest → Answer
  -- The end of the body: `Close` and the conditions at it.
  pub close : BodyCall × Bool × ℕ
  -- The write of the body of a refusal.
  pub refusal_write : Write
  pub started_at : ℕ
  pub answered_at : ℕ
  pub finished_at : ℕ
  -- The bytes of `rand.Read`.
  pub random : Option (List ℕ)
  -- Whether the client's context is done after the copy, and after `proxy`.
  pub gone : Bool
  pub gone_later : Bool
