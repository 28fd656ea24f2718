-- ===== src/Transport/Endings.antt =====
-- internal/gateway/provider_metrics_transport.go: what the end of an exchange records, and that it
-- is recorded once.
use gem_gate.Prelude.{
  ℕ, ◌+◌, ◌-◌, Bool, true, false, not, ◌&&◌, ◌||◌, ◌≡◌, refl, ◌∙◌, Option, none, some, List, [],
  ◌∷◌, ap, leb, if◌then◌else◌, arith,
}
use gem_gate.Text.{is_empty, trim_space}
use gem_gate.Text.Equality.{text_eq_refl}
use gem_gate.Circuit.{CircuitPermit}
use gem_gate.Circuit
use gem_gate.Metrics.{
  ProviderMetrics, new_provider_metrics, find_provider, provider_finish, finished, u64,
}
use gem_gate.Metrics.Trend.{find-update_provider}
use gem_gate.Transport.{
  ProviderTransport, Ending, request_failed, without_body, body_ended, end_exchange, BodyCall,
  finish_with, read_more, read_eof, read_error, close_ok, close_error, call_body, call_all,
}

-- An exchange fails for the provider with a transport error that the caller did not cause, or with
-- a 5xx status.
abbrev pub exchange_failed : Ending → Bool
exchange_failed (request_failed aborted) = not aborted
exchange_failed (without_body status) = leb 500 status
exchange_failed (body_ended status body_error aborted) =
    (body_error && not aborted) || leb 500 status

abbrev pub provider_of : ProviderTransport → ProviderMetrics
provider_of t = elim (find_provider t.metrics.providers t.provider) [
  | none ↦ new_provider_metrics
  | some p ↦ p
]

provider_of-finish :
    (t : ProviderTransport) (status duration : ℕ) (transport_error : Bool) (now : ℕ)
    → is_empty (trim_space t.provider) ≡ false
    → find_provider
        (provider_finish t.metrics t.provider status duration transport_error now).providers
        t.provider
      ≡ some (finished status duration transport_error now (provider_of t))
unfolding provider_finish
provider_of-finish t status duration transport_error now named =
    rw
      (
        named,
        find-update_provider t.metrics.providers t.provider t.provider
            (finished status duration transport_error now),
        text_eq_refl t.provider,
      )
      refl

finish_with_provider :
    (t : ProviderTransport) (permit : CircuitPermit) (status : ℕ) (transport_error failed : Bool)
    (duration now : ℕ)
    → is_empty (trim_space t.provider) ≡ false
    → provider_of (finish_with t permit status transport_error failed duration now)
      ≡ finished status duration transport_error now (provider_of t)
finish_with_provider t permit status transport_error failed duration now named =
    ap (λ o. elim o [ none ↦ new_provider_metrics | some p ↦ p ])
      (provider_of-finish t status duration transport_error now named)

-- The breaker and the metrics of a named provider agree on every ending of an exchange: the breaker
-- is told of a failure exactly if the ending is one, and the provider's streak of failures grows
-- then, modulo 2^64, and otherwise starts again.
pub end_exchange-agree :
    (t : ProviderTransport) (permit : CircuitPermit) (e : Ending) (duration now : ℕ)
    → is_empty (trim_space t.provider) ≡ false
    → let after = end_exchange t permit e duration now in
      (after.breaker ≡ Circuit.finish t.breaker permit (exchange_failed e) now)
      × ((provider_of after).consecutive_failures
          ≡ (if exchange_failed e then u64 ((provider_of t).consecutive_failures + 1) else 0))
      × ((provider_of after).in_flight ≡ (provider_of t).in_flight - 1)
unfolding end_exchange finished
end_exchange-agree t permit (request_failed aborted) duration now named =
    let e = finish_with_provider t permit 0 (not aborted) (not aborted) duration now named in
    (refl, ap (λ p. p.consecutive_failures) e ∙ ground arith, ap (λ p. p.in_flight) e)
end_exchange-agree t permit (without_body status) duration now named =
    let e = finish_with_provider t permit status false (leb 500 status) duration now named in
    (refl, ap (λ p. p.consecutive_failures) e, ap (λ p. p.in_flight) e)
end_exchange-agree t permit (body_ended status body_error aborted) duration now named =
    let transport_error = body_error && not aborted in
    let e =
      finish_with_provider t permit status transport_error (transport_error || leb 500 status)
        duration now named in
    (refl, ap (λ p. p.consecutive_failures) e, ap (λ p. p.in_flight) e)

module _ (permit : CircuitPermit) (status begun_at : ℕ) where
  done_stays :
      (t : ProviderTransport) (calls : List (BodyCall × Bool × ℕ))
      → call_all permit status begun_at (record { transport = t; done = true }) calls
        ≡ record { transport = t; done = true }
  unfolding call_all call_body
  done_stays t [] = refl
  done_stays t ((read_more, aborted, now) ∷ calls) = done_stays t calls
  done_stays t ((read_eof, aborted, now) ∷ calls) = done_stays t calls
  done_stays t ((read_error, aborted, now) ∷ calls) = done_stays t calls
  done_stays t ((close_ok, aborted, now) ∷ calls) = done_stays t calls
  done_stays t ((close_error, aborted, now) ∷ calls) = done_stays t calls

  -- The first call that meets the end of the body, an error or Close, and whether with an error.
  abbrev pub first_end : List (BodyCall × Bool × ℕ) → Option (Bool × Bool × ℕ)
  first_end [] = none
  first_end ((read_more, aborted, now) ∷ calls) = first_end calls
  first_end ((read_eof, aborted, now) ∷ calls) = some (false, aborted, now)
  first_end ((read_error, aborted, now) ∷ calls) = some (true, aborted, now)
  first_end ((close_ok, aborted, now) ∷ calls) = some (false, aborted, now)
  first_end ((close_error, aborted, now) ∷ calls) = some (true, aborted, now)

  -- However a response's body is read and closed, its exchange ends at the first call that meets
  -- the end of the body, an error or Close, with what that call met, and once: the later calls
  -- change nothing, and without such a call nothing is recorded.
  pub call_all_once :
      (t : ProviderTransport) (calls : List (BodyCall × Bool × ℕ))
      → (call_all permit status begun_at (record { transport = t; done = false }) calls).transport
        ≡ elim (first_end calls) [
          | none ↦ t
          | some (body_error, aborted, now) ↦
              end_exchange t permit (body_ended status body_error aborted) (now - begun_at) now
        ]
  unfolding call_all call_body
  call_all_once t [] = refl
  call_all_once t ((read_more, aborted, now) ∷ calls) = call_all_once t calls
  call_all_once t ((read_eof, aborted, now) ∷ calls) =
      ap (λ b. b.transport)
        (done_stays (end_exchange t permit (body_ended status false aborted) (now - begun_at) now)
          calls)
  call_all_once t ((read_error, aborted, now) ∷ calls) =
      ap (λ b. b.transport)
        (done_stays (end_exchange t permit (body_ended status true aborted) (now - begun_at) now)
          calls)
  call_all_once t ((close_ok, aborted, now) ∷ calls) =
      ap (λ b. b.transport)
        (done_stays (end_exchange t permit (body_ended status false aborted) (now - begun_at) now)
          calls)
  call_all_once t ((close_error, aborted, now) ∷ calls) =
      ap (λ b. b.transport)
        (done_stays (end_exchange t permit (body_ended status true aborted) (now - begun_at) now)
          calls)
