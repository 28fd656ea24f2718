-- ===== src/Metrics/Trend.antt =====
-- internal/gateway/metrics.go: the metrics of one provider over its requests.
use native.Mathlib.Nat.{zero-add}
use gem_gate.Prelude.{
  ap, ◌==◌, ℕ, ◌+◌, ◌^◌, ◌<◌, Bool, ◌||◌, ◌≡◌, ◌∙◌, inl, inr, List, [], ◌∷◌, none, some,
  if◌then◌else◌, length, Bool-cases, arith, leb, ltb,
}
use gem_gate.Text.{Text, text_eq}
use gem_gate.Text.Equality.{text_eq_iff}
use gem_gate.Metrics.{
  ProviderMetrics, unknown, degraded, warning, healthy, new_provider_metrics, find_provider,
  update_provider, finished, provider_health, is_5xx,
}

-- A change of one provider's entry is seen under its name only.
pub find-update_provider :
    (ps : List (Text × ProviderMetrics)) (name j : Text) (f : ProviderMetrics → ProviderMetrics)
    → find_provider (update_provider ps name f) j ≡ (
        if text_eq name j
        then some (f (elim (find_provider ps name) [ none ↦ new_provider_metrics | some p ↦ p ]))
        else find_provider ps j)
unfolding find_provider update_provider
find-update_provider [] name j f = ground arith
find-update_provider ((k, p) ∷ ps) name j f = ground (
  arith,
  text_eq_iff k name,
  text_eq_iff name j,
  text_eq_iff k j,
  find-update_provider ps name j f,
)

-- The end of an exchange: its status, duration, whether the transport failed, and when it ended.
pub record Completion : Type 0 where
  pub status : ℕ
  pub duration : ℕ
  pub transport_error : Bool
  pub now : ℕ

abbrev pub failed : Completion → Bool
failed c = c.transport_error || is_5xx c.status

pub finish_all : ProviderMetrics → List Completion → ProviderMetrics
finish_all p [] = p
finish_all p (c ∷ cs) = finish_all (finished c.status c.duration c.transport_error c.now p) cs

-- How many failures end a sequence that has `streak` failures before it.
abbrev pub trailing_failures : ℕ → List Completion → ℕ
trailing_failures streak [] = streak
trailing_failures streak (c ∷ cs) = trailing_failures (if failed c then streak + 1 else 0) cs

finished_fields :
    (p : ProviderMetrics) (c : Completion)
    → p.consecutive_failures + 1 < 2 ^ 64
    → p.requests + 1 < 2 ^ 64
    → let q = finished c.status c.duration c.transport_error c.now p in
      (q.consecutive_failures ≡ (if failed c then p.consecutive_failures + 1 else 0))
      × (q.requests ≡ p.requests + 1)
unfolding finished
finished_fields p c h k = elim (Bool-cases (failed c)) [
  | inl e ↦ rw e (omega arith)
  | inr e ↦ rw e (omega arith)
]

pub finish_all-fields :
    (p : ProviderMetrics) (cs : List Completion)
    → p.consecutive_failures + length cs < 2 ^ 64
    → p.requests + length cs < 2 ^ 64
    → ((finish_all p cs).consecutive_failures ≡ trailing_failures p.consecutive_failures cs)
      × ((finish_all p cs).requests ≡ p.requests + length cs)
unfolding finish_all
finish_all-fields p [] h k = omega arith
finish_all-fields p (c ∷ cs) h k =
    let (streak, count) = finished_fields p c (omega arith) (omega arith) in
    let ih =
      finish_all-fields (finished c.status c.duration c.transport_error c.now p) cs
        (ground (arith, streak)) (omega arith) in
    (ih.0 ∙ ap (λ s. trailing_failures s cs) streak, omega (arith, ih.1))

-- The health of a new provider after fewer than 2^64 completed requests: unknown with none, and
-- otherwise by how many failures end the sequence, none, one or two, or at least three. A failure
-- is a transport error or a 5xx status.
pub health_trend :
    (cs : List Completion)
    → length cs < 2 ^ 64
    → provider_health (finish_all new_provider_metrics cs) ≡ (
        if length cs == 0
        then unknown
        else if leb 3 (trailing_failures 0 cs)
        then degraded
        else if ltb 0 (trailing_failures 0 cs)
        then warning
        else healthy)
unfolding provider_health
health_trend cs h =
    let (streak, count) = finish_all-fields new_provider_metrics cs (omega arith) (omega arith) in
    rw (streak, count, zero-add)
