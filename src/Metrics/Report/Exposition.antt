-- ===== src/Metrics/Report/Exposition.antt =====
-- The text of `Prometheus` against the exposition format.
use gem_gate.Prelude.{
  ℕ, Bool, true, ◌&&◌, ◌≡◌, refl, ap, ◌∙◌, Option, none, some, All, List, [], ◌∷◌, ◌++◌, append-nil,
  append_assoc, arith,
}
use gem_gate.Text.{Text, codes}
use gem_gate.Circuit.{CircuitSnapshot}
use gem_gate.Metrics.{ProviderMetrics}
use gem_gate.Metrics.Report.{ProviderMetricsSnapshot, MetricsSnapshot}
use gem_gate.Metrics.Report.Series.{Total, totals_of, Series, provider_series, circuit_series}
use gem_gate.Metrics.Report.Prometheus.{
  Format, SampleLine, sample_line, prometheus_label, series_text, totals_text, line_text,
  lines_text, provider_lines, circuit_lines, providers_text, circuits_text, providers_block,
  circuits_block, prometheus,
}
use gem_gate.Metrics.Report.Reader.{Sample, fresh, run, ended, read}
use gem_gate.Metrics.Report.Lines.{
  one_line, plain, plain_name, sampled, run-described, run-plain_line, run-provider_line,
  run-class_line,
}

abbrev sample : Text → List (Text × Text) → Text → Sample
sample metric labels value = record { metric = metric; labels = labels; value = value }

-- fmt writes no line feed for a number.
pub record OneLine (f : Format) : Type 0 where
  pub decimal_line : (n : ℕ) → one_line (f.decimal n) ≡ true
  pub seconds_line : (places n : ℕ) → one_line (f.seconds places n) ≡ true

abbrev labels_of : Text → Option (Text × Text) → List (Text × Text)
labels_of name none = (codes "provider", name) ∷ []
labels_of name (some class) = (codes "provider", name) ∷ class ∷ []

abbrev pub line_samples : Text → List SampleLine → List Sample
line_samples name [] = []
line_samples name (l ∷ ls) = sample l.metric (labels_of name l.class) l.value ∷ line_samples name ls

abbrev sound : Total → Bool
sound t = one_line t.metric && one_line t.help && one_line t.kind && plain_name t.metric

abbrev all_sound : List Total → Bool
all_sound [] = true
all_sound (t ∷ ts) = sound t && all_sound ts

abbrev sound_series : List Series → Bool
sound_series [] = true
sound_series (s ∷ ss) = (one_line s.metric && one_line s.help && one_line s.kind) && sound_series ss

abbrev sound_class : Option (Text × Text) → Bool
sound_class none = true
sound_class (some (key, class)) = plain key

abbrev LineOk : SampleLine → Type 0
LineOk l = (plain_name l.metric ≡ true) × (sound_class l.class ≡ true) × (one_line l.value ≡ true)

run-class :
    (out : List Sample) (name metric value rest : Text) (class : Option (Text × Text))
    → plain_name metric ≡ true
    → sound_class class ≡ true
    → one_line value ≡ true
    → run (fresh out) (line_text (prometheus_label name) (sample_line metric class value) rest)
      ≡ run (fresh (sampled out metric (labels_of name class) value)) rest
unfolding line_text
run-class out name metric value rest none n k v = run-provider_line out metric name value rest n v
run-class out name metric value rest (some (key, class)) n k v =
    run-class_line out metric name key class value rest n k v

run-lines_text :
    (out : List Sample) (name : Text) (ls : List SampleLine) (rest : Text)
    → All LineOk ls
    → run (fresh out) (lines_text (prometheus_label name) ls rest)
      ≡ run (fresh (out ++ line_samples name ls)) rest
unfolding lines_text
run-lines_text out name [] rest h = rw append-nil
run-lines_text out name (l ∷ ls) rest h =
    run-class out name l.metric l.value (lines_text (prometheus_label name) ls rest) l.class h.0.0
      h.0.1 h.0.2
    ∙ run-lines_text (sampled out l.metric (labels_of name l.class) l.value) name ls rest h.1
    ∙ rw append_assoc

module _ (f : Format) where
  abbrev pub total_samples : List Total → List Sample
  total_samples [] = []
  total_samples (t ∷ ts) = sample t.metric [] (f.decimal t.value) ∷ total_samples ts

  abbrev pub provider_samples : List ProviderMetricsSnapshot → List Sample
  provider_samples [] = []
  provider_samples (p ∷ ps) =
      line_samples p.name (provider_lines f p.counted) ++ provider_samples ps

  abbrev pub circuit_samples : List (Text × CircuitSnapshot) → List Sample
  circuit_samples [] = []
  circuit_samples ((name, c) ∷ cs) = line_samples name (circuit_lines f c) ++ circuit_samples cs

  -- What the gateway has to tell, in the order of the text.
  abbrev pub samples : MetricsSnapshot → List Sample
  samples s =
      total_samples (totals_of s.totals)
      ++ (provider_samples s.providers ++ circuit_samples s.circuits)

  module _ (o : OneLine f) where
    run-totals_text :
        (out : List Sample) (ts : List Total) (rest : Text)
        → all_sound ts ≡ true
        → run (fresh out) (totals_text f ts rest) ≡ run (fresh (out ++ total_samples ts)) rest
    unfolding totals_text
    run-totals_text out [] rest h = rw append-nil
    run-totals_text out (t ∷ ts) rest h =
        run-described out t.metric t.help t.kind _ (ground arith) (ground arith) (ground arith)
        ∙ run-plain_line out t.metric (f.decimal t.value) (totals_text f ts rest) (ground arith)
            (o.decimal_line t.value)
        ∙ run-totals_text (sampled out t.metric [] (f.decimal t.value)) ts rest (ground arith)
        ∙ rw append_assoc

    sound_provider : (m : ProviderMetrics) → All LineOk (provider_lines f m)
    unfolding one_line plain
    sound_provider m = grind (arith, o.decimal_line, o.seconds_line)

    run-providers_text :
        (out : List Sample) (ps : List ProviderMetricsSnapshot) (rest : Text)
        → run (fresh out) (providers_text f ps rest) ≡ run (fresh (out ++ provider_samples ps)) rest
    unfolding providers_text
    run-providers_text out [] rest = rw append-nil
    run-providers_text out (p ∷ ps) rest =
        run-lines_text out p.name (provider_lines f p.counted) (providers_text f ps rest)
          (sound_provider p.counted)
        ∙ run-providers_text (out ++ line_samples p.name (provider_lines f p.counted)) ps rest
        ∙ rw append_assoc

    sound_circuit : (c : CircuitSnapshot) → All LineOk (circuit_lines f c)
    unfolding one_line plain
    sound_circuit c = grind (arith, o.decimal_line, o.seconds_line)

    run-circuits_text :
        (out : List Sample) (cs : List (Text × CircuitSnapshot)) (rest : Text)
        → run (fresh out) (circuits_text f cs rest) ≡ run (fresh (out ++ circuit_samples cs)) rest
    unfolding circuits_text
    run-circuits_text out [] rest = rw append-nil
    run-circuits_text out ((name, c) ∷ cs) rest =
        run-lines_text out name (circuit_lines f c) (circuits_text f cs rest) (sound_circuit c)
        ∙ run-circuits_text (out ++ line_samples name (circuit_lines f c)) cs rest
        ∙ rw append_assoc

    run-series_text :
        (out : List Sample) (ss : List Series) (rest : Text)
        → sound_series ss ≡ true
        → run (fresh out) (series_text ss rest) ≡ run (fresh out) rest
    unfolding series_text
    run-series_text out [] rest h = refl
    run-series_text out (s ∷ ss) rest h =
        run-described out s.metric s.help s.kind (series_text ss rest) (ground arith) (ground arith)
          (ground arith)
        ∙ run-series_text out ss rest (ground arith)

    run-providers_block :
        (out : List Sample) (ps : List ProviderMetricsSnapshot) (rest : Text)
        → run (fresh out) (providers_block f ps rest)
          ≡ run (fresh (out ++ provider_samples ps)) rest
    unfolding providers_block one_line
    run-providers_block out [] rest = rw append-nil
    run-providers_block out (p ∷ ps) rest =
        run-series_text out provider_series (providers_text f (p ∷ ps) rest) refl
        ∙ run-providers_text out (p ∷ ps) rest

    run-circuits_block :
        (out : List Sample) (cs : List (Text × CircuitSnapshot))
        → run (fresh out) (circuits_block f cs) ≡ fresh (out ++ circuit_samples cs)
    unfolding circuits_block one_line run
    run-circuits_block out [] = rw append-nil
    run-circuits_block out (c ∷ cs) =
        run-series_text out circuit_series (circuits_text f (c ∷ cs) []) refl
        ∙ run-circuits_text out (c ∷ cs) []

    run-prometheus : (s : MetricsSnapshot) → run (fresh []) (prometheus f s) ≡ fresh (samples s)
    unfolding prometheus one_line plain
    run-prometheus s =
        let total = total_samples (totals_of s.totals) in
        run-totals_text [] (totals_of s.totals)
          (providers_block f s.providers (circuits_block f s.circuits)) refl
        ∙ run-providers_block total s.providers (circuits_block f s.circuits)
        ∙ run-circuits_block (total ++ provider_samples s.providers) s.circuits
        ∙ ap fresh (append_assoc total (provider_samples s.providers) (circuit_samples s.circuits))

  -- What `Prometheus` writes is read back, line by line, as the snapshot's samples, whatever bytes
  -- the providers' names hold: no name can forge a sample, hide one or break the text.
  pub read-prometheus : OneLine f → (s : MetricsSnapshot) → read (prometheus f s) ≡ some (samples s)
  unfolding read ended
  read-prometheus o s = ap ended (run-prometheus o s)
