-- ===== src/Metrics/Report/Lines.antt =====
-- How the reader takes each kind of line that `Prometheus` writes, whatever the labels hold.
use gem_gate.Prelude.{
  ℕ, Bool, true, false, not, ◌&&◌, ◌⊎◌, inl, inr, ◌≡◌, refl, ◌∙◌, List, [], ◌∷◌, ◌++◌, ◌==◌,
  append-nil, append_assoc, arith,
}
use gem_gate.Text.{Text, codes}
use gem_gate.Metrics.Report.Prometheus.{
  label_byte, prometheus_label, described, plain_line, provider_line, class_line,
}
use gem_gate.Metrics.Report.Reader.{
  Sample, comment, in_metric, in_label, in_text, in_number, Reader, fresh, push, go, step_in, run,
}

-- A text without a line feed.
unfoldable pub one_line : Text → Bool
one_line [] = true
one_line (c ∷ s) = not (c == b'\n') && one_line s

-- A name without the bytes that end a metric's name or a label's, and that is no comment.
unfoldable pub plain : Text → Bool
plain [] = true
plain (c ∷ s) =
    not (c == b'\n')
    && not (c == b' ')
    && not (c == b'{')
    && not (c == b'=')
    && not (c == b'"')
    && not (c == b'#')
    && plain s

abbrev pub plain_name : Text → Bool
plain_name [] = false
plain_name (c ∷ s) = plain (c ∷ s)

abbrev commenting : List Sample → Reader
commenting out = go comment (fresh out)

run_comment :
    (out : List Sample) (s rest : Text)
    → one_line s ≡ true
    → run (commenting out) (s ++ rest) ≡ run (commenting out) rest
unfolding run step_in one_line
run_comment out [] rest h = refl
run_comment out (c ∷ s) rest h = ground (arith, run_comment out s rest)

-- The end of a `# HELP` or `# TYPE` line: a name, and what is said of it.
run_remark :
    (out : List Sample) (metric said rest : Text)
    → one_line metric ≡ true
    → one_line said ≡ true
    → run (commenting out) (metric ++ (b' ' ∷ (said ++ (b'\n' ∷ rest)))) ≡ run (fresh out) rest
run_remark out metric said rest a b =
    run_comment out metric (b' ' ∷ (said ++ (b'\n' ∷ rest))) a
    ∙ unfold run step_in in run_comment out said (b'\n' ∷ rest) b

run_number :
    (r : Reader) (s rest : Text)
    → r.mode ≡ in_number
    → one_line s ≡ true
    → run r (s ++ b'\n' ∷ rest)
      ≡ run
          (fresh
            (r.out ++ record { metric = r.metric; labels = r.labels; value = r.buf ++ s } ∷ []))
          rest
unfolding run step_in one_line
run_number r [] rest m h = rw append-nil (ground arith)
run_number r (c ∷ s) rest m h =
    let pushed : run r (c ∷ s ++ b'\n' ∷ rest) ≡ run (push c r) (s ++ b'\n' ∷ rest) =
      ground arith in
    pushed ∙ run_number (push c r) s rest m (ground arith) ∙ rw append_assoc

run_name :
    (r : Reader) (s rest : Text)
    → (r.mode ≡ in_metric) ⊎ (r.mode ≡ in_label)
    → plain s ≡ true
    → run r (s ++ rest) ≡ run (record r { buf = r.buf ++ s }) rest
unfolding run step_in plain
run_name r [] rest m h = rw append-nil
run_name r (c ∷ s) rest m h =
    let pushed : run r (c ∷ s ++ rest) ≡ run (push c r) (s ++ rest) = ground arith in
    pushed ∙ run_name (push c r) s rest m (ground arith) ∙ rw append_assoc

-- A metric's name at the start of a line.
run_metric :
    (out : List Sample) (s rest : Text)
    → plain_name s ≡ true
    → run (fresh out) (s ++ rest) ≡ run (record (fresh out) { mode = in_metric; buf = s }) rest
unfolding run step_in plain
run_metric out [] rest h = cc
run_metric out (c ∷ s) rest h =
    ground
      (arith, run_name (record (fresh out) { mode = in_metric; buf = c ∷ [] }) s rest (inl refl))

run-label_byte :
    (r : Reader) (c : ℕ) (rest : Text)
    → r.mode ≡ in_text
    → run r (label_byte c ++ rest) ≡ run (push c r) rest
unfolding run step_in label_byte
run-label_byte r c rest m = ground arith

-- Whatever a label's text holds, the reader has it back.
pub run-prometheus_label :
    (r : Reader) (s rest : Text)
    → r.mode ≡ in_text
    → run r (prometheus_label s ++ rest) ≡ run (record r { buf = r.buf ++ s }) rest
unfolding prometheus_label
run-prometheus_label r [] rest m = rw append-nil
run-prometheus_label r (c ∷ s) rest m = rw (append_assoc (label_byte c) (prometheus_label s) rest) (
    run-label_byte r c (prometheus_label s ++ rest) m
    ∙ run-prometheus_label (push c r) s rest m
    ∙ rw append_assoc)

pub run-described :
    (out : List Sample) (metric help kind rest : Text)
    → one_line metric ≡ true
    → one_line help ≡ true
    → one_line kind ≡ true
    → run (fresh out) (described metric help kind rest) ≡ run (fresh out) rest
unfolding described
run-described out metric help kind rest a b c =
    let typed = codes "# TYPE " ++ (metric ++ (b' ' ∷ (kind ++ (b'\n' ∷ rest)))) in
    unfold run step_in in run_remark out metric help typed a b ∙ run_remark out metric kind rest a c

abbrev pub sampled : List Sample → Text → List (Text × Text) → Text → List Sample
sampled out metric labels value =
    out ++ record { metric = metric; labels = labels; value = value } ∷ []

pub run-plain_line :
    (out : List Sample) (metric value rest : Text)
    → plain_name metric ≡ true
    → one_line value ≡ true
    → run (fresh out) (plain_line metric value rest)
      ≡ run (fresh (sampled out metric [] value)) rest
unfolding plain_line
run-plain_line out metric value rest n v =
    run_metric out metric (b' ' ∷ (value ++ (b'\n' ∷ rest))) n
    ∙ unfold run step_in in
      run_number (record (fresh out) { mode = in_number; metric = metric }) value rest refl v

-- The reader in a label's text, with what it has read of the line.
abbrev inside : List Sample → Text → List (Text × Text) → Text → Text → Reader
inside out metric labels label buf = record {
  mode = in_text;
  metric = metric;
  label = label;
  buf = buf;
  labels = labels;
  out = out;
}

run_opened :
    (out : List Sample) (metric s rest : Text)
    → plain_name metric ≡ true
    → run (fresh out) (metric ++ (codes "{provider=\"" ++ (prometheus_label s ++ rest)))
      ≡ run (inside out metric [] (codes "provider") s) rest
run_opened out metric s rest n =
    run_metric out metric (codes "{provider=\"" ++ (prometheus_label s ++ rest)) n
    ∙ unfold run step_in in
      run-prometheus_label (inside out metric [] (codes "provider") []) s rest refl

run_closed :
    (out : List Sample) (metric : Text) (labels : List (Text × Text)) (label buf value rest : Text)
    → one_line value ≡ true
    → run (inside out metric labels label buf) (codes "\"} " ++ (value ++ (b'\n' ∷ rest)))
      ≡ run (fresh (sampled out metric (labels ++ (label, buf) ∷ []) value)) rest
unfolding run step_in
run_closed out metric labels label buf value rest v =
    run_number
      (record (fresh out) {
        mode = in_number;
        metric = metric;
        label = label;
        labels = labels ++ (label, buf) ∷ [];
      })
      value rest refl v

pub run-provider_line :
    (out : List Sample) (metric s value rest : Text)
    → plain_name metric ≡ true
    → one_line value ≡ true
    → run (fresh out) (provider_line metric (prometheus_label s) value rest)
      ≡ run (fresh (sampled out metric ((codes "provider", s) ∷ []) value)) rest
unfolding provider_line
run-provider_line out metric s value rest n v =
    run_opened out metric s (codes "\"} " ++ (value ++ (b'\n' ∷ rest))) n
    ∙ run_closed out metric [] (codes "provider") s value rest v

-- The second label's name, and its text.
run_second :
    (out : List Sample) (metric s key class rest : Text)
    → plain key ≡ true
    → run
        (inside out metric [] (codes "provider") s)
        (codes "\"," ++ (key ++ (codes "=\"" ++ (prometheus_label class ++ rest))))
      ≡ run (inside out metric ((codes "provider", s) ∷ []) key class) rest
unfolding run step_in
run_second out metric s key class rest k =
    let labels = (codes "provider", s) ∷ [] in
    let before = record (inside out metric labels (codes "provider") []) { mode = in_label } in
    run_name before key (codes "=\"" ++ (prometheus_label class ++ rest)) (inr refl) k
    ∙ run-prometheus_label (inside out metric labels key []) class rest refl

pub run-class_line :
    (out : List Sample) (metric s key class value rest : Text)
    → plain_name metric ≡ true
    → plain key ≡ true
    → one_line value ≡ true
    → run
        (fresh out)
        (class_line metric (prometheus_label s) key (prometheus_label class) value rest)
      ≡ run (fresh (sampled out metric ((codes "provider", s) ∷ (key, class) ∷ []) value)) rest
unfolding class_line
run-class_line out metric s key class value rest n k v =
    let closing = codes "\"} " ++ (value ++ (b'\n' ∷ rest)) in
    let text = codes "=\"" ++ (prometheus_label class ++ closing) in
    run_opened out metric s (codes "\"," ++ (key ++ text)) n
    ∙ run_second out metric s key class closing k
    ∙ run_closed out metric ((codes "provider", s) ∷ []) key class value rest v
