-- ===== src/Metrics/Report/Reader.antt =====
-- A reader of the text exposition format by which Prometheus scrapes a program: comment lines, and
-- lines of a metric's name, its labels with their escapes, and a value. It is independent of the
-- code that writes the text.
use gem_gate.Prelude.{ℕ, Option, none, some, List, [], ◌∷◌, ◌++◌, ◌==◌, if◌then◌else◌}
use gem_gate.Text.{Text}

pub record Sample : Type 0 where
  pub metric : Text
  pub labels : List (Text × Text)
  pub value : Text

pub data Mode : Type 0 where
  line_start comment in_metric in_label want_quote in_text in_escape after_text : Mode
  want_space in_number broken : Mode

pub record Reader : Type 0 where
  pub mode : Mode
  pub metric : Text
  pub label : Text
  pub buf : Text
  pub labels : List (Text × Text)
  pub out : List Sample

-- The reader at the start of a line.
abbrev pub fresh : List Sample → Reader
fresh out = record { mode = line_start; metric = []; label = []; buf = []; labels = []; out = out }

abbrev pub push : ℕ → Reader → Reader
push c r = record r { buf = r.buf ++ c ∷ [] }

abbrev pub go : Mode → Reader → Reader
go m r = record r { mode = m }

unfoldable pub step_in : Mode → ℕ → Reader → Reader
step_in line_start c r =
    if c == b'#' then go comment r else if c == b'\n' then r else go in_metric (push c r)
step_in comment c r = if c == b'\n' then go line_start r else r
step_in in_metric c r =
    if c == b'{'
    then record r { mode = in_label; metric = r.buf; buf = [] }
    else if c == b' '
    then record r { mode = in_number; metric = r.buf; buf = [] }
    else if c == b'\n'
    then go broken r
    else push c r
step_in in_label c r =
    if c == b'='
    then record r { mode = want_quote; label = r.buf; buf = [] }
    else if c == b'"'
    then go broken r
    else if c == b'\n'
    then go broken r
    else push c r
step_in want_quote c r = if c == b'"' then go in_text r else go broken r
step_in in_text c r =
    if c == b'"'
    then record r { mode = after_text; labels = r.labels ++ (r.label, r.buf) ∷ []; buf = [] }
    else if c == b'\\'
    then go in_escape r
    else if c == b'\n'
    then go broken r
    else push c r
step_in in_escape c r =
    if c == b'n'
    then go in_text (push b'\n' r)
    else if c == b'\\'
    then go in_text (push c r)
    else if c == b'"'
    then go in_text (push c r)
    else go broken r
step_in after_text c r =
    if c == b',' then go in_label r else if c == b'}' then go want_space r else go broken r
step_in want_space c r = if c == b' ' then go in_number r else go broken r
step_in in_number c r =
    if c == b'\n'
    then fresh (r.out ++ record { metric = r.metric; labels = r.labels; value = r.buf } ∷ [])
    else push c r
step_in broken c r = r

unfoldable pub run : Reader → Text → Reader
unfolding step_in
run r [] = r
run r (c ∷ s) = run (step_in r.mode c r) s

unfoldable pub ended : Reader → Option (List Sample)
ended r = elim r.mode [ line_start ↦ some r.out | _ ↦ none ]

-- What a scrape of the text gives, if every line of it can be read.
unfoldable pub read : Text → Option (List Sample)
unfolding run ended
read s = ended (run (fresh []) s)
