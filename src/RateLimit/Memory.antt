-- ===== src/RateLimit/Memory.antt =====
-- internal/gateway/ratelimit_backend.go: the clients of the memory backend do not affect one another.
use gem_gate.Prelude.{
  ℕ, zero, suc, ◌≤◌, ℤ, pos, negsuc, Bool, false, ◌≡◌, refl, sym, ap, ap₂, subst, ◌∙◌, inl, inr,
  none, some, List, [], ◌∷◌, if◌then◌else◌, Bool-cases, arith, is_positive,
}
use gem_gate.Text.{Text, text_eq, contains}
use gem_gate.Text.Equality.{text_eq_iff}
use gem_gate.RateWindow.{RateWindow, empty_window}
use gem_gate.RateWindow
use gem_gate.RateWindow.History.{
  exact_allow, exact_answers, Represents, Represents-later, allow-agrees, empty-Represents,
}
use gem_gate.RateLimit.{
  Windows, find_window, put_window, window_or_new, memory_allow, memory_retain,
}

pub find-put_window :
    (ws : Windows) (key j : Text) (w : RateWindow)
    → find_window (put_window ws key w) j ≡ (if text_eq key j then some w else find_window ws j)
unfolding find_window put_window
find-put_window [] key j w = refl
find-put_window ((k, v) ∷ ws) key j w =
    ground
      (arith, text_eq_iff k key, text_eq_iff key j, text_eq_iff k j, find-put_window ws key j w)

-- `Retain` forgets exactly the windows of the keys that are not listed.
pub find-memory_retain :
    (ws : Windows) (keys : List Text) (j : Text)
    → find_window (memory_retain ws keys) j ≡ (if contains keys j then find_window ws j else none)
unfolding find_window memory_retain
find-memory_retain [] keys j = ground arith
find-memory_retain ((k, w) ∷ ws) keys j = elim (Bool-cases (text_eq k j)) [
  | inl same ↦
      let e = (text_eq_iff k j).0 same in
      elim (Bool-cases (contains keys k)) [
        | inl listed ↦ rw (listed, same, ap (contains keys) (sym e) ∙ listed)
        | inr gone ↦
            rw (gone, same, find-memory_retain ws keys j, ap (contains keys) (sym e) ∙ gone)
      ]
  | inr other ↦ elim (Bool-cases (contains keys k)) [
    | inl listed ↦ rw (listed, other) (find-memory_retain ws keys j)
    | inr gone ↦ rw (gone, other) (find-memory_retain ws keys j)
  ]
]

-- A call of `Allow`: its key, limit and time.
pub record Call : Type 0 where
  pub key : Text
  pub limit : ℤ
  pub now : ℕ

-- The answers to the calls with one key, in a run of calls with any keys.
pub answers_to : Text → Windows → List Call → List Bool
answers_to key windows [] = []
answers_to key windows (c ∷ calls) =
    let (next, decision, error) = memory_allow windows c.key c.limit c.now in
    let rest = answers_to key next calls in
    if text_eq c.key key then decision.allowed ∷ rest else rest

abbrev pub calls_of : Text → List Call → List (ℤ × ℕ)
calls_of key [] = []
calls_of key (c ∷ calls) =
    let rest = calls_of key calls in if text_eq c.key key then (c.limit, c.now) ∷ rest else rest

abbrev pub InOrder : ℕ → List Call → Type 0
InOrder last [] = Unit {0}
InOrder last (c ∷ calls) = (last ≤ c.now) × InOrder c.now calls

-- The window of the key represents the history of its own calls.
abbrev Tracks : Text → Windows → List ℕ → ℕ → Type 0
Tracks key ws history last = Represents (window_or_new (find_window ws key)) history last

memory_allow-same :
    (key : Text) (ws : Windows) (history : List ℕ) (last : ℕ) (limit : ℤ) (now : ℕ)
    → last ≤ now
    → Tracks key ws history last
    → ((memory_allow ws key limit now).1.allowed ≡ (exact_allow history limit now).1)
      × Tracks key (memory_allow ws key limit now).0 (exact_allow history limit now).0 now
unfolding memory_allow
memory_allow-same key ws history last (pos zero) now h v =
    (refl, Represents-later _ history last now h v)
memory_allow-same key ws history last (negsuc n) now h v =
    (refl, Represents-later _ history last now h v)
memory_allow-same key ws history last (pos (suc n)) now h v =
    rw
      (
        find-put_window ws key key
            (RateWindow.allow (window_or_new (find_window ws key)) (pos (suc n)) now).0,
        (text_eq_iff key key).1 refl,
      )
      (allow-agrees (window_or_new (find_window ws key)) history (pos (suc n)) last now h v)

memory_allow-other :
    (key j : Text) (ws : Windows) (limit : ℤ) (now : ℕ)
    → text_eq j key ≡ false
    → find_window (memory_allow ws j limit now).0 key ≡ find_window ws key
unfolding memory_allow
memory_allow-other key j ws limit now other = elim (Bool-cases (is_positive limit)) [
  | inl p ↦ rw p (find-put_window ws j key _ ∙ rw other)
  | inr p ↦ rw p
]

memory_allow-equal :
    (key j : Text) (ws : Windows) (history : List ℕ) (last : ℕ) (limit : ℤ) (now : ℕ)
    → j ≡ key
    → last ≤ now
    → Tracks key ws history last
    → ((memory_allow ws j limit now).1.allowed ≡ (exact_allow history limit now).1)
      × Tracks key (memory_allow ws j limit now).0 (exact_allow history limit now).0 now
memory_allow-equal key j ws history last limit now e h v =
    subst
      (λ k.
        ((memory_allow ws k limit now).1.allowed ≡ (exact_allow history limit now).1)
        × Tracks key (memory_allow ws k limit now).0 (exact_allow history limit now).0 now)
      (sym e) (memory_allow-same key ws history last limit now h v)

answers_to-exact :
    (key : Text) (ws : Windows) (history : List ℕ) (last : ℕ) (calls : List Call)
    → Tracks key ws history last
    → InOrder last calls
    → answers_to key ws calls ≡ exact_answers history (calls_of key calls)
unfolding answers_to
answers_to-exact key ws history last [] v o = refl
answers_to-exact key ws history last (c ∷ calls) v o = elim (Bool-cases (text_eq c.key key)) [
  | inl same ↦
      let (agree, next) =
        memory_allow-equal key c.key ws history last c.limit c.now ((text_eq_iff c.key key).0 same)
          o.0 v in
      rw same (
        ap₂ ◌∷◌ agree (
          answers_to-exact key (memory_allow ws c.key c.limit c.now).0
            (exact_allow history c.limit c.now).0 c.now calls next o.1))
  | inr other ↦ rw other (
      answers_to-exact key (memory_allow ws c.key c.limit c.now).0 history c.now calls
        (rw (memory_allow-other key c.key ws c.limit c.now other)
          (Represents-later _ history last c.now o.0 v))
        o.1)
]

-- In any run of the memory backend, at a clock that does not go back, a client is answered as if the
-- exact limiter served that client alone: the other clients' calls, in any interleaving, change
-- nothing, and neither does a limit that a reload changes.
pub memory_isolated :
    (key : Text) (calls : List Call)
    → InOrder 0 calls
    → answers_to key [] calls ≡ exact_answers [] (calls_of key calls)
memory_isolated key calls o =
    answers_to-exact key [] [] 0 calls (unfold find_window in empty-Represents 0) o
