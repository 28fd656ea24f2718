-- ===== src/Config/Numbers.antt =====
-- internal/config/config.go: `parseDuration` and `parseBytes`. `time.ParseDuration` and
-- `strconv.ParseInt` with base 10 and 64 bits are parameters.
use gem_gate.Prelude.{
  ℕ, ◌*◌, ◌-◌, ◌/◌, ◌^◌, ◌||◌, Option, none, some, ℤ, pos, negsuc, List, [], ◌∷◌, ltb,
  if◌then◌else◌, Result, ok, err,
}
use gem_gate.Text.{Text, codes, text_eq, is_empty, has_suffix, trim_space, trim_suffix}

pub record Parsers : Type 0 where
  pub parse_duration : Text → Option ℤ
  pub parse_int : Text → Option ℤ

pub data NumberError : Type 0 where
  bad_number negative_size size_overflow : NumberError

-- `1<<63 - 1`
abbrev pub max_int64 : ℕ
max_int64 = 2 ^ 63 - 1

abbrev pub units : List (Text × ℕ)
units =
    (codes "KiB", 1024)
    ∷ (codes "MiB", 1024 * 1024)
    ∷ (codes "GiB", 1024 * 1024 * 1024)
    ∷ (codes "KB", 1000)
    ∷ (codes "MB", 1000 * 1000)
    ∷ (codes "GB", 1000 * 1000 * 1000)
    ∷ (codes "B", 1)
    ∷ []

module _ (parsers : Parsers) where
  unfoldable pub duration_of : Text → Result NumberError ℤ
  duration_of s =
      if is_empty (trim_space s) || text_eq s (codes "0") || text_eq s (codes "0s")
      then ok (pos 0)
      else elim (parsers.parse_duration s) [ none ↦ err bad_number | some d ↦ ok d ]

  -- The number before a unit, which `mult` bytes make.
  unfoldable pub sized : Option ℤ → ℕ → Result NumberError ℕ
  sized none mult = err bad_number
  sized (some (negsuc n)) mult = err negative_size
  sized (some (pos n)) mult = if ltb (max_int64 / mult) n then err size_overflow else ok (n * mult)

  plain_size : Option ℤ → Result NumberError ℕ
  plain_size none = err bad_number
  plain_size (some (negsuc n)) = err negative_size
  plain_size (some (pos n)) = ok n

  unfoldable pub size_in : List (Text × ℕ) → Text → Result NumberError ℕ
  unfolding sized plain_size
  size_in [] s = plain_size (parsers.parse_int s)
  size_in ((suffix, mult) ∷ rest) s =
      if has_suffix s suffix
      then sized (parsers.parse_int (trim_space (trim_suffix s suffix))) mult
      else size_in rest s

  unfoldable pub parse_bytes : Text → Result NumberError ℕ
  unfolding size_in
  parse_bytes text =
      let s = trim_space text in
      if is_empty s || text_eq s (codes "0") then ok 0 else size_in units s
