-- ===== src/Gateway/Streams/Copying.antt =====
-- internal/gateway/http_helpers.go: what `copyAndFlush` has written when it ends well.
use gem_gate.Prelude.{ℕ, ◌+◌, Bool, true, false, ◌≡◌, refl, ap, inl, inr, Option-cases, none, arith}
use gem_gate.Gateway.Streams.{
  Write, Reading, more, end_of_file, read_failure, after_write, copy_and_flush,
}

-- The bytes that the reads deliver.
abbrev pub delivered : Reading → ℕ
delivered (more w rest) = w.size + delivered rest
delivered (end_of_file w) = w.size
delivered (read_failure w canceled) = w.size

abbrev pub ends_well : Reading → Bool
ends_well (more w rest) = ends_well rest
ends_well (end_of_file w) = true
ends_well (read_failure w canceled) = false

after_write_complete :
    (written : ℕ) (w : Write)
    → (after_write written w).1 ≡ none
    → (after_write written w).0 ≡ written + w.size
unfolding after_write
after_write_complete written w h = ground (arith, h)

-- A copy without an error has written, after what was written before, every byte that the body
-- delivers, up to its EOF.
pub copy_and_flush_complete :
    (written n : ℕ) (r : Reading)
    → copy_and_flush written r ≡ (n, none)
    → (n ≡ written + delivered r) × (ends_well r ≡ true)
unfolding copy_and_flush
copy_and_flush_complete written n (more w rest) h = elim (Option-cases (after_write written w).1) [
  | inr (e, failed) ↦ absurd (ground (arith, h, failed))
  | inl fine ↦
      let done =
        copy_and_flush_complete (after_write written w).0 n rest (ground (arith, h, fine)) in
      (ground (arith, done.0, after_write_complete written w fine), done.1)
]
copy_and_flush_complete written n (end_of_file w) h =
    (ground (arith, ap (λ r. r.0) h, after_write_complete written w (ap (λ r. r.1) h)), refl)
copy_and_flush_complete written n (read_failure w canceled) h =
    elim (Option-cases (after_write written w).1) [
      | inr (e, failed) ↦ absurd (ground (arith, h, failed))
      | inl fine ↦ absurd (ground (arith, h, fine))
    ]
