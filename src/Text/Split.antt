-- ===== src/Text/Split.antt =====
-- `cut`, by which a path is taken apart at a byte.
use gem_gate.Prelude.{
  ℕ, ◌≡◌, refl, sym, ◌∙◌, ◌≢◌, inl, inr, [], ◌∷◌, ◌++◌, none, some, Option-cases, Bool-cases, ◌==◌,
  ==_iff, All, arith,
}
use gem_gate.Text.{Text, cut, cut_prefix}

module _ (sep c : ℕ) (s : Text) where
  cut-cons_sep : c ≡ sep → cut sep (c ∷ s) ≡ some ([], s)
  unfolding cut
  cut-cons_sep e = ground arith

  cut-cons_none : c ≢ sep → cut sep s ≡ none → cut sep (c ∷ s) ≡ none
  unfolding cut
  cut-cons_none n e = ground arith

  cut-cons_some :
      (before after : Text)
      → c ≢ sep
      → cut sep s ≡ some (before, after)
      → cut sep (c ∷ s) ≡ some (c ∷ before, after)
  unfolding cut
  cut-cons_some before after n e = rw (e, cut) (ground arith)

-- A text is what stands before the separator, the separator, and what stands after it.
pub cut_parts :
    (sep : ℕ) (s before after : Text) → cut sep s ≡ some (before, after) → s ≡ before ++ sep ∷ after
unfolding cut
cut_parts sep [] before after h = cc
cut_parts sep (c ∷ s) before after h = elim (Bool-cases (c == sep)) [
  | inl same ↦ let e = (==_iff c sep).0 same in ground (arith, sym (cut-cons_sep sep c s e) ∙ h)
  | inr other ↦ elim (Option-cases (cut sep s)) [
    | inl stop ↦ cc (cut-cons_none sep c s (ground arith) stop)
    | inr (p, e) ↦
        ground (
          arith,
          sym (cut-cons_some sep c s p.0 p.1 (ground arith) e) ∙ h,
          cut_parts sep s p.0 p.1 e,
        )
  ]
]

-- At a separator that does not stand in the first part the text is cut there.
pub cut-append :
    (sep : ℕ) (before after : Text)
    → All (λ c. c ≢ sep) before
    → cut sep (before ++ sep ∷ after) ≡ some (before, after)
cut-append sep [] after h = cut-cons_sep sep sep after refl
cut-append sep (c ∷ before) after h =
    cut-cons_some sep c (before ++ sep ∷ after) before after h.0 (cut-append sep before after h.1)

pub cut_prefix-append : (p s : Text) → cut_prefix p (p ++ s) ≡ some s
unfolding cut_prefix
cut_prefix-append [] s = refl
cut_prefix-append (c ∷ p) s = ground (arith, cut_prefix-append p s)

pub cut_prefix_parts : (p s rest : Text) → cut_prefix p s ≡ some rest → s ≡ p ++ rest
unfolding cut_prefix
cut_prefix_parts [] s rest h = ground arith
cut_prefix_parts (c ∷ p) [] rest h = cc
cut_prefix_parts (c ∷ p) (d ∷ s) rest h = ground (arith, cut_prefix_parts p s rest)
