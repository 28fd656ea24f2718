-- ===== src/Sorting/Order.antt =====
-- Sorting by a total order: the result does not depend on the order of what is sorted.
use mathlib.Core.List.{Permᴰ}
use gem_gate.Prelude.{Bool, true, false, ◌≡◌, refl, ap₂, ◌∙◌, List, [], ◌∷◌, arith}
use gem_gate.Sorting.{insert_in, sort, text_le}
use gem_gate.Text.{Text}

pub record TotalOrder {ℓ} {A : Type ℓ} (before : A → A → Bool) : Type ℓ where
  pub total : (a b : A) → before a b ≡ false → before b a ≡ true
  pub trans : (a b c : A) → before a b ≡ true → before b c ≡ true → before a c ≡ true
  pub antisym : (a b : A) → before a b ≡ true → before b a ≡ true → a ≡ b

module _ {ℓ} {A : Type ℓ} (before : A → A → Bool) (o : TotalOrder before) where
  insert_in-swap :
      (a b : A) (xs : List A)
      → insert_in before a (insert_in before b xs) ≡ insert_in before b (insert_in before a xs)
  unfolding insert_in
  insert_in-swap a b [] = ground (arith, o.total a b, o.total b a, o.antisym a b)
  insert_in-swap a b (x ∷ xs) = ground (
    arith,
    o.total a b,
    o.total b a,
    o.antisym a b,
    o.trans a b x,
    o.trans b a x,
    o.total a x,
    o.total b x,
    o.trans a x b,
    o.trans b x a,
    insert_in-swap a b xs,
  )

  pub sort-perm : {xs ys : List A} → Permᴰ xs ys → sort before xs ≡ sort before ys
  unfolding sort
  sort-perm Permᴰ.nil = refl
  sort-perm (Permᴰ.cons e p) = ap₂ (insert_in before) e (sort-perm p)
  sort-perm (Permᴰ.swap {a} {b} {l = l} e f) =
      insert_in-swap a b (sort before l)
      ∙ ap₂ (λ x y. insert_in before x (insert_in before y (sort before l))) f e
  sort-perm (Permᴰ.trans p q) = sort-perm p ∙ sort-perm q

text_le-total : (s t : Text) → text_le s t ≡ false → text_le t s ≡ true
unfolding text_le
text_le-total [] t h = cc
text_le-total (a ∷ s) [] h = refl
text_le-total (a ∷ s) (b ∷ t) h = ground (arith, text_le-total s t)

text_le_trans : (s t u : Text) → text_le s t ≡ true → text_le t u ≡ true → text_le s u ≡ true
unfolding text_le
text_le_trans [] t u h k = refl
text_le_trans (a ∷ s) [] u h k = cc
text_le_trans (a ∷ s) (b ∷ t) [] h k = cc
text_le_trans (a ∷ s) (b ∷ t) (c ∷ u) h k = ground (arith, text_le_trans s t u)

text_le-antisym : (s t : Text) → text_le s t ≡ true → text_le t s ≡ true → s ≡ t
unfolding text_le
text_le-antisym [] [] h k = refl
text_le-antisym [] (b ∷ t) h k = cc
text_le-antisym (a ∷ s) [] h k = cc
text_le-antisym (a ∷ s) (b ∷ t) h k = ground (arith, text_le-antisym s t)

pub text_order : TotalOrder text_le
text_order = record { total = text_le-total; trans = text_le_trans; antisym = text_le-antisym }
