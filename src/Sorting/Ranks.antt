-- ===== src/Sorting/Ranks.antt =====
-- Sorted numbers: what a place in the sorted list says about the list.
use gem_gate.Prelude.{
  ℕ, zero, suc, ◌≤◌, ◌<◌, Bool, ◌≡◌, refl, ◌∙◌, List, [], ◌∷◌, All, arith, leb, ltb, length, keep,
  Option, none, some,
}
use gem_gate.Sorting.{insert_in, sort}

-- How many numbers pass a test.
abbrev pub count : (ℕ → Bool) → List ℕ → ℕ
count p xs = length (keep p xs)

abbrev pub get_elem? : List ℕ → ℕ → Option ℕ
get_elem? [] i = none
get_elem? (x ∷ xs) zero = some x
get_elem? (x ∷ xs) (suc i) = get_elem? xs i

insert_in-count :
    (p : ℕ → Bool) (x : ℕ) (xs : List ℕ) → count p (insert_in leb x xs) ≡ count p (x ∷ xs)
unfolding insert_in
insert_in-count p x [] = refl
insert_in-count p x (y ∷ ys) = ground (arith, insert_in-count p x ys)

pub sort-count : (p : ℕ → Bool) (xs : List ℕ) → count p (sort leb xs) ≡ count p xs
unfolding sort
sort-count p [] = refl
sort-count p (x ∷ xs) = insert_in-count p x (sort leb xs) ∙ ground (arith, sort-count p xs)

abbrev AtLeast : ℕ → List ℕ → Type 0
AtLeast x ys = All (λ y. x ≤ y) ys

abbrev pub IsSorted : List ℕ → Type 0
IsSorted [] = Unit {0}
IsSorted (x ∷ xs) = AtLeast x xs × IsSorted xs

AtLeast-trans : (x y : ℕ) (ys : List ℕ) → x ≤ y → AtLeast y ys → AtLeast x ys
AtLeast-trans x y [] h a = tt
AtLeast-trans x y (z ∷ zs) h a = (omega arith, AtLeast-trans x y zs h a.1)

insert_in-AtLeast : (a x : ℕ) (xs : List ℕ) → a ≤ x → AtLeast a xs → AtLeast a (insert_in leb x xs)
unfolding insert_in
insert_in-AtLeast a x [] h k = (h, tt)
insert_in-AtLeast a x (y ∷ ys) h k = ground (arith, insert_in-AtLeast a x ys h k.1)

insert_in-IsSorted : (x : ℕ) (xs : List ℕ) → IsSorted xs → IsSorted (insert_in leb x xs)
unfolding insert_in
insert_in-IsSorted x [] s = (tt, tt)
insert_in-IsSorted x (y ∷ ys) s =
    ground (arith, AtLeast-trans x y ys, insert_in-AtLeast y x ys, insert_in-IsSorted x ys s.1)

pub sort-IsSorted : (xs : List ℕ) → IsSorted (sort leb xs)
unfolding sort
sort-IsSorted [] = tt
sort-IsSorted (x ∷ xs) = insert_in-IsSorted x (sort leb xs) (sort-IsSorted xs)

abbrev pub at_most : ℕ → ℕ → Bool
at_most v x = leb x v

abbrev pub below : ℕ → ℕ → Bool
below v x = ltb x v

pub get_elem?-AtLeast :
    (a : ℕ) (xs : List ℕ) (i v : ℕ) → AtLeast a xs → get_elem? xs i ≡ some v → a ≤ v
get_elem?-AtLeast a [] i v h e = cc
get_elem?-AtLeast a (x ∷ xs) zero v h e = ground arith
get_elem?-AtLeast a (x ∷ xs) (suc i) v h e = get_elem?-AtLeast a xs i v h.1 e

-- The number at a place has that many before it that are no greater, and itself.
pub count-at_most :
    (xs : List ℕ) (i v : ℕ) → IsSorted xs → get_elem? xs i ≡ some v → i < count (at_most v) xs
count-at_most [] i v s e = cc
count-at_most (x ∷ xs) zero v s e = ground arith
count-at_most (x ∷ xs) (suc i) v s e =
    ground (arith, count-at_most xs i v s.1 e, get_elem?-AtLeast x xs i v s.0 e)

none-below : (v : ℕ) (xs : List ℕ) → AtLeast v xs → count (below v) xs ≡ 0
none-below v [] h = refl
none-below v (x ∷ xs) h = ground (arith, none-below v xs h.1)

-- No more than those before it are smaller.
pub count-below :
    (xs : List ℕ) (i v : ℕ) → IsSorted xs → get_elem? xs i ≡ some v → count (below v) xs ≤ i
count-below [] i v s e = cc
count-below (x ∷ xs) zero v s e = ground (arith, none-below x xs s.0)
count-below (x ∷ xs) (suc i) v s e = ground (arith, count-below xs i v s.1 e)

insert_in-length : (x : ℕ) (xs : List ℕ) → length (insert_in leb x xs) ≡ suc (length xs)
unfolding insert_in
insert_in-length x [] = refl
insert_in-length x (y ∷ ys) = ground (arith, insert_in-length x ys)

pub length-sort : (xs : List ℕ) → length (sort leb xs) ≡ length xs
unfolding sort
length-sort [] = refl
length-sort (x ∷ xs) = ground (arith, insert_in-length x (sort leb xs), length-sort xs)

pub get_elem?-some : (xs : List ℕ) (i : ℕ) → i < length xs → (v : ℕ) × (get_elem? xs i ≡ some v)
get_elem?-some [] i h = absurd (omega arith)
get_elem?-some (x ∷ xs) zero h = (x, refl)
get_elem?-some (x ∷ xs) (suc i) h = get_elem?-some xs i (omega arith)
