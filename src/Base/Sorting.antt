-- ===== src/Base/Sorting.antt =====
-- Python's `sorted` and `list.sort` on texts, which keep a text that comes twice.
use Prim.Native.Nat.{Ordering, ◌+◌}
use Prim.Native.String.{String, compare as compare_text}
use Prim.Native.String.compare
use mathlib.Core.Path.{◌≡◌, refl}
use mathlib.Core.Bool.{◌||◌}
use mathlib.Core.Logic.{◌≢◌}
use mathlib.Core.List.{List, [], ◌∷◌}
use native.Mathlib.Omega.{arith}
use text.Mathlib.TextEquality.{path_by_compare}
use autonomous_math_ai.Base.Tests.{string_eq, ◌==◌}
use autonomous_math_ai.Base.Lists.{length, elem, has_duplicates}

abbrev pub insert_text : String → List String → List String
insert_text x [] = x ∷ []
insert_text x (y ∷ ys) =
    let more = insert_text x ys in
    elim (compare_text x y) [ Ordering.gt ↦ y ∷ more | other ↦ x ∷ y ∷ ys ]

abbrev pub sort_texts : List String → List String
sort_texts [] = []
sort_texts (x ∷ xs) = insert_text x (sort_texts xs)

elem-insert : (x y : String) (ys : List String) → elem x (insert_text y ys) ≡ (x == y || elem x ys)
elem-insert x y [] = refl
elem-insert x y (z ∷ ys) = ground (arith, elem-insert x y ys)

pub elem-sort_texts : (x : String) (xs : List String) → elem x (sort_texts xs) ≡ elem x xs
elem-sort_texts x [] = refl
elem-sort_texts x (y ∷ ys) = rw (elem-insert x y (sort_texts ys), elem-sort_texts x ys) refl

length-insert : (x : String) (ys : List String) → length (insert_text x ys) ≡ length ys + 1
length-insert x [] = refl
length-insert x (y ∷ ys) = ground (arith, length-insert x ys)

pub length-sort : (xs : List String) → length (sort_texts xs) ≡ length xs
length-sort [] = refl
length-sort (x ∷ xs) = omega (arith, length-insert x (sort_texts xs), length-sort xs)

pub has_duplicates-sort : (xs : List String) → has_duplicates (sort_texts xs) ≡ has_duplicates xs
has_duplicates-sort [] = refl
has_duplicates-sort (x ∷ xs) =
    ground (arith, twice x (sort_texts xs), has_duplicates-sort xs, elem-sort_texts x xs)
  where
    twice :
        (y : String) (ys : List String)
        → has_duplicates (insert_text y ys) ≡ (elem y ys || has_duplicates ys)
    twice y [] = refl
    twice y (z ∷ ys) =
        ground (arith, twice y ys, elem-insert z y ys, string_eq.beq_iff y z, string_eq.beq_iff z y)

compare_flip : (s t : String) → compare_text s t ≡ Ordering.gt → compare_text t s ≡ Ordering.lt
compare_flip String.[] String.[] e = absurd (cc (compare.nil-nil))
compare_flip String.[] (String.◌∷◌ d t) e = absurd (cc (compare.nil-cons d t))
compare_flip (String.◌∷◌ c s) String.[] e = compare.nil-cons c s
compare_flip (String.◌∷◌ c s) (String.◌∷◌ d t) e =
    ground (arith, compare.cons-cons c d s t, compare.cons-cons d c t s, compare_flip s t)

-- Each text is not after the next one.
abbrev pub IsSorted : List String → Type 0
IsSorted [] = Unit
IsSorted (x ∷ []) = Unit
IsSorted (x ∷ y ∷ ys) = (compare_text x y ≢ Ordering.gt) × IsSorted (y ∷ ys)

insert-IsSorted : (x : String) (ys : List String) → IsSorted ys → IsSorted (insert_text x ys)
insert-IsSorted x [] h = tt
insert-IsSorted x (y ∷ []) h = ground (arith, compare_flip x y)
insert-IsSorted x (y ∷ z ∷ ys) h = ground (arith, compare_flip x y, insert-IsSorted x (z ∷ ys) h.1)

pub sort-IsSorted : (xs : List String) → IsSorted (sort_texts xs)
sort-IsSorted [] = tt
sort-IsSorted (x ∷ xs) = insert-IsSorted x (sort_texts xs) (sort-IsSorted xs)

pub sort_sorted : (xs : List String) → IsSorted xs → sort_texts xs ≡ xs
sort_sorted [] h = refl
sort_sorted (x ∷ []) h = refl
sort_sorted (x ∷ y ∷ ys) h = ground (arith, sort_sorted (y ∷ ys) h.1)

compare_flip_back : (s t : String) → compare_text s t ≡ Ordering.lt → compare_text t s ≡ Ordering.gt
compare_flip_back String.[] String.[] e = absurd (cc (compare.nil-nil))
compare_flip_back String.[] (String.◌∷◌ d t) e = compare.cons-nil d t
compare_flip_back (String.◌∷◌ c s) String.[] e = absurd (cc (compare.cons-nil c s))
compare_flip_back (String.◌∷◌ c s) (String.◌∷◌ d t) e =
    ground (arith, compare.cons-cons c d s t, compare.cons-cons d c t s, compare_flip_back s t)

pub sort_swap : (s t : String) → sort_texts (s ∷ t ∷ []) ≡ sort_texts (t ∷ s ∷ [])
sort_swap s t = ground (arith, compare_flip s t, compare_flip_back s t, path_by_compare s t)
