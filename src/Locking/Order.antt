-- ===== src/Locking/Order.antt =====
-- The order in which lock files are asked for: `sorted(set(...))` in core/locking.py.
use Prim.Native.Nat.{ℕ, Ordering, compare as compare_ℕ}
use Prim.Native.Char.{code}
use Prim.Native.String.{compare, then}
use Prim.Native.String.compare
use text.Mathlib.TextEquality.{path_by_compare}
use dockkeep.Prelude.{
  String, ◌≡◌, refl, sym, ap, ◌∙◌, ◌⊎◌, inl, inr, Bool, true, false, List, [], ◌∷◌, ◌==◌, ◌||◌,
  contains, arith,
}
use dockkeep.Locking.{insert_sorted, sorted_set}

-- Strictly ascending.
abbrev pub Above : String → List String → Type 0
Above x [] = Unit
Above x (y ∷ ys) = compare x y ≡ Ordering.lt

abbrev pub IsSorted : List String → Type 0
IsSorted [] = Unit
IsSorted (x ∷ xs) = Above x xs × IsSorted xs

then_gt :
    (o r : Ordering)
    → then o r ≡ Ordering.gt
    → (o ≡ Ordering.gt) ⊎ ((o ≡ Ordering.eq) × (r ≡ Ordering.gt))
then_gt Ordering.lt r h = cc
then_gt Ordering.eq r h = inr (refl, h)
then_gt Ordering.gt r h = inl refl

number_flip : (m n : ℕ) → compare_ℕ m n ≡ Ordering.gt → compare_ℕ n m ≡ Ordering.lt
number_flip m n h = ground arith

number_same : (m n : ℕ) → compare_ℕ m n ≡ Ordering.eq → compare_ℕ n m ≡ Ordering.eq
number_same m n h = ground arith

then_flip :
    (m n : ℕ) (r q : Ordering)
    → (r ≡ Ordering.gt → q ≡ Ordering.lt)
    → then (compare_ℕ m n) r ≡ Ordering.gt
    → then (compare_ℕ n m) q ≡ Ordering.lt
then_flip m n r q back h = elim (then_gt (compare_ℕ m n) r h) [
  | inl g ↦ rw (number_flip m n g)
  | inr (e, g) ↦ rw (number_same m n e) (back g)
]

compare_flip : (x y : String) → compare x y ≡ Ordering.gt → compare y x ≡ Ordering.lt
compare_flip String.[] String.[] h = cc (compare.nil-nil)
compare_flip String.[] (String.◌∷◌ d y) h = cc (compare.nil-cons d y)
compare_flip (String.◌∷◌ c x) String.[] h = compare.nil-cons c x
compare_flip (String.◌∷◌ c x) (String.◌∷◌ d y) h =
    compare.cons-cons d c y x
    ∙ then_flip (code c) (code d) (compare x y) (compare y x) (compare_flip x y)
        (sym (compare.cons-cons c d x y) ∙ h)

Order-cases : (o : Ordering) → (o ≡ Ordering.lt) ⊎ (o ≡ Ordering.eq) ⊎ (o ≡ Ordering.gt)
Order-cases Ordering.lt = inl refl
Order-cases Ordering.eq = inr (inl refl)
Order-cases Ordering.gt = inr (inr refl)

Above-insert_sorted :
    (z x : String) (ys : List String)
    → compare z x ≡ Ordering.lt
    → Above z ys
    → Above z (insert_sorted x ys)
unfolding insert_sorted
Above-insert_sorted z x [] h a = h
Above-insert_sorted z x (y ∷ ys) h a = elim (Order-cases (compare x y)) [
  | inl e ↦ rw e h
  | inr (inl e) ↦ rw e a
  | inr (inr e) ↦ rw e a
]

insert_sorted-IsSorted :
    (x : String) (ys : List String) → IsSorted ys → IsSorted (insert_sorted x ys)
unfolding insert_sorted
insert_sorted-IsSorted x [] h = (tt, tt)
insert_sorted-IsSorted x (y ∷ ys) h = elim (Order-cases (compare x y)) [
  | inl e ↦ rw e (e, h)
  | inr (inl e) ↦ rw e h
  | inr (inr e) ↦
      rw e (Above-insert_sorted y x ys (compare_flip x y e) h.0, insert_sorted-IsSorted x ys h.1)
]

or_again : (b c : Bool) → (b || c) ≡ (b || (b || c))
or_again true c = refl
or_again false c = refl

or_swap : (b c d : Bool) → (b || (c || d)) ≡ (c || (b || d))
or_swap true true d = refl
or_swap true false d = refl
or_swap false c d = refl

contains-insert_sorted :
    (x a : String) (ys : List String) → contains (insert_sorted x ys) a ≡ (x == a || contains ys a)
unfolding insert_sorted contains
contains-insert_sorted x a [] = refl
contains-insert_sorted x a (y ∷ ys) = elim (Order-cases (compare x y)) [
  | inl e ↦ rw e
  | inr (inl e) ↦ rw (e, path_by_compare x y e) (or_again (y == a) (contains ys a))
  | inr (inr e) ↦ rw (e, contains-insert_sorted x a ys) (or_swap (y == a) (x == a) (contains ys a))
]

-- The list is strictly ascending and has exactly the resources given.
pub sorted_set_lem :
    (xs : List String)
    → IsSorted (sorted_set xs) × ((a : String) → contains (sorted_set xs) a ≡ contains xs a)
unfolding sorted_set contains
sorted_set_lem [] = (tt, λ a. refl)
sorted_set_lem (x ∷ xs) =
    let (sorted, members) = sorted_set_lem xs in
    (
      insert_sorted-IsSorted x (sorted_set xs) sorted,
      λ a. contains-insert_sorted x a (sorted_set xs) ∙ ap (λ b. x == a || b) (members a),
    )
