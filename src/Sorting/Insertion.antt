-- ===== src/Sorting/Insertion.antt =====
-- The documented behaviour of a sort can be had: insertion sort has it, for a total order.
use mathlib.Core.List.{Perm}
use mathlib.Core.List.Perm
use secure_vector_search.Prelude.{
  ℕ, zero, suc, ◌<◌, ◌≡◌, arith, Bool, true, false, if◌then◌else◌, Bool-cases, inl, inr, List, [],
  ◌∷◌, length, get_or,
}
use secure_vector_search.Sorting.{Sorting}

module _ {A : Type 0} (le : A → A → Bool) where
  unfoldable pub insert_sorted : A → List A → List A
  insert_sorted x [] = x ∷ []
  insert_sorted x (y ∷ ys) = if le x y then x ∷ y ∷ ys else (y ∷ insert_sorted x ys)

  unfoldable pub insertion_sort : List A → List A
  insertion_sort [] = []
  insertion_sort (x ∷ xs) = insert_sorted x (insertion_sort xs)

  insert_sorted-Perm : (x : A) (ys : List A) → Perm (insert_sorted x ys) (x ∷ ys)
  unfolding insert_sorted
  insert_sorted-Perm x [] = Perm.refl (x ∷ [])
  insert_sorted-Perm x (y ∷ ys) = elim (Bool-cases (le x y)) [
    | inl e ↦ rw e (Perm.refl (x ∷ y ∷ ys))
    | inr e ↦ rw e (Perm.trans (Perm.cons y (insert_sorted-Perm x ys)) (Perm.swap x y ys))
  ]

  insertion_sort-Perm : (xs : List A) → Perm (insertion_sort xs) xs
  unfolding insertion_sort
  insertion_sort-Perm [] = Perm.refl []
  insertion_sort-Perm (x ∷ xs) =
      Perm.trans (insert_sorted-Perm x (insertion_sort xs)) (Perm.cons x (insertion_sort-Perm xs))

  -- Everything in the list may stand after `x`.
  abbrev AllAfter : A → List A → Type 0
  AllAfter x [] = Unit {0}
  AllAfter x (y ∷ ys) = (le x y ≡ true) × AllAfter x ys

  abbrev IsSorted : List A → Type 0
  IsSorted [] = Unit {0}
  IsSorted (x ∷ xs) = AllAfter x xs × IsSorted xs

  AllAfter-get_or :
      (x : A) (ys : List A) (j : ℕ) (d : A)
      → AllAfter x ys
      → j < length ys
      → le x (get_or ys j d) ≡ true
  AllAfter-get_or x [] j d h hj = absurd (omega arith)
  AllAfter-get_or x (y ∷ ys) zero d h hj = h.0
  AllAfter-get_or x (y ∷ ys) (suc j) d h hj = AllAfter-get_or x ys j d h.1 (omega arith)

  IsSorted-ordered :
      (xs : List A) (i j : ℕ) (d : A)
      → IsSorted xs
      → i < j
      → j < length xs
      → le (get_or xs i d) (get_or xs j d) ≡ true
  IsSorted-ordered [] i j d h hij hj = absurd (omega arith)
  IsSorted-ordered (x ∷ xs) i zero d h hij hj = absurd (omega arith)
  IsSorted-ordered (x ∷ xs) zero (suc j) d h hij hj = AllAfter-get_or x xs j d h.0 (omega arith)
  IsSorted-ordered (x ∷ xs) (suc i) (suc j) d h hij hj =
      IsSorted-ordered xs i j d h.1 (omega arith) (omega arith)

  module _ (total : (x y : A) → le x y ≡ false → le y x ≡ true)
      (trans : (x y z : A) → le x y ≡ true → le y z ≡ true → le x z ≡ true) where
    AllAfter-trans : (x y : A) (ys : List A) → le x y ≡ true → AllAfter y ys → AllAfter x ys
    AllAfter-trans x y [] e h = tt
    AllAfter-trans x y (z ∷ zs) e h = (trans x y z e h.0, AllAfter-trans x y zs e h.1)

    AllAfter-insert :
        (y x : A) (ys : List A) → le y x ≡ true → AllAfter y ys → AllAfter y (insert_sorted x ys)
    unfolding insert_sorted
    AllAfter-insert y x [] e h = (e, tt)
    AllAfter-insert y x (z ∷ zs) e h = elim (Bool-cases (le x z)) [
      | inl c ↦ rw c (e, h)
      | inr c ↦ rw c (h.0, AllAfter-insert y x zs e h.1)
    ]

    IsSorted-insert : (x : A) (ys : List A) → IsSorted ys → IsSorted (insert_sorted x ys)
    unfolding insert_sorted
    IsSorted-insert x [] h = (tt, tt)
    IsSorted-insert x (y ∷ ys) h = elim (Bool-cases (le x y)) [
      | inl c ↦ rw c ((c, AllAfter-trans x y ys c h.0), h)
      | inr c ↦ rw c (AllAfter-insert y x ys (total x y c) h.0, IsSorted-insert x ys h.1)
    ]

    insertion_sort-IsSorted : (xs : List A) → IsSorted (insertion_sort xs)
    unfolding insertion_sort
    insertion_sort-IsSorted [] = tt
    insertion_sort-IsSorted (x ∷ xs) =
        IsSorted-insert x (insertion_sort xs) (insertion_sort-IsSorted xs)

    pub insertion : Sorting A le
    insertion = record {
      sort = insertion_sort;
      sort-Perm = insertion_sort-Perm;
      sort-ordered = λ xs i j d hij hj.
          IsSorted-ordered (insertion_sort xs) i j d (insertion_sort-IsSorted xs) hij hj;
    }
