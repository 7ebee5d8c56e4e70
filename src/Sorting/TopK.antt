-- ===== src/Sorting/TopK.antt =====
-- The first `k` of a sorted list: what a ranking returns.
use mathlib.Core.List.{Perm}
use secure_vector_search.Prelude.{
  take-append-drop, ℕ, ◌+◌, ◌<◌, ◌≡◌, sym, arith, min, subst, Bool, true, List, ◌++◌, length,
  get_or, take, drop, length-take, length-drop, get_or-take, get_or-drop,
}
use secure_vector_search.Sorting.{Sorting}

-- `hits` are `k` elements of `xs`, all if there are fewer, in order, and each may stand before
-- every element that is left out.
pub record IsTopK {A : Type 0} (le : A → A → Bool) (k : ℕ) (xs hits : List A) : Type 0 where
  pub rest : List A
  pub split : Perm (hits ++ rest) xs
  pub size : length hits ≡ min k (length hits + length rest)
  pub ordered :
      (i j : ℕ) (d : A) → i < j → j < length hits → le (get_or hits i d) (get_or hits j d) ≡ true
  pub best :
      (i j : ℕ) (d : A)
      → i < length hits
      → j < length rest
      → le (get_or hits i d) (get_or rest j d) ≡ true

-- The first k of a sort are k of the elements, all if there are fewer, in order, and each may stand
-- before every element that is left out.
pub take-sort-IsTopK :
    {A : Type 0} (le : A → A → Bool) (s : Sorting A le) (k : ℕ) (xs : List A)
    → IsTopK le k xs (take k (s.sort xs))
take-sort-IsTopK {A = A} le s k xs =
    let ys = s.sort xs in
    let len = length-take k ys in
    let len' = length-drop k ys in
    record {
      rest = drop k ys;
      split = subst (λ (zs : List A). Perm zs xs) (sym (take-append-drop k ys)) (s.sort-Perm xs);
      size = omega (arith, len, len');
      ordered = λ i j d hij hj.
          rw (get_or-take k ys i d (omega (arith, len)), get_or-take k ys j d (omega (arith, len)))
            (s.sort-ordered xs i j d hij (omega (arith, len)));
      best = λ i j d hi hj.
          rw (get_or-take k ys i d (omega (arith, len)), get_or-drop k ys j d)
            (s.sort-ordered xs i (k + j) d (omega (arith, len)) (omega (arith, len')));
    }
