-- ===== src/Sorting.antt =====
-- Sorting as the standard library documents it: the result is a permutation in order. Which of
-- several equal elements comes first is not documented, so the sort is a parameter.
pub mod TopK
pub mod Insertion
pub mod Order
use mathlib.Core.List.{Perm}
use secure_vector_search.Prelude.{ℕ, ◌<◌, ◌≡◌, Bool, true, List, length, get_or}

-- `xs.sort_unstable_by(...)`, where `le a b` says that `a` may stand before `b`.
pub record Sorting (A : Type 0) (le : A → A → Bool) : Type 0 where
  pub sort : List A → List A
  pub sort-Perm : (xs : List A) → Perm (sort xs) xs
  pub sort-ordered :
      (xs : List A) (i j : ℕ) (d : A)
      → i < j
      → j < length (sort xs)
      → le (get_or (sort xs) i d) (get_or (sort xs) j d) ≡ true
