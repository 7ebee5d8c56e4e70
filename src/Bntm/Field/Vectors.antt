-- ===== src/Bntm/Field/Vectors.antt =====
-- Vectors of reduced elements, built by appending and by tables of remainders.
use secure_vector_search.Prelude.{ℕ, zero, suc, ◌<◌, arith, List, [], ◌∷◌, ◌++◌, tabulate, grid}
use secure_vector_search.Bntm.Field.{field_p, IsField}

pub IsField-append : (xs ys : List ℕ) → IsField xs → IsField ys → IsField (xs ++ ys)
IsField-append [] ys hx hy i = hy i
IsField-append (x ∷ xs) ys hx hy zero = hx 0
IsField-append (x ∷ xs) ys hx hy (suc i) = IsField-append xs ys (λ j. hx (suc j)) hy i

IsField-single : (x : ℕ) → x < field_p → IsField (x ∷ [])
IsField-single x h zero = h
IsField-single x h (suc i) = omega arith

pub IsField-tabulate : (n : ℕ) (f : ℕ → ℕ) → ((i : ℕ) → f i < field_p) → IsField (tabulate n f)
unfolding tabulate
IsField-tabulate zero f h = λ i. omega arith
IsField-tabulate (suc n) f h =
    IsField-append (tabulate n f) (f n ∷ []) (IsField-tabulate n f h) (IsField-single (f n) (h n))

pub IsField-grid : (m n : ℕ) (f : ℕ → ℕ → ℕ) → ((i j : ℕ) → f i j < field_p) → IsField (grid m n f)
unfolding grid
IsField-grid zero n f h = λ i. omega arith
IsField-grid (suc m) n f h =
    IsField-append (grid m n f) (tabulate n (f m)) (IsField-grid m n f h)
      (IsField-tabulate n (f m) (λ j. h m j))
