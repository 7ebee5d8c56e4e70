-- ===== src/Tiptoe/SimplePir/Tests.antt =====
-- A database of two rows and two columns.
use secure_vector_search.Prelude.{ℕ, ◌*◌, ◌≡◌, refl, List, [], ◌∷◌, some, grid, length}
use secure_vector_search.Tiptoe.Lwe.{Params}
use secure_vector_search.Tiptoe.SimplePir.{expand_a, preprocess}
use secure_vector_search.Tiptoe.SimplePir.Hint.{product_entry, preprocess_lem}
use secure_vector_search.Tiptoe.Toy.{counter}

abbrev tiny : Params
tiny = record { n = 1; log2_p = 17 }

abbrev database : List ℕ
database = 1 ∷ 2 ∷ 3 ∷ 0 ∷ []

preprocess_lem_example :
    (a : List ℕ) × (a_shape : length a ≡ 2 * 1) × (expand_a counter (4 ∷ []) 2 1 ≡ some a)
    × (preprocess counter database 2 2 (4 ∷ []) tiny
        ≡ some (record {
          seed = 4 ∷ [];
          hint = grid 2 1 (product_entry database a 2 2 1 refl a_shape);
          r = 2;
          c = 2;
          n = 1;
        }))
preprocess_lem_example = preprocess_lem counter database 2 2 (4 ∷ []) tiny refl
