-- ===== src/Tiptoe/Toy.antt =====
-- A generator that counts, and the arithmetic of the tests on the numbers 0 to 3.
use secure_vector_search.Prelude.{ℕ, suc, ℤ, pos, Bool, true, [], length}
use secure_vector_search.Rng.{Rng}
use secure_vector_search.Ivf.Toy.{Toy, n0, bits}

abbrev pub counter : Rng
counter = record {
  State = ℕ;
  from_seed = λ seed. length seed;
  next_u64 = λ s. (s, suc s);
  next_u32 = λ s. (s, suc s);
  random_seed = λ s. ([], s);
}

abbrev pub scaled : Toy → ℕ → ℤ
scaled x mag = pos (bits x)

abbrev pub ratio : ℤ → ℕ → Toy
ratio z mag = n0

abbrev pub always : Toy → Bool
always x = true
