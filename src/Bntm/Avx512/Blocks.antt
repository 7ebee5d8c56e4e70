-- ===== src/Bntm/Avx512/Blocks.antt =====
-- A sum over 8 * q terms, taken lane by lane.
use secure_vector_search.Prelude.{
  ℕ, zero, suc, ◌+◌, ◌*◌, ◌≡◌, refl, ◌∙◌, arith, sum, sum_comm, sum-append,
}

pub sum-blocks : (q : ℕ) (f : ℕ → ℕ) → sum (8 * q) f ≡ sum q (λ c. sum 8 (λ k. f (8 * c + k)))
unfolding sum
sum-blocks zero f = refl
sum-blocks (suc q) f =
    let e : 8 * suc q ≡ 8 * q + 8 = omega arith in
    rw e (omega (arith, sum-append (8 * q) 8 f, sum-blocks q f))

pub sum-lanes : (q : ℕ) (f : ℕ → ℕ) → sum (8 * q) f ≡ sum 8 (λ k. sum q (λ c. f (8 * c + k)))
sum-lanes q f = sum-blocks q f ∙ sum_comm q 8 (λ c k. f (8 * c + k))
