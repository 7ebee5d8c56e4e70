-- ===== src/Bntm/Matvec.antt =====
-- scorer-bntm/src/crypto.rs: the dense matrix-vector kernels over F_p, matrices row-major in one
-- list.
pub mod Product
use secure_vector_search.Prelude.{
  ℕ, ◌+◌, ◌*◌, u128, min, List, Option, some, ◌>>=◌, collect, slice, get_elem?, length, for_loop,
}
use secure_vector_search.Bntm.Field.FoldedSum.{folded_sum}

-- `(a[i] as u128) * (b[j] as u128)`
abbrev pub wide_product : List ℕ → ℕ → List ℕ → ℕ → Option ℕ
wide_product a i b j = do x ← get_elem? a i; y ← get_elem? b j; some (u128 (x * y))

unfoldable pub mersenne_matvec_scalar : List ℕ → ℕ → ℕ → List ℕ → Option (List ℕ)
mersenne_matvec_scalar mat rows cols vec = collect rows λ i. do
  row ← slice mat (i * cols) ((i + 1) * cols)
  folded_sum cols (λ j. wide_product row j vec j)

unfoldable pub mersenne_matvec_transpose : List ℕ → ℕ → ℕ → List ℕ → Option (List ℕ)
mersenne_matvec_transpose mat rows cols vec =
    collect cols λ j. folded_sum rows (λ i. wide_product vec i mat (i * cols + j))

unfoldable pub dot_product : List ℕ → List ℕ → Option ℕ
dot_product a b = folded_sum (min (length a) (length b)) (λ i. wide_product a i b i)
