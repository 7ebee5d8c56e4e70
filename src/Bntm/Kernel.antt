-- ===== src/Bntm/Kernel.antt =====
-- scorer-bntm/src/crypto.rs: the dispatching matrix-vector product, its wrappers, and the batched
-- product.
pub mod Agree
pub mod Batch
use secure_vector_search.Prelude.{
  ℕ, ◌+◌, ◌*◌, ◌%◌, ◌&&◌, ltb, ◌==◌, if◌then◌else◌, u128, Bool, List, [], map, length, replicate,
  Option, some, none, get_elem?, ◌>>=◌, collect, slice, for_loop,
}
use secure_vector_search.Bntm.Field.{mersenne_reduce}
use secure_vector_search.Bntm.Field.FoldedSum.{mac_step}
use secure_vector_search.Bntm.Matvec.{mersenne_matvec_scalar, mersenne_matvec_transpose}
use secure_vector_search.Bntm.Avx512.{mersenne_matvec_avx512}

-- `avx512f` says whether the build enables that target feature.
module _ (avx512f : Bool) where
  unfoldable pub mersenne_matvec : List ℕ → ℕ → ℕ → List ℕ → Option (List ℕ)
  mersenne_matvec mat rows cols vec =
      if avx512f && (ltb 0 cols && cols % 8 == 0)
      then mersenne_matvec_avx512 mat rows cols vec
      else mersenne_matvec_scalar mat rows cols vec

  unfoldable pub compute_products : List ℕ → ℕ → ℕ → List ℕ → Option (List ℕ)
  compute_products m_enc m n v_enc = mersenne_matvec m_enc m n v_enc

  unfoldable pub dense_matvec : List ℕ → ℕ → ℕ → List ℕ → Option (List ℕ)
  dense_matvec mat rows cols vec = mersenne_matvec mat rows cols vec

unfoldable pub l_transpose_times_vec : List ℕ → ℕ → ℕ → List ℕ → Option (List ℕ)
l_transpose_times_vec l n n1 v = mersenne_matvec_transpose l n n1 v

-- Column `j` of one row against every query: each accumulator takes one round.
unfoldable pub batch_column : List ℕ → List (List ℕ) → ℕ → List ℕ → Option (List ℕ)
batch_column row v_encs j accs = do
  row_j ← get_elem? row j
  collect (length v_encs) λ q_idx. do
    v_enc ← get_elem? v_encs q_idx
    v_j ← get_elem? v_enc j
    acc ← get_elem? accs q_idx
    some (mac_step j (u128 (row_j * v_j)) acc)

unfoldable pub batch_row : List ℕ → ℕ → List (List ℕ) → Option (List ℕ)
batch_row row n v_encs = do
  accs ← for_loop n (batch_column row v_encs) (replicate (length v_encs) 0)
  some (map mersenne_reduce accs)

-- Rows first, then the transposition into one list for each query.
unfoldable pub compute_products_batch : List ℕ → ℕ → ℕ → List (List ℕ) → Option (List (List ℕ))
compute_products_batch m_enc m n v_encs =
    let results = (do
      row_outs ← collect m λ i. do row ← slice m_enc (i * n) ((i + 1) * n); batch_row row n v_encs
      collect (length v_encs)
          λ q_idx. collect m λ i. do row_out ← get_elem? row_outs i; get_elem? row_out q_idx) in
    if length v_encs == 0 then some [] else results
