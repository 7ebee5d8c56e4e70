-- ===== src/Bntm/Cluster.antt =====
-- scorer-bntm/src/crypto.rs: the encryption of a cluster.
pub mod Encrypted
use secure_vector_search.Prelude.{
  ℕ, ◌+◌, ◌*◌, u32, List, length, get_elem?, Option, some, none, ◌>>=◌, collect_flat, collect,
  slice,
}
use secure_vector_search.Rng.{Rng}
use secure_vector_search.Float.{Float}
use secure_vector_search.Bntm.Field.{add_mod, sub_mod}
use secure_vector_search.Bntm.Field.FoldedSum.{folded_sum}
use secure_vector_search.Bntm.Matvec.{wide_product}
use secure_vector_search.Bntm.Sparse.{SparseVec, SparseMatrix, match_sign, sparse_lookup}
use secure_vector_search.Bntm.Sampling.{regenerate_h_s}

-- Server and client state of one cluster. Both forms of `Storage`, the owned vector and the
-- memory-mapped region, are read as the list that `as_slice` gives.
pub record EncryptedCluster : Type 0 where
  pub m_enc : List ℕ
  pub h_seed : List ℕ
  pub m : ℕ
  pub a_l : List ℕ
  pub m_plain : List ℕ
  pub h_mat : List ℕ
  pub s_mat : SparseMatrix

-- One entry of M + HL⊤ + S.
unfoldable pub encrypt_entry : List ℕ → SparseVec → List ℕ → List ℕ → ℕ → ℕ → Option ℕ
encrypt_entry h_row s_row mat_row l_subspace n1 j = do
  l_row ← slice l_subspace (j * n1) ((j + 1) * n1)
  hl ← folded_sum n1 (λ k. wide_product h_row k l_row k)
  s_term ← sparse_lookup s_row (u32 j)
  x ← get_elem? mat_row j
  some (add_mod x (match_sign s_term (add_mod hl 1) (sub_mod hl 1) hl))

unfoldable pub encrypt_row : List ℕ → List ℕ → SparseMatrix → List ℕ → ℕ → ℕ → ℕ → Option (List ℕ)
encrypt_row m_matrix h_mat s_mat l_subspace n n1 i = do
  h_row ← slice h_mat (i * n1) ((i + 1) * n1)
  s_row ← get_elem? s_mat.rows i
  mat_row ← slice m_matrix (i * n) ((i + 1) * n)
  collect n (encrypt_entry h_row s_row mat_row l_subspace n1)

-- Row `i` of M · L.
unfoldable pub project_row : List ℕ → List ℕ → ℕ → ℕ → ℕ → Option (List ℕ)
project_row m_matrix l_subspace n n1 i = do
  mat_row ← slice m_matrix (i * n) ((i + 1) * n)
  collect n1 (λ k. folded_sum n (λ j. wide_product mat_row j l_subspace (j * n1 + k)))

module _ (g : Rng) (f : Float) where
  open f use {F64}

  -- `n`, `n1` and `mu` are those of the parameter set.
  unfoldable pub encrypt_cluster :
      ℕ → List ℕ → ℕ → List ℕ → List ℕ → ℕ → ℕ → F64 → Option EncryptedCluster
  encrypt_cluster fuel m_matrix m l_subspace h_seed n n1 mu = do
    (h_mat, s_mat) ← regenerate_h_s g f fuel h_seed m n n1 mu
    m_enc ← collect_flat m (encrypt_row m_matrix h_mat s_mat l_subspace n n1)
    a_l ← collect_flat m (project_row m_matrix l_subspace n n1)
    some (record {
      m_enc = m_enc;
      h_seed = h_seed;
      m = m;
      a_l = a_l;
      m_plain = m_matrix;
      h_mat = h_mat;
      s_mat = s_mat;
    })
