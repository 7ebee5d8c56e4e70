-- ===== src/Bntm/Decode.antt =====
-- scorer-bntm/src/crypto.rs: the client's recovery of the scores, the variant that takes the dense
-- terms from the device, and the check of the server's response.
pub mod Algebra
pub mod ZipMap
pub mod Recover
pub mod Verify
use secure_vector_search.Prelude.{
  ℕ, zero, suc, ◌==◌, if◌then◌else◌, Bool, List, [], ◌∷◌, map, length, Option, some, none, ◌>>=◌,
  Result, ok, err,
}
use secure_vector_search.Rng.{Rng}
use secure_vector_search.Bntm.Field.{add_mod, sub_mod}
use secure_vector_search.Bntm.Matvec.{dot_product, mersenne_matvec_transpose}
use secure_vector_search.Bntm.Kernel.{dense_matvec, l_transpose_times_vec}
use secure_vector_search.Bntm.Sparse.{SparseMatrix, dense_times_sparse, sparse_times_dense}
use secure_vector_search.Bntm.Sampling.{sample_fps}
use secure_vector_search.Bntm.Cluster.{EncryptedCluster}
use secure_vector_search.Bntm.Query.{QueryEncoded}

-- `a.iter().zip(b).map(op).collect()`
abbrev pub zip_map : (ℕ → ℕ → ℕ) → List ℕ → List ℕ → List ℕ
zip_map op (x ∷ xs) (y ∷ ys) = op x y ∷ zip_map op xs ys
zip_map op _ _ = []

module _ (avx512f : Bool) where
  unfoldable pub decode_scores :
      List ℕ → EncryptedCluster → List ℕ → QueryEncoded → ℕ → ℕ → Option (List ℕ)
  decode_scores server_response cluster l_subspace encoded n n1 = do
    al_g ← dense_matvec avx512f cluster.a_l cluster.m n1 encoded.g
    m_t ← dense_times_sparse cluster.m_plain cluster.m n encoded.t
    let m_v_prime = zip_map add_mod al_g m_t
    lt_venc ← l_transpose_times_vec l_subspace n n1 encoded.v_enc
    h_lt_venc ← dense_matvec avx512f cluster.h_mat cluster.m n1 lt_venc
    s_venc ← sparse_times_dense cluster.s_mat encoded.v_enc
    let m_prime_v_enc = zip_map add_mod h_lt_venc s_venc
    some (zip_map sub_mod (zip_map sub_mod server_response m_v_prime) m_prime_v_enc)

unfoldable pub decode_scores_with_gpu_dense :
    List ℕ → EncryptedCluster → SparseMatrix → QueryEncoded → List ℕ → ℕ → Option (List ℕ)
decode_scores_with_gpu_dense server_response cluster s_mat encoded dense_gpu n = do
  m_t ← dense_times_sparse cluster.m_plain cluster.m n encoded.t
  s_venc ← sparse_times_dense s_mat encoded.v_enc
  some (zip_map sub_mod (zip_map sub_mod (zip_map sub_mod server_response dense_gpu) m_t) s_venc)

-- `err trial` names the trial that failed.
abbrev pub Verdict : Type 0
Verdict = Result ℕ (Unit {0})

module _ (r : Rng) where
  open r use {State}

  -- One trial: u · r against (u · M_enc) · v_enc.
  unfoldable pub run_trial : ℕ → List ℕ → List ℕ → ℕ → ℕ → List ℕ → State → Option (Bool × State)
  run_trial fuel server_response m_enc m n v_enc rng = do
    (u, rng') ← sample_fps r fuel m rng
    ur ← dot_product u server_response
    z ← mersenne_matvec_transpose m_enc m n u
    zv ← dot_product z v_enc
    some (ur == zv, rng')

  -- The trials left, and the number of the next one.
  unfoldable pub run_trials :
      ℕ → List ℕ → List ℕ → ℕ → ℕ → List ℕ → ℕ → ℕ → State → Option (Verdict × State)
  run_trials fuel server_response m_enc m n v_enc zero trial rng = some (ok tt, rng)
  run_trials fuel server_response m_enc m n v_enc (suc left) trial rng =
      run_trial fuel server_response m_enc m n v_enc rng >>= λ (passed, rng').
      let rest = run_trials fuel server_response m_enc m n v_enc left (suc trial) rng' in
      if passed then rest else some (err trial, rng')

  unfoldable pub verify_response :
      ℕ → List ℕ → List ℕ → ℕ → ℕ → List ℕ → ℕ → State → Option (Verdict × State)
  verify_response fuel server_response m_enc m n v_enc trials rng =
      run_trials fuel server_response m_enc m n v_enc trials 0 rng
