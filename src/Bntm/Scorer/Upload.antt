-- ===== src/Bntm/Scorer/Upload.antt =====
-- What `upload_cluster` returns, on each of its branches.
use secure_vector_search.Prelude.{
  ℕ, ◌≤◌, ◌<◌, lt→ltb, ℤ, ◌∷◌, ◌≡◌, refl, arith, ltb, false, List, [], length, get_or,
  get_elem?-eq-get_or, some, collect_flat, collect_flat-grid, grid, length-grid, ok, err,
}
use secure_vector_search.Rng.{Rng}
use secure_vector_search.Float.{Float}
use secure_vector_search.Bntm.Field.Vectors.{IsField-grid}
use secure_vector_search.Bntm.Params.{dimension, dimension-le, subspace_dimension, mu}
use secure_vector_search.Bntm.Keys.{IsMatrix, generate_subspace-IsMatrix}
use secure_vector_search.Bntm.Sampling.Shape.{Accepts}
use secure_vector_search.Bntm.Cluster.Encrypted.{IsEncryption, encrypt_cluster-IsEncryption}
use secure_vector_search.Bntm.Quantise.{wrap_signed}
use secure_vector_search.Bntm.Quantise.Signed.{wrap_signed-lt}
use secure_vector_search.Bntm.Quantise.Vector.{scaled, quantise_vector_lem}
use secure_vector_search.Bntm.Scorer.{
  BnTmConfig, BnTmHandle, cpu, dimension_too_large, upload_cluster, build_cluster, quantise_row,
}

module _ (f : Float) where
  open f use {F32}

  -- Row `i` of the vectors as integers.
  abbrev pub row_of : List (List F32) → ℕ → F32 → ℕ → ℕ → ℤ
  row_of vectors q d i = scaled f (get_or vectors i []) q d

  -- The quantised matrix.
  abbrev pub quantised : List (List F32) → ℕ → ℕ → F32 → List ℕ
  quantised vectors n q d = grid (length vectors) n (λ i j. wrap_signed (row_of vectors q d i j))

  -- The handle holds the encryption of the quantised vectors under its subspace.
  pub record IsUploaded (config : BnTmConfig) (vectors : List (List F32)) (d : F32) (n1 : ℕ)
      (handle : BnTmHandle) : Type 0 where
    pub params : handle.params ≡ config.params
    pub scale : handle.quantisation_q ≡ config.quantisation_q
    pub verification : handle.verification_enabled ≡ config.verification_enabled
    pub subspace : IsMatrix (dimension config.params) n1 handle.l_subspace
    pub encrypted :
        IsEncryption
          (quantised vectors (dimension config.params) config.quantisation_q d)
          handle.l_subspace
          (length vectors)
          (dimension config.params)
          n1
          handle.cluster

  abbrev pub AllFit : ℕ → List (List F32) → Type 0
  AllFit n vectors = (i : ℕ) → i < length vectors → length (get_or vectors i []) ≤ n

  pub quantised-IsMatrix :
      (vectors : List (List F32)) (n q : ℕ) (d : F32)
      → IsMatrix (length vectors) n (quantised vectors n q d)
  quantised-IsMatrix vectors n q d = record {
    shape = length-grid (length vectors) n (λ i j. wrap_signed (row_of vectors q d i j));
    reduced =
        IsField-grid (length vectors) n (λ i j. wrap_signed (row_of vectors q d i j))
          (λ i j. wrap_signed-lt (row_of vectors q d i j));
  }

module _ (g : Rng) (f : Float) (fuel : ℕ) (accepts : Accepts g fuel) where
  open g use {State}
  open f use {F32}

  module _ (config : BnTmConfig) (vectors : List (List F32)) (h_seed : List ℕ) (d : F32) (n1 : ℕ)
      (dim_ok : subspace_dimension f config.params ≡ some n1)
      (fit : AllFit f (dimension config.params) vectors) where
    abbrev n : ℕ
    n = dimension config.params

    quantise_rows :
        collect_flat (length vectors) (quantise_row g f fuel vectors n config.quantisation_q)
        ≡ some (quantised f vectors n config.quantisation_q d)
    unfolding quantise_row
    quantise_rows =
        collect_flat-grid (length vectors) n (quantise_row g f fuel vectors n config.quantisation_q)
          (λ i j. wrap_signed (row_of f vectors config.quantisation_q d i j))
          (λ i hi.
            rw (get_elem?-eq-get_or vectors i [] hi)
              (quantise_vector_lem f (get_or vectors i []) n config.quantisation_q d (fit i hi)))

    first_fits : ltb n (length (get_or vectors 0 [])) ≡ false
    first_fits = no_vector vectors fit
      where
        no_vector : (vs : List (List F32)) → AllFit f n vs → ltb n (length (get_or vs 0 [])) ≡ false
        no_vector [] h = ground arith
        no_vector (v ∷ vs) h = ground (arith, h 0 (omega arith))

    -- On the CPU, with vectors that fit the dimension, an upload succeeds, and its handle holds
    -- an encryption of the quantised vectors.
    pub upload_cluster-IsUploaded :
        config.device ≡ cpu
        → (handle : BnTmHandle) × (upload_cluster g f fuel config vectors h_seed ≡ some (ok handle))
          × IsUploaded f config vectors d n1 handle
    unfolding upload_cluster build_cluster
    upload_cluster-IsUploaded on_cpu =
        let (l, run_l, l_ok) = generate_subspace-IsMatrix g fuel config.key_seed n n1 accepts in
        let mat = quantised f vectors n config.quantisation_q d in
        let (c, run_c, c_ok) =
          encrypt_cluster-IsEncryption g f fuel mat (length vectors) l h_seed n n1
            (mu f config.params) accepts (dimension-le config.params)
            (quantised-IsMatrix f vectors n config.quantisation_q d) l_ok in
        let handle : BnTmHandle = record {
          cluster = c;
          l_subspace = l;
          params = config.params;
          dim = length (get_or vectors 0 []);
          verification_enabled = config.verification_enabled;
          quantisation_q = config.quantisation_q;
        } in
        (
          handle,
          rw (first_fits, quantise_rows, dim_ok, run_l, run_c, on_cpu) refl,
          record {
            params = refl;
            scale = refl;
            verification = refl;
            subspace = l_ok;
            encrypted = c_ok;
          },
        )

-- A first vector longer than the dimension is refused before anything is built.
pub upload_cluster_too_large :
    (g : Rng) (f : Float) (fuel : ℕ) (config : BnTmConfig) (v : List (f.F32))
    (vs : List (List (f.F32))) (h_seed : List ℕ)
    → dimension config.params < length v
    → upload_cluster g f fuel config (v ∷ vs) h_seed
      ≡ some (err (dimension_too_large (length v) (dimension config.params)))
unfolding upload_cluster
upload_cluster_too_large g f fuel config v vs h_seed large =
    rw (lt→ltb (dimension config.params) (length v) large) refl
