-- ===== src/Bntm/Cluster/Encrypted.antt =====
-- The encrypted matrix and the projection, entry by entry, as exact sums modulo p.
use secure_vector_search.Prelude.{
  ℕ, ◌+◌, ◌*◌, ◌%◌, ◌^◌, ◌≤◌, ◌<◌, u32, ◌≡◌, refl, ap, ◌∙◌, arith, List, nth, get_or,
  get_elem?-eq-get_or, some, sum, collect-tabulate, collect_flat-grid, grid, length-grid,
  get_or-grid, tabulate, take, drop, get_or-take-drop,
}
use secure_vector_search.Rng.{Rng}
use secure_vector_search.Float.{Float}
use secure_vector_search.Bntm.Field.{field_p}
use secure_vector_search.Bntm.Field.Ops.{add_mod-eq-mod}
use secure_vector_search.Bntm.Field.FoldedSum.{folded_sum}
use secure_vector_search.Bntm.Field.FoldedSum.Mod.{folded_sum-eq-sum}
use secure_vector_search.Bntm.Field.Vectors.{IsField-grid}
use secure_vector_search.Bntm.Matvec.{wide_product}
use secure_vector_search.Bntm.Matvec.Product.{
  cell, cell_in_range, product_bound, wide_product_lem, row_slice, length-row, IsField-row,
}
use secure_vector_search.Bntm.Sparse.{SparseMatrix}
use secure_vector_search.Bntm.Sparse.Dense.{dense, sign_value, no_entries, sparse_lookup-dense}
use secure_vector_search.Bntm.Sparse.Products.{match_sign_add}
use secure_vector_search.Bntm.Sampling.Shape.{Accepts}
use secure_vector_search.Bntm.Keys.{IsMatrix, IsSparseMatrix, regenerate_h_s-shapes}
use secure_vector_search.Bntm.Cluster.{
  EncryptedCluster, encrypt_entry, encrypt_row, project_row, encrypt_cluster,
}

-- Row `i` of S, and entry `(i, j)` of M' = HL⊤ + S before reduction.
abbrev pub s_row : SparseMatrix → ℕ → ℕ → ℕ
s_row s i j = dense (get_or s.rows i no_entries) j

abbrev pub mask : List ℕ → SparseMatrix → List ℕ → ℕ → ℕ → ℕ → ℕ
mask h s l n1 i j = sum n1 (λ k. cell h n1 i k * cell l n1 j k) + s_row s i j

-- Entry `(i, k)` of M · L before reduction.
abbrev pub projection : List ℕ → List ℕ → ℕ → ℕ → ℕ → ℕ → ℕ
projection mat l n n1 i k = sum n (λ j. cell mat n i j * cell l n1 j k)

module _ (mat l h : List ℕ) (s : SparseMatrix) (m n n1 : ℕ) (narrow : n ≤ 2 ^ 32)
    (mat_ok : IsMatrix m n mat) (l_ok : IsMatrix n n1 l) (h_ok : IsMatrix m n1 h)
    (s_ok : IsSparseMatrix m n s) where
  abbrev row_of : List ℕ → ℕ → ℕ → List ℕ
  row_of xs cols i = take cols (drop (i * cols) xs)

  entry :
      (i j : ℕ)
      → i < m
      → j < n
      → encrypt_entry (row_of h n1 i) (get_or s.rows i no_entries) (row_of mat n i) l n1 j
        ≡ some ((cell mat n i j + mask h s l n1 i j) % field_p)
  unfolding encrypt_entry
  entry i j hi hj =
      let column : u32 j ≡ j = omega arith in
      let (sign, looked, value) =
        sparse_lookup-dense n (get_or s.rows i no_entries) j (s_ok.sparse i hi) in
      let h_at : (k : ℕ) → k < n1 → nth (row_of h n1 i) k ≡ cell h n1 i k =
        λ k hk. get_or-take-drop h (i * n1) n1 k 0 hk in
      let l_at : (k : ℕ) → k < n1 → nth (row_of l n1 j) k ≡ cell l n1 j k =
        λ k hk. get_or-take-drop l (j * n1) n1 k 0 hk in
      let hl = sum n1 (λ k. cell h n1 i k * cell l n1 j k) in
      let inner =
        folded_sum-eq-sum n1 (λ k. wide_product (row_of h n1 i) k (row_of l n1 j) k)
          (λ k. cell h n1 i k * cell l n1 j k)
          (λ k hk.
            wide_product_lem (row_of h n1 i) k (row_of l n1 j) k
              (omega (arith, length-row h m n1 i h_ok.shape hi))
              (omega (arith, length-row l n n1 j l_ok.shape hj)) (IsField-row h n1 i h_ok.reduced k)
              (IsField-row l n1 j l_ok.reduced k)
            ∙ rw (h_at k hk, l_at k hk) refl)
          (λ k hk. product_bound _ _ (h_ok.reduced (i * n1 + k)) (l_ok.reduced (j * n1 + k))) in
      rw
        (
          row_slice l n n1 j l_ok.shape hj,
          inner,
          column,
          looked,
          get_elem?-eq-get_or (row_of mat n i) j 0
              (omega (arith, length-row mat m n i mat_ok.shape hi)),
          get_or-take-drop mat (i * n) n j 0 hj,
          match_sign_add sign (hl % field_p) 1 (omega arith) (omega arith),
          add_mod-eq-mod (cell mat n i j) ((hl % field_p + sign_value sign * 1) % field_p)
              (mat_ok.reduced (i * n + j)) (omega arith),
        )
        (ap some (omega (arith, value)))

  row_entries :
      (i : ℕ)
      → i < m
      → encrypt_row mat h s l n n1 i
        ≡ some (tabulate n (λ j. (cell mat n i j + mask h s l n1 i j) % field_p))
  unfolding encrypt_row
  row_entries i hi =
      rw
        (
          row_slice h m n1 i h_ok.shape hi,
          get_elem?-eq-get_or s.rows i no_entries (omega (arith, s_ok.count)),
          row_slice mat m n i mat_ok.shape hi,
        )
        (collect-tabulate n
          (encrypt_entry (row_of h n1 i) (get_or s.rows i no_entries) (row_of mat n i) l n1)
          (λ j. (cell mat n i j + mask h s l n1 i j) % field_p) (λ j hj. entry i j hi hj))

  project_entries :
      (i : ℕ)
      → i < m
      → project_row mat l n n1 i ≡ some (tabulate n1 (λ k. projection mat l n n1 i k % field_p))
  unfolding project_row
  project_entries i hi = rw (row_slice mat m n i mat_ok.shape hi) (
      collect-tabulate n1 (λ k. folded_sum n (λ j. wide_product (row_of mat n i) j l (j * n1 + k)))
        (λ k. projection mat l n n1 i k % field_p)
        (λ k hk.
          folded_sum-eq-sum n (λ j. wide_product (row_of mat n i) j l (j * n1 + k))
            (λ j. cell mat n i j * cell l n1 j k)
            (λ j hj.
              wide_product_lem (row_of mat n i) j l (j * n1 + k)
                (omega (arith, length-row mat m n i mat_ok.shape hi))
                (omega (arith, l_ok.shape, cell_in_range j k n n1 hj hk))
                (IsField-row mat n i mat_ok.reduced j) (l_ok.reduced (j * n1 + k))
              ∙ rw (get_or-take-drop mat (i * n) n j 0 hj) refl)
            (λ j hj. product_bound _ _ (mat_ok.reduced (i * n + j)) (l_ok.reduced (j * n1 + k)))))

-- What encryption establishes about its result.
pub record IsEncryption (mat l : List ℕ) (m n n1 : ℕ) (c : EncryptedCluster) : Type 0 where
  pub rows : c.m ≡ m
  pub plain : c.m_plain ≡ mat
  pub h_ok : IsMatrix m n1 c.h_mat
  pub s_ok : IsSparseMatrix m n c.s_mat
  pub enc_ok : IsMatrix m n c.m_enc
  pub enc_value :
      (i j : ℕ)
      → i < m
      → j < n
      → cell c.m_enc n i j ≡ (cell mat n i j + mask c.h_mat c.s_mat l n1 i j) % field_p
  pub proj_ok : IsMatrix m n1 c.a_l
  pub proj_value :
      (i k : ℕ) → i < m → k < n1 → cell c.a_l n1 i k ≡ projection mat l n n1 i k % field_p

-- A row-major table of remainders is a matrix of reduced entries.
grid-IsMatrix : (m n : ℕ) (f : ℕ → ℕ → ℕ) → IsMatrix m n (grid m n (λ i j. f i j % field_p))
grid-IsMatrix m n f = record {
  shape = length-grid m n _;
  reduced = IsField-grid m n _ (λ i j. omega arith);
}

module _ (g : Rng) (f : Float) where
  open f use {F64}

  -- On a matrix and a subspace of the stated shapes, of a width of at most 2^32, with reduced entries and a generator that
  -- accepts in time, encryption returns a cluster: M + HL⊤ + S modulo p as the server's matrix,
  -- M · L modulo p as the projection, H and S well formed, and M kept.
  pub encrypt_cluster-IsEncryption :
      (fuel : ℕ) (mat : List ℕ) (m : ℕ) (l h_seed : List ℕ) (n n1 : ℕ) (mu : F64)
      → Accepts g fuel
      → n ≤ 2 ^ 32
      → IsMatrix m n mat
      → IsMatrix n n1 l
      → (c : EncryptedCluster) × (encrypt_cluster g f fuel mat m l h_seed n n1 mu ≡ some c)
        × IsEncryption mat l m n n1 c
  unfolding encrypt_cluster
  encrypt_cluster-IsEncryption fuel mat m l h_seed n n1 mu accepts narrow mat_ok l_ok =
      let (r, keys, h_ok, s_ok) = regenerate_h_s-shapes g f fuel h_seed m n n1 mu accepts narrow in
      let enc = λ (i j : ℕ). cell mat n i j + mask r.0 r.1 l n1 i j in
      let proj = λ (i k : ℕ). projection mat l n n1 i k in
      let c : EncryptedCluster = record {
        m_enc = grid m n (λ i j. enc i j % field_p);
        h_seed = h_seed;
        m = m;
        a_l = grid m n1 (λ i k. proj i k % field_p);
        m_plain = mat;
        h_mat = r.0;
        s_mat = r.1;
      } in
      (
        c,
        rw
            (
              keys,
              collect_flat-grid m n (encrypt_row mat r.0 r.1 l n n1) (λ i j. enc i j % field_p)
                  (λ i hi. row_entries mat l r.0 r.1 m n n1 narrow mat_ok l_ok h_ok s_ok i hi),
              collect_flat-grid m n1 (project_row mat l n n1) (λ i k. proj i k % field_p)
                  (λ i hi. project_entries mat l r.0 r.1 m n n1 narrow mat_ok l_ok h_ok s_ok i hi),
            )
            refl,
        record {
          rows = refl;
          plain = refl;
          h_ok = h_ok;
          s_ok = s_ok;
          enc_ok = grid-IsMatrix m n enc;
          enc_value = λ i j hi hj. get_or-grid m n (λ i j. enc i j % field_p) i j 0 hi hj;
          proj_ok = grid-IsMatrix m n1 proj;
          proj_value = λ i k hi hk. get_or-grid m n1 (λ i k. proj i k % field_p) i k 0 hi hk;
        },
      )
