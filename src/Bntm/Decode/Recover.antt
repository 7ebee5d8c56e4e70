-- ===== src/Bntm/Decode/Recover.antt =====
-- The client recovers M · v from the server's product.
use native.Mathlib.Nat.{mod-mod}
use secure_vector_search.Prelude.{
  ℕ, ◌+◌, ◌-◌, ◌*◌, ◌%◌, ◌<◌, ◌≡◌, refl, ap, sym, Option, ◌∙◌, arith, Bool, List, nth, some, ◌>>=◌,
  sum, sum_congr_mod, mul_congr_mod, mul_congr_mod_right, tabulate, tabulate_congr, length-tabulate,
  get_or-tabulate,
}
use secure_vector_search.Bntm.Field.{field_p, IsField, add_mod, sub_mod}
use secure_vector_search.Bntm.Field.Ops.{add_mod-eq-mod, sub_mod-eq-mod}
use secure_vector_search.Bntm.Field.Vectors.{IsField-tabulate}
use secure_vector_search.Bntm.Matvec.Product.{cell, row_sum, column_sum, matvec_transpose-eq-sums}
use secure_vector_search.Bntm.Kernel.{
  compute_products, dense_matvec, l_transpose_times_vec, mersenne_matvec,
}
use secure_vector_search.Bntm.Kernel.Agree.{product_mod, mersenne_matvec-eq-product}
use secure_vector_search.Bntm.Sparse.Dense.{dense}
use secure_vector_search.Bntm.Sparse.Products.{sparse_times_dense-eq-sums}
use secure_vector_search.Bntm.Sparse.Columns.{dense_times_sparse-eq-sums}
use secure_vector_search.Bntm.Keys.{IsMatrix}
use secure_vector_search.Bntm.Cluster.{EncryptedCluster}
use secure_vector_search.Bntm.Cluster.Encrypted.{IsEncryption, s_row, projection}
use secure_vector_search.Bntm.Query.{QueryEncoded}
use secure_vector_search.Bntm.Query.Encoded.{IsEncoding}
use secure_vector_search.Bntm.Decode.{zip_map, decode_scores}
use secure_vector_search.Bntm.Decode.Algebra.{response_split}
use secure_vector_search.Bntm.Decode.ZipMap.{zip_map-tabulate}

-- Taking both corrections from the response leaves the score.
recover_score :
    (score a b c d r a' c' : ℕ)
    → r ≡ (score + (a + b) + (c + d)) % field_p
    → a' ≡ a % field_p
    → c' ≡ c % field_p
    → sub_mod (sub_mod r (add_mod a' (b % field_p))) (add_mod c' (d % field_p)) ≡ score % field_p
recover_score score a b c d r a' c' er ea ec =
    let e1 = add_mod-eq-mod a' (b % field_p) (omega arith) (omega arith) in
    let e2 = add_mod-eq-mod c' (d % field_p) (omega arith) (omega arith) in
    rw
      (
        e1,
        e2,
        sub_mod-eq-mod r ((a' + b % field_p) % field_p) (omega arith) (omega arith),
        sub_mod-eq-mod ((r + field_p - (a' + b % field_p) % field_p) % field_p)
            ((c' + d % field_p) % field_p) (omega arith) (omega arith),
      )
      (omega arith)

module _ (avx512f : Bool) (mat l v : List ℕ) (m n n1 : ℕ) (c : EncryptedCluster) (q : QueryEncoded)
    (mat_ok : IsMatrix m n mat) (l_ok : IsMatrix n n1 l) (c_ok : IsEncryption mat l m n n1 c)
    (q_ok : IsEncoding v l n n1 q) where
  abbrev sparse_part : ℕ → ℕ
  sparse_part i = sum n (λ j. dense q.t j * cell mat n i j)

  abbrev dense_part : ℕ → ℕ
  dense_part i = sum n1 (λ k. projection mat l n n1 i k * nth q.g k)

  abbrev mask_part : ℕ → ℕ
  mask_part i = sum n1 (λ k. cell c.h_mat n1 i k * column_sum l n n1 q.v_enc k)

  abbrev s_part : ℕ → ℕ
  s_part i = sum n (λ j. s_row c.s_mat i j * nth q.v_enc j)

  abbrev lt_venc : List ℕ
  lt_venc = tabulate n1 (λ k. column_sum l n n1 q.v_enc k % field_p)

  row_split :
      (i : ℕ)
      → i < m
      → row_sum c.m_enc n q.v_enc i % field_p
        ≡ (row_sum mat n v i + (dense_part i + sparse_part i) + (mask_part i + s_part i)) % field_p
  row_split i hi =
      response_split n n1 (cell mat n i) (s_row c.s_mat i) (cell c.m_enc n i) (nth v) (dense q.t)
        (nth q.v_enc) (cell c.h_mat n1 i) (nth q.g) (cell l n1) (λ j hj. c_ok.enc_value i j hi hj)
        q_ok.value

  al_g_value : (i : ℕ) → i < m → row_sum c.a_l n1 q.g i % field_p ≡ dense_part i % field_p
  al_g_value i hi = sum_congr_mod field_p n1 _ _ (λ k hk.
      mul_congr_mod field_p (cell c.a_l n1 i k) (projection mat l n n1 i k) (nth q.g k)
        (ap (λ (x : ℕ). x % field_p) (c_ok.proj_value i k hi hk) ∙ mod-mod _ field_p))

  h_value : (i : ℕ) → row_sum c.h_mat n1 lt_venc i % field_p ≡ mask_part i % field_p
  h_value i = sum_congr_mod field_p n1 _ _ (λ k hk.
      mul_congr_mod_right field_p (nth lt_venc k) (column_sum l n n1 q.v_enc k)
        (cell c.h_mat n1 i k)
        (ap (λ (x : ℕ). x % field_p)
            (get_or-tabulate n1 (λ k. column_sum l n n1 q.v_enc k % field_p) k 0 hk)
          ∙ mod-mod _ field_p))

  decode_steps :
      (r : List ℕ)
      → decode_scores avx512f r c l q n n1
        ≡ some (
            zip_map sub_mod
              (zip_map sub_mod r (
                zip_map add_mod
                  (product_mod c.a_l m n1 q.g)
                  (tabulate m (λ i. sparse_part i % field_p))))
              (zip_map add_mod
                (product_mod c.h_mat m n1 lt_venc)
                (tabulate m (λ i. s_part i % field_p))))
  unfolding decode_scores dense_matvec l_transpose_times_vec
  decode_steps r =
      let lt_red : IsField lt_venc =
        IsField-tabulate n1 (λ k. column_sum l n n1 q.v_enc k % field_p) (λ k. omega arith) in
      let s_terms =
        sparse_times_dense-eq-sums c.s_mat q.v_enc n
          (λ i hi. c_ok.s_ok.sparse i (omega (arith, c_ok.s_ok.count))) q_ok.size q_ok.reduced in
      rw
        (
          c_ok.rows,
          c_ok.plain,
          mersenne_matvec-eq-product c.a_l q.g m n1 c_ok.proj_ok.shape q_ok.g_size
              c_ok.proj_ok.reduced q_ok.g_reduced avx512f,
          dense_times_sparse-eq-sums mat m n q.t mat_ok.shape mat_ok.reduced q_ok.t_sparse,
          matvec_transpose-eq-sums l q.v_enc n n1 l_ok.shape l_ok.reduced q_ok.reduced q_ok.size,
          mersenne_matvec-eq-product c.h_mat lt_venc m n1 c_ok.h_ok.shape
              (length-tabulate n1 (λ k. column_sum l n n1 q.v_enc k % field_p)) c_ok.h_ok.reduced
              lt_red avx512f,
          s_terms,
          c_ok.s_ok.count,
        )
        refl

  pub server_product :
      compute_products avx512f c.m_enc c.m n q.v_enc ≡ some (product_mod c.m_enc m n q.v_enc)
  unfolding compute_products
  server_product =
      ap (λ (k : ℕ). mersenne_matvec avx512f c.m_enc k n q.v_enc) c_ok.rows
      ∙ mersenne_matvec-eq-product c.m_enc q.v_enc m n c_ok.enc_ok.shape q_ok.size
          c_ok.enc_ok.reduced q_ok.reduced avx512f

  -- The server's product of the encrypted matrix by the encoded query decodes to the product of
  -- the plaintext matrix by the plaintext query, modulo p, whichever kernel is built.
  pub decode-compute :
      (compute_products avx512f c.m_enc c.m n q.v_enc >>= λ r. decode_scores avx512f r c l q n n1)
      ≡ some (product_mod mat m n v)
  decode-compute =
      let response = λ (i : ℕ). row_sum c.m_enc n q.v_enc i % field_p in
      let al_g = λ (i : ℕ). row_sum c.a_l n1 q.g i % field_p in
      let h_venc = λ (i : ℕ). row_sum c.h_mat n1 lt_venc i % field_p in
      rw
        (
          server_product,
          decode_steps (product_mod c.m_enc m n q.v_enc),
          zip_map-tabulate add_mod m al_g (λ i. sparse_part i % field_p),
          zip_map-tabulate add_mod m h_venc (λ i. s_part i % field_p),
          zip_map-tabulate sub_mod m response (λ i. add_mod (al_g i) (sparse_part i % field_p)),
          zip_map-tabulate sub_mod m
              (λ i. sub_mod (response i) (add_mod (al_g i) (sparse_part i % field_p)))
              (λ i. add_mod (h_venc i) (s_part i % field_p)),
        )
        (ap some (
          tabulate_congr m _ (λ i. row_sum mat n v i % field_p)
            (λ i hi.
              recover_score (row_sum mat n v i) (dense_part i) (sparse_part i) (mask_part i)
                (s_part i) (response i) (al_g i) (h_venc i) (row_split i hi) (al_g_value i hi)
                (h_value i))))

  -- The client's step alone.
  pub decode_honest :
      decode_scores avx512f (product_mod c.m_enc m n q.v_enc) c l q n n1
      ≡ some (product_mod mat m n v)
  decode_honest =
      sym
        (ap (λ (o : Option (List ℕ)). o >>= λ r. decode_scores avx512f r c l q n n1) server_product)
      ∙ decode-compute
