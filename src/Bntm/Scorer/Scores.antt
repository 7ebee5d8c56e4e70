-- ===== src/Bntm/Scorer/Scores.antt =====
-- A query on an uploaded cluster returns the best rows by their integer inner products.
use secure_vector_search.Prelude.{
  ℕ, ◌+◌, ◌-◌, ◌*◌, ◌/◌, ◌%◌, ◌≤◌, ◌<◌, ◌≡◌, refl, ap, ap₂, ◌∙◌, arith, min, ltb, ℤ, sum, sum_congr,
  Bool, false, List, map, take, length, nth, some, tabulate, tabulate_congr, grid, length-tabulate,
  get_or-tabulate, get_or-grid, ok, u32, Bool-cases, inl, inr,
}
use secure_vector_search.Rng.{Rng}
use secure_vector_search.Float.{Float}
use secure_vector_search.Sorting.{Sorting}
use secure_vector_search.Bntm.Field.{field_p}
use secure_vector_search.Bntm.Field.Vectors.{IsField-tabulate}
use secure_vector_search.Bntm.Params.{
  dimension, dimension-le, subspace_dimension, mu, verification_trials,
}
use secure_vector_search.Bntm.Matvec.Product.{row_sum}
use secure_vector_search.Bntm.Kernel.Agree.{product_mod}
use secure_vector_search.Bntm.Keys.{IsMatrix}
use secure_vector_search.Bntm.Sampling.Shape.{Accepts}
use secure_vector_search.Bntm.Query.{QueryEncoded}
use secure_vector_search.Bntm.Query.Encoded.{IsEncoding, encode_query-IsEncoding}
use secure_vector_search.Bntm.Decode.Recover.{server_product, decode_honest}
use secure_vector_search.Bntm.Quantise.{quantise_vector, wrap_signed, fp_to_signed}
use secure_vector_search.Bntm.Quantise.Signed.{
  product_pos, product_neg, inner_product, signed_score, wrap_signed-lt,
}
use secure_vector_search.Bntm.Quantise.Vector.{scaled, quantise_vector_lem}
use secure_vector_search.Bntm.Scorer.{
  protocol2, BnTmConfig, BnTmHandle, Hit, before, score, respond, rank, finish, verify,
}
use secure_vector_search.Bntm.Scorer.Upload.{row_of, quantised, quantised-IsMatrix, IsUploaded}
use secure_vector_search.Bntm.Scorer.Honest.{domain_separate_lem}
use secure_vector_search.Bntm.Decode.Verify.{verify_response_complete}

-- The inner product is in the range of the lift.
abbrev pub InRange : ℕ → (ℕ → ℤ) → (ℕ → ℤ) → Type 0
InRange n a b =
    (sum n (λ j. product_pos (a j) (b j)) < sum n (λ j. product_neg (a j) (b j)) + field_p / 2)
    × (sum n (λ j. product_neg (a j) (b j))
        ≤ sum n (λ j. product_pos (a j) (b j)) + (field_p - field_p / 2))

-- The lifted product of wrapped integers is the integer inner product.
lifted_product :
    (m n : ℕ) (a : ℕ → ℕ → ℤ) (b : ℕ → ℤ) (i : ℕ)
    → i < m
    → InRange n (a i) b
    → fp_to_signed (
        nth
          (product_mod
            (grid m n (λ i j. wrap_signed (a i j)))
            m
            n
            (tabulate n (λ j. wrap_signed (b j))))
          i)
      ≡ inner_product n (a i) b
lifted_product m n a b i hi range =
    let mat = grid m n (λ i j. wrap_signed (a i j)) in
    let v = tabulate n (λ j. wrap_signed (b j)) in
    signed_score n (a i) b _
      (get_or-tabulate m (λ i. row_sum mat n v i % field_p) i 0 hi
        ∙ ap (λ (t : ℕ). t % field_p)
            (sum_congr n _ _ (λ j hj.
              ap₂ ◌*◌ (get_or-grid m n (λ i j. wrap_signed (a i j)) i j 0 hi hj)
                (get_or-tabulate n (λ j. wrap_signed (b j)) j 0 hj))))
      range.0 range.1

module _ (f : Float) where
  open f use {F32}

  -- Identifiers with the integer inner products of the quantised rows with the quantised query.
  abbrev pub scores_of : List (List F32) → List F32 → ℕ → ℕ → F32 → List (ℕ × ℤ)
  scores_of vectors query n q d =
      tabulate (length vectors)
        (λ i. (i, inner_product n (row_of f vectors q d i) (scaled f query q d)))

  abbrev pub to_hit : (ℤ → F32) → ℕ × ℤ → Hit f
  to_hit to_f32 (id, score) = record { id = u32 id; score = to_f32 score }

module _ (g : Rng) (f : Float) (fuel : ℕ) (accepts : Accepts g fuel) (avx512f : Bool)
    (to_f32 : ℤ → f.F32) (s : Sorting (ℕ × ℤ) before) where
  open g use {State, from_seed}
  open f use {F32}

  module _ (config : BnTmConfig) (vectors : List (List F32)) (d : F32) (n1 : ℕ)
      (handle : BnTmHandle) (dim_ok : subspace_dimension f config.params ≡ some n1)
      (up : IsUploaded f config vectors d n1 handle) (query : List F32) (k : ℕ) (q_seed : List ℕ)
      (fits : length query ≤ dimension config.params) where
    abbrev n : ℕ
    n = dimension config.params

    abbrev m : ℕ
    m = length vectors

    abbrev row : ℕ → ℕ → ℤ
    row = row_of f vectors config.quantisation_q d

    abbrev target : ℕ → ℤ
    target = scaled f query config.quantisation_q d

    abbrev v_q : List ℕ
    v_q = tabulate n (λ j. wrap_signed (target j))

    abbrev mat : List ℕ
    mat = quantised f vectors n config.quantisation_q d

    mat_ok : IsMatrix m n mat
    mat_ok = quantised-IsMatrix f vectors n config.quantisation_q d

    respond_lem :
        (q : QueryEncoded) × (respond g f fuel avx512f to_f32 s handle v_q q_seed
          ≡ some (product_mod handle.cluster.m_enc m n q.v_enc, q))
        × IsEncoding v_q handle.l_subspace n n1 q
    unfolding respond
    respond_lem =
        let (q, run, q_ok) =
          encode_query-IsEncoding g f fuel v_q handle.l_subspace (from_seed q_seed) n n1
            (mu f config.params) accepts (dimension-le config.params)
            (length-tabulate n (λ j. wrap_signed (target j)))
            (IsField-tabulate n (λ j. wrap_signed (target j)) (λ j. wrap_signed-lt (target j)))
            up.subspace in
        (
          q.0,
          rw
              (
                up.params,
                dim_ok,
                run,
                server_product avx512f mat handle.l_subspace v_q m n n1 handle.cluster q.0 mat_ok
                    up.subspace up.encrypted q_ok,
              )
              refl,
          q_ok,
        )

    abbrev scored : List (ℕ × ℤ)
    scored = scores_of f vectors query n config.quantisation_q d

    rank_lem :
        (q : QueryEncoded)
        → IsEncoding v_q handle.l_subspace n n1 q
        → ((i : ℕ) → i < m → InRange n (row i) target)
        → rank g f fuel avx512f to_f32 s handle k (product_mod handle.cluster.m_enc m n q.v_enc) q
          ≡ some (map (to_hit f to_f32) (take (min k m) (s.sort scored)))
    unfolding rank
    rank_lem q q_ok range =
        let lifted : tabulate m (λ i. (i, fp_to_signed (nth (product_mod mat m n v_q) i)))
            ≡ scored =
          tabulate_congr m _ _
            (λ i hi. ap (λ (x : ℤ). (i, x)) (lifted_product m n row target i hi (range i hi))) in
        rw
          (
            up.params,
            dim_ok,
            decode_honest avx512f mat handle.l_subspace v_q m n n1 handle.cluster q mat_ok
                up.subspace up.encrypted q_ok,
            up.encrypted.rows,
            length-tabulate m (λ i. row_sum mat n v_q i % field_p),
            lifted,
          )
          refl

    verify_lem :
        (q : QueryEncoded)
        → IsEncoding v_q handle.l_subspace n n1 q
        → length q_seed ≡ 32
        → verify g f fuel avx512f to_f32 s handle q_seed
            (product_mod handle.cluster.m_enc m n q.v_enc)
            q
          ≡ some (ok tt)
    unfolding verify
    verify_lem q q_ok size =
        let (out, separated) = domain_separate_lem g q_seed protocol2 size in
        let seed = (g.random_seed (from_seed out)).0 in
        let response = λ (i : ℕ). row_sum handle.cluster.m_enc n q.v_enc i % field_p in
        let (rng, run) =
          verify_response_complete g (product_mod handle.cluster.m_enc m n q.v_enc)
            handle.cluster.m_enc q.v_enc m n (length-tabulate m response)
            (IsField-tabulate m response (λ i. omega arith)) up.encrypted.enc_ok q_ok.size
            q_ok.reduced fuel (verification_trials config.params) (from_seed seed) accepts refl in
        rw (separated, up.params, up.encrypted.rows, run) refl

    -- A query that fits, on a handle that `upload_cluster` built, returns the first k rows of a
    -- descending sort by integer inner product, with and without the check of the response.
    pub score_lem :
        length q_seed ≡ 32
        → ((i : ℕ) → i < m → InRange n (row i) target)
        → score g f fuel avx512f to_f32 s handle query k q_seed
          ≡ some (ok (map (to_hit f to_f32) (take (min k m) (s.sort scored))))
    unfolding score finish
    score_lem size range =
        let (q, run, q_ok) = respond_lem in
        let fit : ltb (dimension handle.params) (length query) ≡ false =
          rw up.params (ground arith) in
        let quantised : quantise_vector f query (dimension handle.params) handle.quantisation_q
            ≡ some v_q =
          rw (up.params, up.scale) (quantise_vector_lem f query n config.quantisation_q d fits) in
        rw (fit, quantised, run, verify_lem q q_ok size, rank_lem q q_ok range)
          (elim (Bool-cases handle.verification_enabled) [ inl e ↦ rw e refl | inr e ↦ rw e refl ])
