-- ===== src/Bntm/Tests.antt =====
-- Concrete inputs for scorer-bntm: a small generator, integer floats, one cluster and one query.
use secure_vector_search.Prelude.{
  map, take, ℤ, ◌≤◌, ◌*◌, ◌/◌, min, replicate, ltb→lt, leb→le, pos_part, ok, ℕ, zero, suc, ◌+◌, ◌-◌,
  ◌*◌, ◌/◌, ◌%◌, ◌<◌, ◌^◌, ◌≡◌, ◌≢◌, ◌↔◌, refl, arith, bit_and, bit_and_mask, ltb, Bool, true,
  false, ◌&&◌, pos, negsuc, List, [], ◌∷◌, length, nth, get_or, get_elem?, collect, sum, tabulate,
  some, ◌>>=◌,
}
use secure_vector_search.Rng.{Rng, skip_u64}
use secure_vector_search.Float.{Float}
use secure_vector_search.Bntm.Field.{field_p, IsField, mersenne_reduce}
use secure_vector_search.Bntm.Field.Reduce.{mersenne_reduce-eq-mod}
use secure_vector_search.Bntm.Avx512.{avx512_row_dot}
use secure_vector_search.Bntm.Avx512.Row.{avx512_row_dot-eq-sum}
use secure_vector_search.Bntm.Kernel.{mersenne_matvec, compute_products, compute_products_batch}
use secure_vector_search.Bntm.Kernel.Agree.{product_mod, mersenne_matvec-eq-product}
use secure_vector_search.Bntm.Kernel.Batch.{products_batch-eq-collect}
use secure_vector_search.Bntm.Matvec.Product.{row_sum, cell}
use secure_vector_search.Bntm.Sparse.{SparseVec, sparse_lookup, dense_times_sparse}
use secure_vector_search.Bntm.Sparse.Search.{IsIncreasing}
use secure_vector_search.Bntm.Sparse.Dense.{IsSparse, dense, sign_value, sparse_lookup-dense}
use secure_vector_search.Bntm.Sparse.Columns.{dense_times_sparse-eq-sums}
use secure_vector_search.Bntm.Sampling.{sample_fps, sample_sparse_pm1, sparse_threshold}
use secure_vector_search.Bntm.Sampling.Shape.{Accepts}
use secure_vector_search.Bntm.Sampling.Columns.{column_sign, state_before, sample_sparse_pm1_lem}
use secure_vector_search.Bntm.Keys.{IsMatrix}
use secure_vector_search.Bntm.Cluster.{EncryptedCluster, encrypt_cluster}
use secure_vector_search.Bntm.Cluster.Encrypted.{IsEncryption, encrypt_cluster-IsEncryption}
use secure_vector_search.Bntm.Query.{QueryEncoded, encode_query}
use secure_vector_search.Bntm.Query.Encoded.{IsEncoding, encode_query-IsEncoding}
use secure_vector_search.Bntm.Decode.Recover.{decode-compute}
use secure_vector_search.Bntm.Decode.{decode_scores, run_trial, verify_response}
use secure_vector_search.Bntm.Decode.Verify.{run_trial_iff, verify_response_complete}
use secure_vector_search.Bntm.Quantise.{wrap_signed, quantise_vector}
use secure_vector_search.Bntm.Quantise.Vector.{scaled, quantise_vector_lem}
use secure_vector_search.Sorting.{Sorting}
use secure_vector_search.Sorting.Insertion.{insertion}
use secure_vector_search.Bntm.Params.{
  sec128, dimension, delta_pow2, delta, mu, epsilon, subspace_dimension,
}
use secure_vector_search.Bntm.Scorer.{
  BnTmConfig, BnTmHandle, cpu, before, le_ℤ, upload_cluster, score,
}
use secure_vector_search.Bntm.Scorer.Upload.{AllFit, IsUploaded, row_of, upload_cluster-IsUploaded}
use secure_vector_search.Bntm.Scorer.Scores.{InRange, scores_of, to_hit, score_lem}

abbrev toy_rng : Rng
toy_rng = record {
  State = ℕ;
  from_seed = λ seed. length seed;
  next_u64 = λ s. (s % 7 + 3, suc s);
  next_u32 = λ s. (s * 5 % 16, suc s);
  random_seed = λ s. (s ∷ [], suc s);
}

-- Fixed-point numbers of 16 fractional bits; every power is one.
abbrev toy_float : Float
toy_float = record {
  F32 = ℕ;
  F64 = ℕ;
  decimal = λ n k. n * 65536 / 10 ^ k;
  of_u64 = λ n. n * 65536;
  to_u64 = λ n. n / 65536;
  sub = λ a b. a - b;
  mul = λ a b. a * b / 65536;
  div = λ a b. a * 65536 / b;
  powf = λ a b. 65536;
  lt = ltb;
  of_f32 = λ n. n;
  round_i64 = λ n. pos ((n + 32768) / 65536);
}

toy_rng-Accepts : Accepts toy_rng 1
unfolding skip_u64
toy_rng-Accepts s = (0, omega arith, small s)
  where
    small : (s : ℕ) → bit_and (s % 7 + 3) field_p ≢ field_p
    small s = omega (arith, bit_and_mask 61 (s % 7 + 3))

abbrev all_reduced : List ℕ → Bool
all_reduced [] = true
all_reduced (x ∷ xs) = ltb x field_p && all_reduced xs

all_reduced-IsField : (xs : List ℕ) → all_reduced xs ≡ true → IsField xs
all_reduced-IsField [] h i = omega arith
all_reduced-IsField (x ∷ xs) h zero = ground arith
all_reduced-IsField (x ∷ xs) h (suc i) = all_reduced-IsField xs (ground arith) i

abbrev matrix : List ℕ
matrix = 1 ∷ 2 ∷ 3 ∷ (field_p - 4) ∷ []

matrix-IsMatrix : IsMatrix 2 2 matrix
matrix-IsMatrix = record { shape = refl; reduced = all_reduced-IsField matrix refl }

abbrev subspace : List ℕ
subspace = 5 ∷ 6 ∷ []

subspace-IsMatrix : IsMatrix 2 1 subspace
subspace-IsMatrix = record { shape = refl; reduced = all_reduced-IsField subspace refl }

abbrev query : List ℕ
query = 7 ∷ 8 ∷ []

query-IsField : IsField query
query-IsField = all_reduced-IsField query refl

abbrev config : BnTmConfig
config = record {
  params = sec128;
  key_seed = 1 ∷ 2 ∷ [];
  verification_enabled = true;
  quantisation_q = 10;
  device = cpu;
}

-- 1, 2 and 3, 0.
abbrev embeddings : List (List ℕ)
embeddings = (65536 ∷ 131072 ∷ []) ∷ (196608 ∷ 0 ∷ []) ∷ []

embeddings-AllFit : AllFit toy_float (dimension sec128) embeddings
unfolding dimension
embeddings-AllFit zero h = omega arith
embeddings-AllFit (suc zero) h = omega arith
embeddings-AllFit (suc (suc i)) h = absurd (omega arith)

sec128_dimension : subspace_dimension toy_float sec128 ≡ some 128
unfolding subspace_dimension dimension delta_pow2 delta mu epsilon
sec128_dimension = refl

uploaded :
    (handle : BnTmHandle) × (upload_cluster toy_rng toy_float 1 config embeddings []
      ≡ some (ok handle))
    × IsUploaded toy_float config embeddings 0 128 handle
uploaded =
    upload_cluster-IsUploaded toy_rng toy_float 1 toy_rng-Accepts config embeddings [] 0 128
      sec128_dimension embeddings-AllFit refl

upload_cluster-IsUploaded_example :
    (handle : BnTmHandle) × (upload_cluster toy_rng toy_float 1 config embeddings []
      ≡ some (ok handle))
    × IsUploaded toy_float config embeddings 0 128 handle
upload_cluster-IsUploaded_example =
    upload_cluster-IsUploaded toy_rng toy_float 1 toy_rng-Accepts config embeddings [] 0 128
      sec128_dimension embeddings-AllFit refl

before_total : (x y : ℕ × ℤ) → before x y ≡ false → before y x ≡ true
before_total (i, pos a) (j, pos b) h = ground arith
before_total (i, pos a) (j, negsuc b) h = ground arith
before_total (i, negsuc a) (j, pos b) h = ground arith
before_total (i, negsuc a) (j, negsuc b) h = ground arith

le_ℤ_trans : (a b c : ℤ) → le_ℤ a b ≡ true → le_ℤ b c ≡ true → le_ℤ a c ≡ true
le_ℤ_trans (pos a) (pos b) (pos c) h h' = ground arith
le_ℤ_trans (pos a) (pos b) (negsuc c) h h' = ground arith
le_ℤ_trans (pos a) (negsuc b) c h h' = ground arith
le_ℤ_trans (negsuc a) b (pos c) h h' = refl
le_ℤ_trans (negsuc a) (pos b) (negsuc c) h h' = ground arith
le_ℤ_trans (negsuc a) (negsuc b) (negsuc c) h h' = ground arith

score_sort : Sorting (ℕ × ℤ) before
score_sort = insertion before before_total (λ x y z h h'. le_ℤ_trans z.1 y.1 x.1 h' h)

abbrev key32 : List ℕ
key32 = replicate 32 7

scores-InRange :
    (i : ℕ)
    → i < 2
    → InRange
        (dimension sec128)
        (row_of toy_float embeddings 10 0 i)
        (scaled toy_float (65536 ∷ []) 10 0)
unfolding sum dimension
scores-InRange zero h = (ltb→lt _ _ refl, leb→le _ _ refl)
scores-InRange (suc zero) h = (ltb→lt _ _ refl, leb→le _ _ refl)
scores-InRange (suc (suc i)) h = absurd (omega arith)

query_fits : 1 ≤ dimension sec128
unfolding dimension
query_fits = omega arith

score_lem_example :
    score toy_rng toy_float 1 false (λ z. pos_part z) score_sort uploaded.0 (65536 ∷ []) 1 key32
    ≡ some (
        ok (
          map (to_hit toy_float (λ z. pos_part z)) (
            take (min 1 2) (
              score_sort.sort
                (scores_of toy_float embeddings (65536 ∷ []) (dimension sec128) 10 0)))))
score_lem_example =
    score_lem toy_rng toy_float 1 toy_rng-Accepts false (λ z. pos_part z) score_sort config
      embeddings 0 128 uploaded.0 sec128_dimension uploaded.2 (65536 ∷ []) 1 key32 query_fits refl
      scores-InRange

built :
    (c : EncryptedCluster) × (encrypt_cluster toy_rng toy_float 1 matrix 2 subspace (0 ∷ []) 2 1 0
      ≡ some c)
    × IsEncryption matrix subspace 2 2 1 c
built =
    encrypt_cluster-IsEncryption toy_rng toy_float 1 matrix 2 subspace (0 ∷ []) 2 1 0
      toy_rng-Accepts (omega arith) matrix-IsMatrix subspace-IsMatrix

encoded :
    (q : QueryEncoded × ℕ) × (encode_query toy_rng toy_float 1 query subspace 3 2 1 0 ≡ some q)
    × IsEncoding query subspace 2 1 q.0
encoded =
    encode_query-IsEncoding toy_rng toy_float 1 query subspace 3 2 1 0 toy_rng-Accepts (omega arith)
      refl query-IsField subspace-IsMatrix

abbrev built_cluster : EncryptedCluster
built_cluster = built.0

abbrev built_query : QueryEncoded
built_query = encoded.0.0

encrypt_cluster-IsEncryption_example :
    (c : EncryptedCluster) × (encrypt_cluster toy_rng toy_float 1 matrix 2 subspace (0 ∷ []) 2 1 0
      ≡ some c)
    × IsEncryption matrix subspace 2 2 1 c
encrypt_cluster-IsEncryption_example =
    encrypt_cluster-IsEncryption toy_rng toy_float 1 matrix 2 subspace (0 ∷ []) 2 1 0
      toy_rng-Accepts (omega arith) matrix-IsMatrix subspace-IsMatrix

-- The product of the matrix by the query.
abbrev response : List ℕ
response = 23 ∷ (field_p - 11) ∷ []

response-eq-product : response ≡ product_mod matrix 2 2 query
unfolding tabulate sum
response-eq-product = refl

verify_response_complete_example :
    (rng' : ℕ) × (verify_response toy_rng 1 response matrix 2 2 query 3 0 ≡ some (ok tt, rng'))
verify_response_complete_example =
    verify_response_complete toy_rng response matrix query 2 2 refl
      (all_reduced-IsField response refl) matrix-IsMatrix refl query-IsField 1 3 0 toy_rng-Accepts
      response-eq-product

-- A response with one wrong score.
abbrev forged : List ℕ
forged = 24 ∷ (field_p - 11) ∷ []

run_trial_iff_example :
    (u : List ℕ) × (b : Bool) × (rng' : ℕ) × (sample_fps toy_rng 1 2 0 ≡ some (u, rng'))
    × (run_trial toy_rng 1 forged matrix 2 2 query 0 ≡ some (b, rng'))
    × ((b ≡ true) ↔ (
        sum 2 (λ i. nth u i * nth forged i) % field_p
        ≡ sum 2 (λ i. nth u i * row_sum matrix 2 query i) % field_p))
run_trial_iff_example =
    run_trial_iff toy_rng forged matrix query 2 2 refl (all_reduced-IsField forged refl)
      matrix-IsMatrix refl query-IsField 1 0 toy_rng-Accepts

mersenne_matvec-eq-product_example :
    mersenne_matvec false matrix 2 2 query ≡ some (product_mod matrix 2 2 query)
mersenne_matvec-eq-product_example =
    mersenne_matvec-eq-product matrix query 2 2 refl refl matrix-IsMatrix.reduced query-IsField
      false

mersenne_reduce-eq-mod_example : mersenne_reduce (2 ^ 127 + 12345) ≡ (2 ^ 127 + 12345) % field_p
mersenne_reduce-eq-mod_example = mersenne_reduce-eq-mod (2 ^ 127 + 12345) (omega arith)

quantise_vector_lem_example :
    quantise_vector toy_float (65536 ∷ 131072 ∷ []) 3 10
    ≡ some (tabulate 3 (λ j. wrap_signed (scaled toy_float (65536 ∷ 131072 ∷ []) 10 0 j)))
quantise_vector_lem_example =
    quantise_vector_lem toy_float (65536 ∷ 131072 ∷ []) 3 10 0 (omega arith)

abbrev eight : List ℕ
eight = 1 ∷ 2 ∷ 3 ∷ 4 ∷ 5 ∷ 6 ∷ (field_p - 7) ∷ (field_p - 1) ∷ []

avx512_row_dot-eq-sum_example :
    avx512_row_dot eight eight 8 ≡ some (sum 8 (λ j. nth eight j * nth eight j) % field_p)
avx512_row_dot-eq-sum_example =
    avx512_row_dot-eq-sum eight eight 1 (omega arith) (omega arith) (all_reduced-IsField eight refl)
      (all_reduced-IsField eight refl)

abbrev batch : List (List ℕ)
batch = query ∷ (9 ∷ (field_p - 1) ∷ []) ∷ []

batch-fits : (q : ℕ) → q < 2 → length (get_or batch q []) ≡ 2
batch-fits zero h = refl
batch-fits (suc zero) h = refl
batch-fits (suc (suc q)) h = absurd (omega arith)

batch-IsField : (q : ℕ) → q < 2 → IsField (get_or batch q [])
batch-IsField zero h = query-IsField
batch-IsField (suc zero) h = all_reduced-IsField (9 ∷ (field_p - 1) ∷ []) refl
batch-IsField (suc (suc q)) h = absurd (omega arith)

products_batch-eq-collect_example :
    (compute_products_batch matrix 2 2 batch
      ≡ some (tabulate 2 (λ q. product_mod matrix 2 2 (get_or batch q []))))
    × (collect 2 (λ q. do v_enc ← get_elem? batch q; compute_products true matrix 2 2 v_enc)
        ≡ some (tabulate 2 (λ q. product_mod matrix 2 2 (get_or batch q []))))
products_batch-eq-collect_example =
    products_batch-eq-collect 2 batch (record { fits = batch-fits; reduced = batch-IsField }) matrix
      2 refl matrix-IsMatrix.reduced true

abbrev columns : List ℕ
columns = 0 ∷ 2 ∷ []

columns-IsIncreasing : IsIncreasing columns
columns-IsIncreasing zero zero h hj = absurd (omega arith)
columns-IsIncreasing zero (suc zero) h hj = omega arith
columns-IsIncreasing (suc i) (suc zero) h hj = absurd (omega arith)
columns-IsIncreasing (suc i) zero h hj = absurd (omega arith)
columns-IsIncreasing i (suc (suc j)) h hj = absurd (omega arith)

abbrev sparse : SparseVec
sparse = record { n = 3; idx = columns; sign = pos 1 ∷ negsuc 0 ∷ [] }

sparse-IsSparse : IsSparse 3 sparse
sparse-IsSparse = record {
  width = refl;
  paired = refl;
  increasing = columns-IsIncreasing;
  in_range = below;
}
  where
    below : (e : ℕ) → e < 2 → nth columns e < 3
    below zero h = omega arith
    below (suc zero) h = omega arith
    below (suc (suc e)) h = absurd (omega arith)

abbrev wide : List ℕ
wide = 1 ∷ 2 ∷ 3 ∷ 4 ∷ 5 ∷ 6 ∷ []

sparse_lookup-dense_example :
    (s : ℤ) × (sparse_lookup sparse 2 ≡ some s) × (sign_value s ≡ dense sparse 2)
sparse_lookup-dense_example = sparse_lookup-dense 3 sparse 2 sparse-IsSparse

dense_times_sparse-eq-sums_example :
    dense_times_sparse wide 2 3 sparse
    ≡ some (tabulate 2 (λ i. sum 3 (λ j. dense sparse j * cell wide 3 i j) % field_p))
dense_times_sparse-eq-sums_example =
    dense_times_sparse-eq-sums wide 2 3 sparse refl (all_reduced-IsField wide refl) sparse-IsSparse

sample_sparse_pm1_lem_example :
    (r : SparseVec × ℕ) × (sample_sparse_pm1 toy_rng toy_float 6 1 0 ≡ some r)
    × IsSparse 6 r.0
    × ((j : ℕ)
        → j < 6
        → sparse_lookup r.0 j
          ≡ some (
              column_sign toy_rng
                (sparse_threshold toy_rng toy_float 1)
                (state_before toy_rng (sparse_threshold toy_rng toy_float 1) 0 j)))
    × (r.1 ≡ state_before toy_rng (sparse_threshold toy_rng toy_float 1) 0 6)
sample_sparse_pm1_lem_example = sample_sparse_pm1_lem toy_rng toy_float 6 1 0 (omega arith)

decode-compute_example :
    (compute_products true built_cluster.m_enc built_cluster.m 2 built_query.v_enc >>= λ r.
    decode_scores true r built_cluster subspace built_query 2 1)
    ≡ some (product_mod matrix 2 2 query)
decode-compute_example =
    decode-compute true matrix subspace query 2 2 1 built_cluster built_query matrix-IsMatrix
      subspace-IsMatrix built.2 encoded.2
