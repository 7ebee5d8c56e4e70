-- ===== src/Tiptoe/Ranking/Tests.antt =====
-- An index of two clusters with three vectors of one component, and its server.
use mathlib.Core.Option.{some-injective}
use secure_vector_search.Prelude.{
  ℕ, zero, suc, ◌+◌, ◌*◌, ◌^◌, ◌%◌, ◌≡◌, ◌<◌, refl, ap, sym, ◌∙◌, for_loop, collect, collect_flat,
  arith, inl, nth, sum, List, [], ◌∷◌, some, subst, Option, none, Result, ok, err, ℤ, pos, negsuc,
  map, length,
}
use secure_vector_search.Tiptoe.Toy.{counter, scaled, ratio, always}
use secure_vector_search.Rng.{skip_u64}
use secure_vector_search.Sorting.{Sorting}
use secure_vector_search.Sorting.Insertion.{insertion}
use secure_vector_search.Sorting.TopK.{IsTopK}
use secure_vector_search.Ivf.Index.{IvfIndex}
use secure_vector_search.Ivf.Toy.{
  Toy, n0, n1, n2, n3, bits, toy, toy_float32, toy_l2, flip_leb, leb_trans,
}
use secure_vector_search.Tiptoe.Encoding.{
  EncodingError, quantise_component, clamp, rem_euclid, max_magnitude,
}
use secure_vector_search.Tiptoe.Lwe.{
  Params, plaintext_modulus, delta, compute_a_s, a_s_entry, wrapping_dot, dot_step,
}
use secure_vector_search.Tiptoe.Lwe.Round.{IsSmall}
use secure_vector_search.Tiptoe.SimplePir.{
  PirSetup, preprocess, expand_a, mat_mul_u64, mat_mul_row, add_row, add_cell, encrypt_lhe,
  server_answer, client_recover,
}
use secure_vector_search.Tiptoe.SimplePir.Encrypt.{Seeks}
use secure_vector_search.Tiptoe.SimplePir.Session.{decode_with, products, recover-encrypt_lhe}
use secure_vector_search.Tiptoe.Clusters.{
  EncodedClusters, encode_ivf, route, encode_clusters, encode_rows, write_vector, longest,
  encode_vector, encode_from,
}
use secure_vector_search.Tiptoe.Clusters.Database.{IsDatabase, IsEncodable, encode_ivf_lem}
use secure_vector_search.Tiptoe.Ranking.{TiptoeHandle, better, to_hit, score_query}
use secure_vector_search.Tiptoe.Ranking.Scored.{IsServing, scores}
use secure_vector_search.Tiptoe.Ranking.Answer.{score_query_lem}

abbrev seek : ℕ → ℕ → ℕ
seek s zero = s
seek s (suc zero) = s
seek s (suc (suc k)) = seek (suc s) k

seek-Seeks : Seeks counter seek
unfolding skip_u64
seek-Seeks seed k = step k (length seed)
  where
    step : (k s : ℕ) → seek s (k * 2) ≡ skip_u64 counter k s
    step zero s = refl
    step (suc k) s =
        ap (seek s) {x = suc k * 2} {y = suc (suc (k * 2))} (omega arith) ∙ step k (suc s)

abbrev small_index : IvfIndex Toy
small_index = record {
  centroids = (n0 ∷ []) ∷ (n3 ∷ []) ∷ [];
  clusters = ((7, n1 ∷ []) ∷ []) ∷ ((8, n2 ∷ []) ∷ (9, n3 ∷ []) ∷ []) ∷ [];
}

-- The score is the product, capped.
abbrev capped : ℤ → ℕ → Toy
capped (pos n) mag = toy n
capped (negsuc n) mag = n0

small_index-IsEncodable : IsEncodable scaled ratio always 2 (2 ^ 17) (omega arith) small_index
small_index-IsEncodable = ((refl, (refl, tt), tt), ((refl, (refl, tt), (refl, (refl, tt), tt)), tt))

abbrev small_database : EncodedClusters
small_database = record {
  matrix = 1 ∷ 2 ∷ 0 ∷ 3 ∷ [];
  m_max = 2;
  d = 1;
  n_centroids = 2;
  cluster_membership = (7 ∷ []) ∷ (8 ∷ 9 ∷ []) ∷ [];
}

encode_ivf_lem_example :
    (e : EncodedClusters) × (encode_ivf scaled ratio always 2 (2 ^ 17) small_index ≡ some (ok e))
    × IsDatabase scaled ratio always 2 (2 ^ 17) (omega arith) small_index e
encode_ivf_lem_example =
    encode_ivf_lem scaled ratio always 2 (2 ^ 17) (omega arith) small_index small_index-IsEncodable

abbrev tiny : Params
tiny = record { n = 1; log2_p = 17 }

abbrev small_setup : PirSetup
small_setup = record { seed = 4 ∷ []; hint = 5 ∷ 6 ∷ []; r = 2; c = 2; n = 1 }

small_setup-ready : preprocess counter small_database.matrix 2 2 (4 ∷ []) tiny ≡ some small_setup
unfolding preprocess expand_a mat_mul_u64 mat_mul_row add_row add_cell for_loop collect_flat
small_setup-ready = refl

noises-AreSmall :
    (i : ℕ)
    → i < 2
    → IsSmall
        (delta tiny)
        (sum 2 (λ j. nth small_database.matrix (i * 2 + j) * nth (3 ∷ 1 ∷ []) j) % 2 ^ 64)
unfolding sum delta
noises-AreSmall zero h = inl (omega arith)
noises-AreSmall (suc zero) h = inl (omega arith)
noises-AreSmall (suc (suc i)) h = absurd (omega arith)

recover-encrypt_lhe_example :
    (ct ans h_s : List ℕ) × (encrypt_lhe counter seek 4 small_setup
        (2 ∷ [])
        (1 ∷ 2 ∷ [])
        tiny
        (3 ∷ 1 ∷ [])
      ≡ some ct)
    × (server_answer small_database.matrix 2 2 ct ≡ some ans)
    × (client_recover tiny ans small_setup (2 ∷ [])
        ≡ some (products tiny small_database.matrix (1 ∷ 2 ∷ []) 2 2))
    × (compute_a_s small_setup.hint (2 ∷ []) 2 ≡ some h_s)
    × (decode_with tiny ans h_s ≡ products tiny small_database.matrix (1 ∷ 2 ∷ []) 2 2)
recover-encrypt_lhe_example =
    recover-encrypt_lhe counter seek seek-Seeks tiny 4 2 2 (4 ∷ []) small_database.matrix (2 ∷ [])
      (1 ∷ 2 ∷ []) (3 ∷ 1 ∷ []) small_setup (omega arith, omega arith) refl refl refl (omega arith)
      small_setup-ready noises-AreSmall

abbrev ok_database : Option (Result EncodingError EncodedClusters) → EncodedClusters
ok_database none = small_database
ok_database (some (err e)) = small_database
ok_database (some (ok e)) = e

small_index-encoded :
    encode_ivf scaled ratio always 2 (2 ^ 17) small_index ≡ some (ok small_database)
unfolding encode_ivf encode_clusters encode_rows write_vector longest encode_vector encode_from
    quantise_component max_magnitude rem_euclid clamp
small_index-encoded = refl

small_database-IsDatabase :
    IsDatabase scaled ratio always 2 (2 ^ 17) (omega arith) small_index small_database
small_database-IsDatabase =
    let (e, made, db) =
      encode_ivf_lem scaled ratio always 2 (2 ^ 17) (omega arith) small_index
        small_index-IsEncodable in
    subst (IsDatabase scaled ratio always 2 (2 ^ 17) (omega arith) small_index)
      (ap ok_database (sym made ∙ small_index-encoded)) db

abbrev small_handle : TiptoeHandle Toy
small_handle = record {
  index = small_index;
  encoded = small_database;
  pir_setup = small_setup;
  lwe_params = tiny;
  quantisation_bits = 2;
  dim = 1;
}

small_handle-IsServing :
    IsServing toy_float32 capped counter scaled ratio always small_handle (omega arith) (4 ∷ [])
unfolding plaintext_modulus
small_handle-IsServing = record {
  valid = (omega arith, omega arith);
  database = small_database-IsDatabase;
  dimension = refl;
  some_centroid = omega arith;
  one_cluster_each = refl;
  ready = small_setup-ready;
}

best_first : Sorting (ℕ × Toy) (better toy_float32 capped)
best_first =
    insertion (better toy_float32 capped) (λ x y. flip_leb (bits y.1) (bits x.1))
      (λ x y z h h'. leb_trans (bits z.1) (bits y.1) (bits x.1) h' h)

abbrev through : List ℕ → Result ℕ (List ℕ)
through secret = ok (10 ∷ 12 ∷ [])

unmasked : compute_a_s small_setup.hint (2 ∷ []) 2 ≡ some (10 ∷ 12 ∷ [])
unfolding compute_a_s collect a_s_entry wrapping_dot for_loop dot_step
unmasked = refl

score_query_lem_example :
    (c : ℕ) × (best : List (ℕ × Toy)) × (route toy_float32 toy_l2 (n3 ∷ []) small_index.centroids
      ≡ some c)
    × (c < 2)
    × IsTopK
        (better toy_float32 capped)
        1
        (scores toy_float32 capped counter scaled ratio always small_handle
          (omega arith)
          (n3 ∷ [])
          c)
        best
    × (score_query toy_float32 capped counter seek scaled ratio always toy_l2 best_first through
          small_handle
          (n3 ∷ [])
          1
          4
          (2 ∷ [])
          (3 ∷ 1 ∷ [])
        ≡ some (ok (map (to_hit toy_float32 capped) best)))
score_query_lem_example =
    score_query_lem toy_float32 capped counter seek seek-Seeks scaled ratio always toy_l2 best_first
      through small_handle (omega arith) (4 ∷ []) small_handle-IsServing (n3 ∷ []) 1 4 (2 ∷ [])
      (3 ∷ 1 ∷ []) refl (refl, tt) refl (omega arith) noises-AreSmall
      (λ h_s e. ap ok (some-injective _ h_s (sym unmasked ∙ e)))
