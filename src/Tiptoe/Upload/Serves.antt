-- ===== src/Tiptoe/Upload/Serves.antt =====
-- An upload that builds ends in a handle that serves, or in the error of an empty cluster.
use secure_vector_search.Prelude.{
  ℕ, ◌*◌, ◌^◌, ◌≤◌, ◌<◌, ◌≡◌, refl, ap, sym, ◌∙◌, arith, subst, ◌==◌, ltb, leb, ◌||◌, if◌then◌else◌,
  Bool, false, Bool-cases, inl, inr, ℤ, none, some, Result, ok, err, List, [], ◌∷◌, length,
}
use secure_vector_search.Rng.{Rng}
use secure_vector_search.Float32.{Float32, IsFloat32}
use secure_vector_search.Core.Cache.{fingerprint64}
use secure_vector_search.Ivf.Codec.{first_length}
use secure_vector_search.Ivf.Kmeans.{Random, train}
use secure_vector_search.Ivf.Kmeans.Shapes.{AllDim}
use secure_vector_search.Ivf.Kmeans.Trained.{InRange, train_lem}
use secure_vector_search.Ivf.Build.{build_index}
use secure_vector_search.Ivf.Build.Partition.{build_index_lem}
use secure_vector_search.Tiptoe.Encoding.{validate_params}
use secure_vector_search.Tiptoe.Lwe.{plaintext_modulus}
use secure_vector_search.Tiptoe.SimplePir.{PirSetup, preprocess}
use secure_vector_search.Tiptoe.SimplePir.Hint.{preprocess_lem}
use secure_vector_search.Tiptoe.Clusters.{width}
use secure_vector_search.Tiptoe.Clusters.Database.{IsEncodable, encode_ivf_lem}
use secure_vector_search.Tiptoe.Ranking.{empty_cluster}
use secure_vector_search.Tiptoe.Ranking.Scored.{IsServing}
use secure_vector_search.Tiptoe.Upload.{
  tiptoe_text, TiptoeConfig, CacheEntry, TiptoeScorer, find_key, any_empty, parts_of, from_disk,
  with_hint, encode_index, rebuild, handle_of, after_build, after_rebuild, after_disk, after_memory,
  upload_cluster,
}
use secure_vector_search.Tiptoe.Upload.Cache.{derive_pir_seed}
use secure_vector_search.Tiptoe.Upload.Data.{AllFiniteVectors, clusters-AllClustersGood}

first_length-AllDim {ℓ} :
    {A : Type ℓ} (dim : ℕ) (xs : List (List A))
    → 0 < length xs
    → AllDim dim xs
    → first_length xs ≡ dim
first_length-AllDim dim [] h a = absurd (omega arith)
first_length-AllDim dim (x ∷ xs) h a = a.0

preprocess-total :
    (g : Rng) (db : List ℕ) (r c : ℕ) (seed : List ℕ)
    → length db ≡ r * c
    → (setup : PirSetup) × (preprocess g db r c seed tiptoe_text ≡ some setup)
preprocess-total g db r c seed shape =
    let (_, _, _, ready) = preprocess_lem g db r c seed tiptoe_text shape in (_, ready)

module _ {CompressError : Type 0} (fl : Float32) (std : IsFloat32 fl)
    (l2_f32 : List fl.F32 → List fl.F32 → fl.F32) (rand : Random fl.F32)
    (sum_par : List fl.F32 → fl.F32) (g : Rng) (scale : fl.F32 → ℕ → ℤ)
    (ratio score_ratio : ℤ → ℕ → fl.F32) (is_finite : fl.F32 → Bool) (sigma_bits : ℕ)
    (bfv_fp : List ℕ) (decompose_hint : List ℕ → ℕ → ℕ → Result CompressError (Unit {0})) where
  open fl use {F32}

  module _ (config : TiptoeConfig) (vectors : List (List F32)) (dim : ℕ)
      (few_bits : config.quantisation_bits ≤ 30) where
    -- The entry of a build: its index, and that it serves.
    pub record IsBuilt (entry : CacheEntry F32) : Type 0 where
      pub centroids : List (List F32)
      pub trained :
          train fl l2_f32 rand sum_par vectors config.n_centroids config.train_seed config.max_iter
          ≡ some centroids
      pub grouped : build_index fl l2_f32 vectors centroids ≡ some entry.index
      pub serves :
          IsServing fl score_ratio g scale ratio is_finite
            (handle_of config vectors entry)
            few_bits
            (derive_pir_seed config.train_seed)

    rebuild_lem :
        AllDim dim vectors
        → AllFiniteVectors scale ratio is_finite config.quantisation_bits
            (plaintext_modulus tiptoe_text)
            few_bits
            vectors
        → 0 < config.n_centroids
        → 0 < length vectors
        → length vectors ≤ 2 ^ 32
        → InRange fl std l2_f32 rand sum_par
        → (entry : CacheEntry F32) × (rebuild fl l2_f32 rand sum_par g scale ratio is_finite
              sigma_bits bfv_fp decompose_hint config vectors
            ≡ (if any_empty entry.index.clusters
                then some (err empty_cluster)
                else some (ok entry)))
          × IsBuilt entry
    unfolding rebuild encode_index width
    rebuild_lem a f hk hn hmax ranged =
        let p = plaintext_modulus tiptoe_text in
        let (init, centroids, rng, _, trained, (count, shapes, _)) =
          train_lem fl std l2_f32 rand sum_par vectors dim config.n_centroids config.train_seed
            config.max_iter hk hn a ranged in
        let some_centroid : 0 < length centroids = omega (arith, count, hk) in
        let (index, _, grouped, _, same, counted, _, parts) =
          build_index_lem fl std l2_f32 vectors centroids some_centroid hmax in
        let centroid_dim : first_length index.centroids ≡ dim =
          ap first_length same ∙ first_length-AllDim dim centroids some_centroid shapes in
        let good : IsEncodable scale ratio is_finite config.quantisation_bits p few_bits index =
          clusters-AllClustersGood scale ratio is_finite config.quantisation_bits p few_bits
            (first_length index.centroids) (length index.clusters) vectors index.clusters
            (subst (λ (d : ℕ). AllDim d vectors) (sym centroid_dim) a) f parts in
        let (encoded, made, database) =
          encode_ivf_lem scale ratio is_finite config.quantisation_bits p few_bits index good in
        let (setup, ready) =
          preprocess-total g encoded.matrix encoded.m_max (encoded.n_centroids * encoded.d)
            (derive_pir_seed config.train_seed) database.shape in
        (
          record { index = index; encoded = encoded; pir_setup = setup },
          elim (Bool-cases (any_empty index.clusters)) [
            | inl e ↦ rw (rebuild, trained, grouped, e) refl
            | inr e ↦ rw (rebuild, trained, grouped, e, made, ready) refl
          ],
          record {
            centroids = centroids;
            trained = trained;
            grouped = grouped;
            serves = record {
              valid = (omega arith, omega arith);
              database = database;
              dimension =
                  first_length-AllDim dim vectors hn a ∙ sym centroid_dim ∙ sym database.has_d;
              some_centroid = omega (arith, some_centroid, ap length same);
              one_cluster_each = counted ∙ sym (ap length same);
              ready = ready;
            };
          },
        )

    -- With finite vectors of one dimension, between 1 and 2^32 of them, at least one centroid and at
    -- most as many as vectors, at most 16 bits, a second encryption that takes the hint, and no entry in
    -- either cache: the vectors are trained on, grouped, encoded and preprocessed without a panic, and
    -- the upload answers with the error of an empty cluster if there is one, and else with a handle that
    -- serves queries and no hit.
    pub upload_cluster_lem :
        (writes : Bool) (scorer : TiptoeScorer F32)
        → AllDim dim vectors
        → AllFiniteVectors scale ratio is_finite config.quantisation_bits
            (plaintext_modulus tiptoe_text)
            few_bits
            vectors
        → config.quantisation_bits ≤ 16
        → 0 < config.n_centroids
        → config.n_centroids ≤ length vectors
        → length vectors ≤ 2 ^ 32
        → InRange fl std l2_f32 rand sum_par
        → ((hint : List ℕ) (m_max n : ℕ) → decompose_hint hint m_max n ≡ ok tt)
        → find_key (fingerprint64 (parts_of sigma_bits bfv_fp config vectors)) scorer.cache ≡ none
        → from_disk fl scorer.cache_dir (parts_of sigma_bits bfv_fp config vectors) ≡ none
        → (entry : CacheEntry F32) × IsBuilt entry
          × ((upload_cluster fl l2_f32 rand sum_par g scale ratio is_finite sigma_bits bfv_fp
                decompose_hint writes scorer config vectors).0
              ≡ (if any_empty entry.index.clusters
                  then err empty_cluster
                  else ok (handle_of config vectors entry, false)))
    unfolding upload_cluster after_memory after_disk after_rebuild after_build with_hint
        validate_params
    upload_cluster_lem writes scorer a f bits hk hle hmax ranged takes memory disk =
        let valid : ((17 == 0) || leb 17 config.quantisation_bits) ≡ false = ground arith in
        let not_empty : (length vectors == 0) ≡ false = ground arith in
        let enough : ((config.n_centroids == 0) || ltb (length vectors) config.n_centroids)
            ≡ false =
          ground arith in
        let (entry, run, built) = rebuild_lem a f hk (omega arith) hmax ranged in
        (
          entry,
          built,
          elim (Bool-cases (any_empty entry.index.clusters)) [
            | inl e ↦ rw (upload_cluster, valid, not_empty, enough, memory, disk, run, e) refl
            | inr e ↦
                rw
                  (
                    upload_cluster,
                    valid,
                    not_empty,
                    enough,
                    memory,
                    disk,
                    run,
                    e,
                    takes entry.pir_setup.hint entry.encoded.m_max tiptoe_text.n,
                  )
                  refl
          ],
        )
