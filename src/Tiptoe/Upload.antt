-- ===== src/Tiptoe/Upload.antt =====
-- scorer-tiptoe/src/lib.rs: the upload of a corpus, with its cache in memory and on the disk. A key of
-- either cache is the 64-bit fingerprint that its hexadecimal form names; a directory is an association
-- list of its files, the newest first. A panic of the build is the error `spawn_panic`. What the build
-- uses of the second encryption, its fingerprint and `decompose_hint`, are arguments; the compressed
-- hint is not part of the state.
pub mod Cache
pub mod Data
pub mod Serves
pub mod Repeated
mod Tests
use secure_vector_search.Prelude.{
  ℕ, ◌*◌, ◌==◌, ltb, ◌||◌, if◌then◌else◌, not, Bool, true, false, ℤ, Option, none, some, ◌>>=◌,
  List, [], ◌∷◌, length, Result, ok, err,
}
use secure_vector_search.Rng.{Rng}
use secure_vector_search.Float32.{Float32}
use secure_vector_search.Core.Cache.{fingerprint64}
use secure_vector_search.Ivf.Index.{IvfIndex}
use secure_vector_search.Ivf.Codec.{first_length}
use secure_vector_search.Ivf.Codec.Loops.{append_to}
use secure_vector_search.Ivf.Kmeans.{Random, train}
use secure_vector_search.Ivf.Build.{build_index}
use secure_vector_search.Tiptoe.Encoding.{validate_params}
use secure_vector_search.Tiptoe.Lwe.{Params, plaintext_modulus}
use secure_vector_search.Tiptoe.SimplePir.{PirSetup, preprocess}
use secure_vector_search.Tiptoe.Clusters.{EncodedClusters, width, try_then, encode_ivf}
use secure_vector_search.Tiptoe.Ranking.{
  TiptoeError, empty_corpus, empty_cluster, too_many_centroids, quantisation_overflow,
  bfv_composition_failed, spawn_panic, TiptoeHandle, map_err,
}
use secure_vector_search.Tiptoe.Upload.Cache.{
  lwe_fingerprint_bytes, cache_parts, derive_pir_seed, load_tiptoe_cache, save_tiptoe_cache,
}

abbrev pub tiptoe_text : Params
tiptoe_text = record { n = 2048; log2_p = 17 }

pub record TiptoeConfig : Type 0 where
  pub n_centroids : ℕ
  pub train_seed : ℕ
  pub max_iter : ℕ
  pub quantisation_bits : ℕ

-- The entry without the state of the second encryption.
pub record CacheEntry (F32 : Type 0) : Type 0 where
  pub index : IvfIndex F32
  pub encoded : EncodedClusters
  pub pir_setup : PirSetup

abbrev pub Files : Type 0
Files = List (ℕ × List ℕ)

pub record TiptoeScorer (F32 : Type 0) : Type 0 where
  pub cache : List (ℕ × CacheEntry F32)
  pub cache_dir : Option Files

-- `HashMap::get`
abbrev pub find_key {ℓ} : {A : Type ℓ} → ℕ → List (ℕ × A) → Option A
find_key key [] = none
find_key key ((k, v) ∷ rest) = if k == key then some v else find_key key rest

-- `index.clusters.iter().any(|c| c.is_empty())`
unfoldable pub any_empty {ℓ} : {A : Type ℓ} → List (List A) → Bool
any_empty [] = false
any_empty (c ∷ cs) = (length c == 0) || any_empty cs

-- The parts of the fingerprint: the parameters, and of the corpus its size and dimension.
unfoldable pub parts_of {ℓ} :
    {F32 : Type ℓ} → ℕ → List ℕ → TiptoeConfig → List (List F32) → List (List ℕ)
parts_of sigma_bits bfv_fp config vectors =
    cache_parts config.n_centroids config.train_seed config.max_iter (length vectors)
      (first_length vectors) config.quantisation_bits (lwe_fingerprint_bytes tiptoe_text sigma_bits)
      bfv_fp

abbrev pub handle_of :
    {F32 : Type 0} → TiptoeConfig → List (List F32) → CacheEntry F32 → TiptoeHandle F32
handle_of config vectors entry = record {
  index = entry.index;
  encoded = entry.encoded;
  pir_setup = entry.pir_setup;
  lwe_params = tiptoe_text;
  quantisation_bits = config.quantisation_bits;
  dim = first_length vectors;
}

module _ (fl : Float32) where
  open fl use {F32}

  unfoldable pub from_disk : Option Files → List (List ℕ) → Option (IvfIndex F32 × PirSetup)
  from_disk none parts = none
  from_disk (some files) parts = do
    file ← find_key (fingerprint64 parts) files
    load_tiptoe_cache fl file parts

  -- `writes` says whether the file could be written: a failure is a warning only.
  unfoldable pub save_build : Bool → Option Files → List (List ℕ) → CacheEntry F32 → Option Files
  save_build writes none parts entry = none
  save_build writes (some files) parts entry =
      elim (save_tiptoe_cache fl append_to parts entry.index entry.pir_setup []) [
        | ok bytes ↦ if writes then some ((fingerprint64 parts, bytes) ∷ files) else some files
        | err _ ↦ some files
      ]

module _ {CompressError : Type 0} (fl : Float32) (l2_f32 : List fl.F32 → List fl.F32 → fl.F32)
    (rand : Random fl.F32) (sum_par : List fl.F32 → fl.F32) (g : Rng) (scale : fl.F32 → ℕ → ℤ)
    (ratio : ℤ → ℕ → fl.F32) (is_finite : fl.F32 → Bool) (sigma_bits : ℕ) (bfv_fp : List ℕ)
    (decompose_hint : List ℕ → ℕ → ℕ → Result CompressError (Unit {0})) where
  open fl use {F32}

  abbrev pub Built : Type 0
  Built = Option (Result (TiptoeError CompressError) (CacheEntry F32))

  -- `decompose_hint(..)?`
  unfoldable pub with_hint : CacheEntry F32 → Built
  with_hint entry =
      try_then
        (map_err bfv_composition_failed
          (some (decompose_hint entry.pir_setup.hint entry.encoded.m_max tiptoe_text.n)))
        (λ _. some (ok entry))

  unfoldable pub encode_index :
      ℕ → IvfIndex F32 → Option (Result (TiptoeError CompressError) EncodedClusters)
  encode_index quantisation_bits index =
      map_err quantisation_overflow
        (encode_ivf scale ratio is_finite quantisation_bits (plaintext_modulus tiptoe_text) index)

  -- A hit on the disk. The two assertions of a debug build are left out.
  unfoldable pub reload : ℕ → IvfIndex F32 → PirSetup → Built
  reload quantisation_bits index pir_setup =
      try_then (encode_index quantisation_bits index)
        (λ encoded. with_hint (record { index = index; encoded = encoded; pir_setup = pir_setup }))

  -- A miss: the full build, up to the file.
  unfoldable pub rebuild : TiptoeConfig → List (List F32) → Built
  rebuild config vectors = do
    centroids ←
        train fl l2_f32 rand sum_par vectors config.n_centroids config.train_seed config.max_iter
    index ← build_index fl l2_f32 vectors centroids
    (if any_empty index.clusters
        then some (err empty_cluster)
        else try_then (encode_index config.quantisation_bits index) (λ encoded. do
          pir_setup ←
              preprocess g encoded.matrix encoded.m_max (width encoded)
                (derive_pir_seed config.train_seed) tiptoe_text
          some (ok (record { index = index; encoded = encoded; pir_setup = pir_setup }))))

  abbrev pub Uploaded : Type 0
  Uploaded = Result (TiptoeError CompressError) (TiptoeHandle F32 × Bool) × TiptoeScorer F32

  -- What follows the build: the entry goes to the cache in memory.
  unfoldable pub after_build :
      TiptoeConfig → List (List F32) → TiptoeScorer F32 → Option Files → Bool → Built → Uploaded
  after_build config vectors scorer dir hit none =
      (err spawn_panic, record { cache = scorer.cache; cache_dir = dir })
  after_build config vectors scorer dir hit (some (err e)) =
      (err e, record { cache = scorer.cache; cache_dir = dir })
  after_build config vectors scorer dir hit (some (ok entry)) = (
    ok (handle_of config vectors entry, hit),
    record {
      cache = (fingerprint64 (parts_of sigma_bits bfv_fp config vectors), entry) ∷ scorer.cache;
      cache_dir = dir;
    },
  )

  -- The file is written before the hint is decomposed.
  unfoldable pub after_rebuild :
      Bool → TiptoeConfig → List (List F32) → TiptoeScorer F32 → Built → Uploaded
  after_rebuild writes config vectors scorer none =
      after_build config vectors scorer scorer.cache_dir false none
  after_rebuild writes config vectors scorer (some (err e)) =
      after_build config vectors scorer scorer.cache_dir false (some (err e))
  after_rebuild writes config vectors scorer (some (ok entry)) =
      after_build config vectors scorer
        (save_build fl writes scorer.cache_dir (parts_of sigma_bits bfv_fp config vectors) entry)
        false (with_hint entry)

  unfoldable pub after_disk :
      Bool
      → TiptoeConfig
      → List (List F32)
      → TiptoeScorer F32
      → Option (IvfIndex F32 × PirSetup)
      → Uploaded
  after_disk writes config vectors scorer (some (index, pir_setup)) =
      after_build config vectors scorer scorer.cache_dir true
        (reload config.quantisation_bits index pir_setup)
  after_disk writes config vectors scorer none =
      after_rebuild writes config vectors scorer (rebuild config vectors)

  unfoldable pub after_memory :
      Bool → TiptoeConfig → List (List F32) → TiptoeScorer F32 → Option (CacheEntry F32) → Uploaded
  after_memory writes config vectors scorer (some entry) =
      (ok (handle_of config vectors entry, true), scorer)
  after_memory writes config vectors scorer none =
      after_disk writes config vectors scorer
        (from_disk fl scorer.cache_dir (parts_of sigma_bits bfv_fp config vectors))

  unfoldable pub upload_cluster :
      Bool → TiptoeScorer F32 → TiptoeConfig → List (List F32) → Uploaded
  upload_cluster writes scorer config vectors =
      elim (validate_params config.quantisation_bits tiptoe_text.log2_p) [
        | err e ↦ (err (quantisation_overflow e), scorer)
        | ok _ ↦
            if length vectors == 0
            then (err empty_corpus, scorer)
            else (if (config.n_centroids == 0) || ltb (length vectors) config.n_centroids
                then (err (too_many_centroids config.n_centroids), scorer)
                else after_memory writes config vectors scorer (
                    find_key (fingerprint64 (parts_of sigma_bits bfv_fp config vectors))
                      scorer.cache))
      ]
