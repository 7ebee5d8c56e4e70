-- ===== src/Tiptoe/Ranking/Scored.antt =====
-- The routing, and the scores that the client computes from what it decrypts.
use secure_vector_search.Prelude.{
  ℕ, suc, ◌+◌, ◌-◌, ◌*◌, ◌%◌, ◌^◌, ◌≤◌, ◌<◌, ◌≡◌, refl, arith, subst, ltb, Bool, true, ℤ,
  Bool-cases, inl, inr, some, List, [], ◌∷◌, map, length, get_or, nth, sum,
}
use secure_vector_search.Rng.{Rng}
use secure_vector_search.Float32.{Float32}
use secure_vector_search.Tiptoe.Encoding.{max_magnitude, signed_slot}
use secure_vector_search.Tiptoe.Lwe.{plaintext_modulus}
use secure_vector_search.Tiptoe.Lwe.Round.{IsValid}
use secure_vector_search.Tiptoe.SimplePir.{preprocess}
use secure_vector_search.Tiptoe.Clusters.{route_from, route}
use secure_vector_search.Tiptoe.Clusters.Database.{enc, IsDatabase}
use secure_vector_search.Tiptoe.Ranking.{TiptoeHandle, score_to_f32, score_all}

module _ (fl : Float32) (l2_f32 : List fl.F32 → List fl.F32 → fl.F32) where
  open fl use {F32, lt}

  route_from-lt :
      (query : List F32) (best i : ℕ) (d : F32) (cs : List (List F32))
      → best < i
      → route_from fl l2_f32 query best d i cs < i + length cs
  unfolding route_from
  route_from-lt query best i d [] h = omega arith
  route_from-lt query best i d (c ∷ cs) h = elim (Bool-cases (lt (l2_f32 query c) d)) [
    | inl e ↦ rw e (
        subst (λ (m : ℕ). route_from fl l2_f32 query i (l2_f32 query c) (suc i) cs < m)
          {x = suc i + length cs} {y = i + suc (length cs)} (omega arith)
          (route_from-lt query i (suc i) (l2_f32 query c) cs (omega arith)))
    | inr e ↦ rw e (
        subst (λ (m : ℕ). route_from fl l2_f32 query best d (suc i) cs < m) {x = suc i + length cs}
          {y = i + suc (length cs)} (omega arith)
          (route_from-lt query best (suc i) d cs (omega arith)))
  ]

  -- A query is routed to a centroid that there is.
  pub route-in_range :
      (query : List F32) (centroids : List (List F32))
      → 0 < length centroids
      → (c : ℕ) × (route fl l2_f32 query centroids ≡ some c) × (c < length centroids)
  unfolding route
  route-in_range query [] h = absurd (omega arith)
  route-in_range query (c ∷ cs) h = (
    route_from fl l2_f32 query 0 (l2_f32 query c) 1 cs,
    refl,
    subst (λ (m : ℕ). route_from fl l2_f32 query 0 (l2_f32 query c) 1 cs < m) {x = 1 + length cs}
        {y = suc (length cs)} (omega arith)
        (route_from-lt query 0 1 (l2_f32 query c) cs (omega arith)),
  )

module _ (fl : Float32) (score_ratio : ℤ → ℕ → fl.F32) (g : Rng) (scale : fl.F32 → ℕ → ℤ)
    (ratio : ℤ → ℕ → fl.F32) (is_finite : fl.F32 → Bool) where
  open fl use {F32}

  module _ (handle : TiptoeHandle F32) (few_bits : handle.quantisation_bits ≤ 30) where
    abbrev pub modulus : ℕ
    modulus = plaintext_modulus handle.lwe_params

    abbrev pub encoded_vector : List F32 → List ℕ
    encoded_vector = enc scale ratio is_finite handle.quantisation_bits modulus few_bits

    -- The server holds the database of the index, and the setup of that database.
    pub record IsServing (seed : List ℕ) : Type 0 where
      pub valid : IsValid handle.lwe_params
      pub database :
          IsDatabase scale ratio is_finite handle.quantisation_bits modulus few_bits handle.index
            handle.encoded
      pub dimension : handle.dim ≡ handle.encoded.d
      pub some_centroid : 0 < length handle.index.centroids
      pub one_cluster_each : length handle.index.clusters ≡ length handle.index.centroids
      pub ready :
          preprocess g handle.encoded.matrix handle.encoded.m_max
            (handle.encoded.n_centroids * handle.encoded.d)
            seed
            handle.lwe_params
          ≡ some handle.pir_setup

    -- The score of a vector: its inner product with the query, both encoded, as a signed number over
    -- the square of the magnitude.
    abbrev pub score_of : List F32 → List F32 → F32
    score_of query v =
        score_ratio
          (signed_slot
            (sum handle.encoded.d (λ j. nth (encoded_vector v) j * nth (encoded_vector query) j)
              % modulus)
            modulus)
          (2 ^ handle.quantisation_bits - 1)

    abbrev pub scores : List F32 → ℕ → List (ℕ × F32)
    scores query c =
        map (λ (e : ℕ × List F32). (e.0, score_of query e.1)) (get_or handle.index.clusters c [])

    score_to_f32_lem :
        (z : ℕ)
        → score_to_f32 fl score_ratio z modulus handle.quantisation_bits
          ≡ some (score_ratio (signed_slot z modulus) (2 ^ handle.quantisation_bits - 1))
    unfolding score_to_f32 max_magnitude
    score_to_f32_lem z =
        let narrow : ltb handle.quantisation_bits 31 ≡ true = ground arith in rw narrow refl

    pub score_all_lem :
        (query : List F32) (zs : List ℕ) (cluster : List (ℕ × List F32))
        → length zs ≡ length cluster
        → ((r : ℕ)
            → r < length cluster
            → nth zs r
              ≡ sum handle.encoded.d (λ j.
                nth (encoded_vector (get_or cluster r (0, [])).1) j * nth (encoded_vector query) j)
                % modulus)
        → score_all fl score_ratio modulus handle.quantisation_bits zs
            (map (λ (e : ℕ × List F32). e.0) cluster)
          ≡ some (map (λ (e : ℕ × List F32). (e.0, score_of query e.1)) cluster)
    unfolding score_all
    score_all_lem query [] [] hl h = refl
    score_all_lem query [] (e ∷ cluster) hl h = absurd (omega arith)
    score_all_lem query (z ∷ zs) [] hl h = absurd (omega arith)
    score_all_lem query (z ∷ zs) (e ∷ cluster) hl h =
        rw
          (
            score_to_f32_lem z,
            score_all_lem query zs cluster (omega arith) (λ r l. h (suc r) (omega arith)),
            h 0 (omega arith),
          )
          refl
