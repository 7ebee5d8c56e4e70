-- ===== src/Tiptoe/Ranking.antt =====
-- scorer-tiptoe/src/ranking.rs: one query, from the routing to the hits. The floats, the sort, the
-- generator and what it draws for the secret and the noise are parameters, and so is `bfv_h_s`: the
-- steps that send H · s under a second encryption, from the secret to the recovered H · s.
pub mod Scored
pub mod Answer
mod Tests
use Prim.Native.Nat.{max}
use secure_vector_search.Prelude.{
  ℕ, zero, suc, ◌+◌, ◌*◌, ◌==◌, leb, if◌then◌else◌, not, Bool, true, false, ℤ, Option, none, some,
  ◌>>=◌, Result, ok, err, List, [], ◌∷◌, map, length, get_elem?, take, zip_with, slice,
}
use secure_vector_search.Rng.{Rng}
use secure_vector_search.Float32.{Float32}
use secure_vector_search.Sorting.{Sorting}
use secure_vector_search.Ivf.Index.{IvfIndex}
use secure_vector_search.Ivf.Probe.{Hit}
use secure_vector_search.Tiptoe.Encoding.{EncodingError, max_magnitude, signed_slot}
use secure_vector_search.Tiptoe.Lwe.{Params, plaintext_modulus}
use secure_vector_search.Tiptoe.SimplePir.{PirSetup, encrypt_lhe, server_answer}
use secure_vector_search.Tiptoe.SimplePir.Session.{decode_with}
use secure_vector_search.Tiptoe.Clusters.{
  EncodedClusters, width, try_then, build_augmented_query, route,
}

-- `CompressError` is that of the second encryption.
pub data TiptoeError (CompressError : Type 0) : Type 0 where
  empty_corpus : TiptoeError CompressError
  empty_cluster : TiptoeError CompressError
  too_many_centroids : ℕ → TiptoeError CompressError
  dimension_mismatch : ℕ → ℕ → TiptoeError CompressError
  quantisation_overflow : EncodingError → TiptoeError CompressError
  bfv_composition_failed : CompressError → TiptoeError CompressError
  spawn_panic : TiptoeError CompressError

-- The handle without the state of the second encryption.
pub record TiptoeHandle (F32 : Type 0) : Type 0 where
  pub index : IvfIndex F32
  pub encoded : EncodedClusters
  pub pir_setup : PirSetup
  pub lwe_params : Params
  pub quantisation_bits : ℕ
  pub dim : ℕ

abbrev pub map_err {ℓ κ μ} :
    {E : Type ℓ} {G : Type κ} {A : Type μ} → (E → G) → Option (Result E A) → Option (Result G A)
map_err f none = none
map_err f (some (ok a)) = some (ok a)
map_err f (some (err e)) = some (err (f e))

module _ (fl : Float32) (score_ratio : ℤ → ℕ → fl.F32) where
  open fl use {F32, total_le}

  -- `b.1.total_cmp(&a.1)`
  abbrev pub better : (ℕ × F32) → (ℕ × F32) → Bool
  better a b = total_le b.1 a.1

  -- `score_ratio z mag` is `z as f32 / (mag * mag)`.
  unfoldable pub score_to_f32 : ℕ → ℕ → ℕ → Option F32
  score_to_f32 z_p p quantisation_bits = do
    mag ← max_magnitude quantisation_bits
    some (score_ratio (signed_slot z_p p) mag)

  -- `m_q_tilde.iter().zip(membership).map(..)`
  unfoldable pub score_all : ℕ → ℕ → List ℕ → List ℕ → Option (List (ℕ × F32))
  score_all p quantisation_bits [] ids = some []
  score_all p quantisation_bits (z ∷ zs) [] = some []
  score_all p quantisation_bits (z ∷ zs) (id ∷ ids) = do
    s ← score_to_f32 z p quantisation_bits
    rest ← score_all p quantisation_bits zs ids
    some ((id, s) ∷ rest)

  abbrev pub to_hit : (ℕ × F32) → Hit F32
  to_hit p = record { id = p.0; score = p.1 }

  -- Steps 8 to 10: from the answer and the recovered H · s to the hits.
  unfoldable pub rank_hits :
      Sorting (ℕ × F32) better
      → TiptoeHandle F32
      → List ℕ
      → ℕ
      → List ℕ
      → List ℕ
      → Option (List (Hit F32))
  rank_hits s handle membership k ans h_s = do
    let p = plaintext_modulus handle.lwe_params
    first_rows ← slice (decode_with handle.lwe_params ans h_s) 0 (length membership)
    scored ← score_all p handle.quantisation_bits first_rows membership
    some (map to_hit (take k (s.sort scored)))

  module _ {CompressError : Type 0} (g : Rng) (set_word_pos : g.State → ℕ → g.State)
      (scale : F32 → ℕ → ℤ) (ratio : ℤ → ℕ → F32) (is_finite : F32 → Bool)
      (l2_f32 : List F32 → List F32 → F32) (s : Sorting (ℕ × F32) better)
      (bfv_h_s : List ℕ → Result CompressError (List ℕ)) where
    -- `threads`, `secret` and `noise` are what rayon and the generator give.
    unfoldable pub score_query :
        TiptoeHandle F32
        → List F32
        → ℕ
        → ℕ
        → List ℕ
        → List ℕ
        → Option (Result (TiptoeError CompressError) (List (Hit F32)))
    score_query handle query k threads secret noise =
        if not (length query == handle.dim)
        then some (err (dimension_mismatch (length query) handle.dim))
        else (do
          cluster_idx ← route fl l2_f32 query handle.index.centroids
          membership ← get_elem? handle.encoded.cluster_membership cluster_idx
          let p = plaintext_modulus handle.lwe_params
          try_then
              (map_err quantisation_overflow (
                build_augmented_query scale ratio is_finite handle.quantisation_bits p query
                  cluster_idx handle.encoded))
              (λ q_tilde. do
                ct ←
                    encrypt_lhe g set_word_pos threads handle.pir_setup secret q_tilde
                      handle.lwe_params noise
                ans ←
                    server_answer handle.encoded.matrix handle.encoded.m_max (width handle.encoded)
                      ct
                try_then (map_err bfv_composition_failed (some (bfv_h_s secret)))
                    (λ h_s. do hits ← rank_hits s handle membership k ans h_s; some (ok hits))))
