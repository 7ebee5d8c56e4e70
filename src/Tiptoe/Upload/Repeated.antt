-- ===== src/Tiptoe/Upload/Repeated.antt =====
-- A second upload with the same parameters is answered from memory.
use secure_vector_search.Prelude.{
  ok_injective, Result-cases, ℕ, ◌≡◌, refl, ap, ◌∙◌, subst, ◌==◌, ==_refl, ltb, ◌||◌, Bool, true,
  false, Bool-cases, inl, inr, ℤ, Option, none, some, Result, ok, err, List, length,
}
use secure_vector_search.Rng.{Rng}
use secure_vector_search.Float32.{Float32}
use secure_vector_search.Core.Cache.{fingerprint64}
use secure_vector_search.Ivf.Index.{IvfIndex}
use secure_vector_search.Ivf.Codec.{first_length}
use secure_vector_search.Ivf.Kmeans.{Random}
use secure_vector_search.Tiptoe.Encoding.{validate_params}
use secure_vector_search.Tiptoe.SimplePir.{PirSetup}
use secure_vector_search.Tiptoe.Ranking.{TiptoeHandle}
use secure_vector_search.Tiptoe.Upload.{
  tiptoe_text, TiptoeConfig, CacheEntry, Files, TiptoeScorer, find_key, parts_of, handle_of,
  after_build, after_rebuild, after_disk, after_memory, upload_cluster,
}

module _ {CompressError : Type 0} (fl : Float32) (l2_f32 : List fl.F32 → List fl.F32 → fl.F32)
    (rand : Random fl.F32) (sum_par : List fl.F32 → fl.F32) (g : Rng) (scale : fl.F32 → ℕ → ℤ)
    (ratio : ℤ → ℕ → fl.F32) (is_finite : fl.F32 → Bool) (sigma_bits : ℕ) (bfv_fp : List ℕ)
    (decompose_hint : List ℕ → ℕ → ℕ → Result CompressError (Unit {0})) where
  open fl use {F32}

  module _ (config : TiptoeConfig) (vectors : List (List F32)) where
    abbrev shown : CacheEntry F32 → TiptoeHandle F32
    shown = handle_of config vectors

    abbrev key : ℕ
    key = fingerprint64 (parts_of sigma_bits bfv_fp config vectors)

    -- The cache in memory holds what the handle shows.
    abbrev IsStored : TiptoeScorer F32 → TiptoeHandle F32 → Type 0
    IsStored scorer handle =
        (entry : CacheEntry F32) × (find_key key scorer.cache ≡ some entry) × (shown entry ≡ handle)

    IsStored-build :
        (scorer scorer' : TiptoeScorer F32) (dir : Option Files) (hit hit' : Bool)
        (built : Option (Result _ (CacheEntry F32))) (handle : TiptoeHandle F32)
        → after_build fl l2_f32 rand sum_par g scale ratio is_finite sigma_bits bfv_fp
            decompose_hint config vectors scorer dir hit built
          ≡ (ok (handle, hit'), scorer')
        → IsStored scorer' handle
    unfolding after_build
    IsStored-build scorer scorer' dir hit hit' none handle h = let e = ap (λ x. x.0) h in cc
    IsStored-build scorer scorer' dir hit hit' (some (err x)) handle h =
        let e = ap (λ x. x.0) h in cc
    IsStored-build scorer scorer' dir hit hit' (some (ok entry)) handle h =
        let e = ap (λ x. x.0) h in
        let pair : (shown entry, hit) ≡ (handle, hit') = ok_injective e in
        (
          entry,
          subst (λ (s : TiptoeScorer F32). find_key key s.cache ≡ some entry) (ap (λ x. x.1) h)
              (rw (==_refl key) refl),
          ap (λ x. x.0) pair,
        )

    IsStored-rebuild :
        (writes hit : Bool) (scorer scorer' : TiptoeScorer F32) (handle : TiptoeHandle F32)
        (built : Option (Result _ (CacheEntry F32)))
        → after_rebuild fl l2_f32 rand sum_par g scale ratio is_finite sigma_bits bfv_fp
            decompose_hint writes config vectors scorer built
          ≡ (ok (handle, hit), scorer')
        → IsStored scorer' handle
    unfolding after_rebuild
    IsStored-rebuild writes hit scorer scorer' handle none h =
        IsStored-build scorer scorer' scorer.cache_dir false hit none handle h
    IsStored-rebuild writes hit scorer scorer' handle (some (err e)) h =
        IsStored-build scorer scorer' scorer.cache_dir false hit (some (err e)) handle h
    IsStored-rebuild writes hit scorer scorer' handle (some (ok entry)) h =
        IsStored-build scorer scorer' _ false hit _ handle h

    IsStored-disk :
        (writes hit : Bool) (scorer scorer' : TiptoeScorer F32) (handle : TiptoeHandle F32)
        (found : Option (IvfIndex F32 × PirSetup))
        → after_disk fl l2_f32 rand sum_par g scale ratio is_finite sigma_bits bfv_fp decompose_hint
            writes config vectors scorer found
          ≡ (ok (handle, hit), scorer')
        → IsStored scorer' handle
    unfolding after_disk
    IsStored-disk writes hit scorer scorer' handle none h =
        IsStored-rebuild writes hit scorer scorer' handle _ h
    IsStored-disk writes hit scorer scorer' handle (some (index, pir_setup)) h =
        IsStored-build scorer scorer' _ true hit _ handle h

    IsStored-memory :
        (writes hit : Bool) (scorer scorer' : TiptoeScorer F32) (handle : TiptoeHandle F32)
        (found : Option (CacheEntry F32))
        → find_key key scorer.cache ≡ found
        → after_memory fl l2_f32 rand sum_par g scale ratio is_finite sigma_bits bfv_fp
            decompose_hint writes config vectors scorer found
          ≡ (ok (handle, hit), scorer')
        → IsStored scorer' handle
    unfolding after_memory
    IsStored-memory writes hit scorer scorer' handle none e h =
        IsStored-disk writes hit scorer scorer' handle _ h
    IsStored-memory writes hit scorer scorer' handle (some entry) e h =
        let pair : (shown entry, true) ≡ (handle, hit) = ok_injective (ap (λ x. x.0) h) in
        (
          entry,
          subst (λ (s : TiptoeScorer F32). find_key key s.cache ≡ some entry) (ap (λ x. x.1) h) e,
          ap (λ x. x.0) pair,
        )

    abbrev with_dim : ℕ → CacheEntry F32 → TiptoeHandle F32
    with_dim d entry = record {
      index = entry.index;
      encoded = entry.encoded;
      pir_setup = entry.pir_setup;
      lwe_params = tiptoe_text;
      quantisation_bits = config.quantisation_bits;
      dim = d;
    }

    shown_other :
        (other : List (List F32)) (entry : CacheEntry F32)
        → first_length other ≡ first_length vectors
        → handle_of config other entry ≡ shown entry
    shown_other other entry e = ap (λ (d : ℕ). with_dim d entry) e

    -- What an upload returned is what the next upload to the same scorer with the same parameters
    -- returns, from memory and without a change of the scorer, whatever its corpus, if that has the
    -- same number of vectors and the same dimension.
    pub upload-upload :
        (writes writes' hit : Bool) (scorer scorer' : TiptoeScorer F32) (handle : TiptoeHandle F32)
        (other : List (List F32))
        → length other ≡ length vectors
        → first_length other ≡ first_length vectors
        → upload_cluster fl l2_f32 rand sum_par g scale ratio is_finite sigma_bits bfv_fp
            decompose_hint writes scorer config vectors
          ≡ (ok (handle, hit), scorer')
        → upload_cluster fl l2_f32 rand sum_par g scale ratio is_finite sigma_bits bfv_fp
            decompose_hint writes' scorer' config other
          ≡ (ok (handle, true), scorer')
    unfolding upload_cluster after_memory parts_of
    upload-upload writes writes' hit scorer scorer' handle other el ed h =
        let none_here = length vectors == 0 in
        let unfit = (config.n_centroids == 0) || ltb (length vectors) config.n_centroids in
        elim (Result-cases (validate_params config.quantisation_bits tiptoe_text.log2_p)) [
          | inr (x, bad) ↦ let h' = rw (upload_cluster, bad) at h in let e = ap (λ x. x.0) h' in cc
          | inl (x, good) ↦ elim (Bool-cases none_here) [
            | inl e ↦ let h' = rw (upload_cluster, good, e) at h in let e = ap (λ x. x.0) h' in cc
            | inr e ↦ elim (Bool-cases unfit) [
              | inl e' ↦
                  let h' = rw (upload_cluster, good, e, e') at h in let e = ap (λ x. x.0) h' in cc
              | inr e' ↦
                  let h' = rw (upload_cluster, good, e, e') at h in
                  let (entry, found, same) =
                    IsStored-memory writes hit scorer scorer' handle (find_key key scorer.cache)
                      refl h' in
                  rw (upload_cluster, good, el, ed, e, e', found)
                    (ap (λ (t : TiptoeHandle F32). (ok (t, true), scorer'))
                      (shown_other other entry ed ∙ same))
            ]
          ]
        ]
