-- ===== src/Tiptoe/Upload/Cache.antt =====
-- scorer-tiptoe/src/lib.rs: the file of a build, save_tiptoe_cache and load_tiptoe_cache, and the
-- parts that its header is the fingerprint of. A file is the list of its bytes; the temporary file and
-- its renaming are left out. The product of the two dimensions of the hint is taken not to overflow.
pub mod RoundTrip
use secure_vector_search.Prelude.{
  ℕ, ◌*◌, ◌==◌, if◌then◌else◌, not, Bool, true, false, Option, none, some, List, [], ◌∷◌, ◌++◌,
  length, drop, replicate, Result, ok, err, and_then,
}
use secure_vector_search.Float32.{Float32}
use secure_vector_search.Core.Cache.{
  to_le_bytes, read_exact, header_bytes, write_header, verify_header,
}
use secure_vector_search.Ivf.Index.{IvfIndex}
use secure_vector_search.Ivf.Codec.{
  Read, read_each, read_usize, read_u32, first_length, read_index_from, write_each, write_index_to,
}
use secure_vector_search.Tiptoe.Lwe.{Params}
use secure_vector_search.Tiptoe.SimplePir.{PirSetup}

abbrev pub cache_schema_version : ℕ
cache_schema_version = 1

-- `b"tiptoe-v1"`
abbrev pub cache_tag : List ℕ
cache_tag = 116 ∷ 105 ∷ 112 ∷ 116 ∷ 111 ∷ 101 ∷ 45 ∷ 118 ∷ 49 ∷ []

-- `sigma_bits` are the bits of the standard deviation.
unfoldable pub lwe_fingerprint_bytes : Params → ℕ → List ℕ
lwe_fingerprint_bytes p sigma_bits =
    to_le_bytes 8 p.n ++ (to_le_bytes 8 p.log2_p ++ to_le_bytes 8 sigma_bits)

unfoldable pub cache_parts : ℕ → ℕ → ℕ → ℕ → ℕ → ℕ → List ℕ → List ℕ → List (List ℕ)
cache_parts n_centroids train_seed max_iter n dim q_bits lwe_fp bfv_fp =
    cache_tag
    ∷ to_le_bytes 8 n_centroids
    ∷ to_le_bytes 8 train_seed
    ∷ to_le_bytes 8 max_iter
    ∷ to_le_bytes 8 n
    ∷ to_le_bytes 8 dim
    ∷ to_le_bytes 8 q_bits
    ∷ lwe_fp
    ∷ bfv_fp
    ∷ []

unfoldable pub derive_pir_seed : ℕ → List ℕ
derive_pir_seed train_seed = to_le_bytes 8 train_seed ++ replicate 24 0

module _ (fl : Float32) where
  open fl use {F32}

  -- The file behind its header; `none` stands for another version of the schema.
  unfoldable pub read_setup : Read (Option (IvfIndex F32 × PirSetup))
  read_setup file = and_then (read_u32 file) (λ (found, file1).
      if not (found == cache_schema_version)
      then ok (none, file1)
      else and_then (read_index_from fl file1) (λ (index, file2).
        and_then (read_usize file2) (λ (m_max, file3).
          and_then (read_usize file3) (λ (n_lwe, file4).
            and_then (read_exact 32 file4) (λ (seed, file5).
              and_then (read_each read_usize (m_max * n_lwe) file5) (λ (hint, file6). ok (
                some (
                  index,
                  record {
                    seed = seed;
                    hint = hint;
                    r = m_max;
                    c = length index.clusters * first_length index.centroids;
                    n = n_lwe;
                  },
                ),
                file6,
              )))))))

  unfoldable pub load_tiptoe_cache : List ℕ → List (List ℕ) → Option (IvfIndex F32 × PirSetup)
  load_tiptoe_cache file parts = elim (verify_header file parts) [
    | true ↦ elim (read_setup (drop header_bytes file)) [ ok (entry, _) ↦ entry | err _ ↦ none ]
    | false ↦ none
  ]

  module _ {ℓ κ} {W : Type ℓ} {E : Type κ} (write_all : List ℕ → W → Result E W) where
    unfoldable pub write_u64 : ℕ → W → Result E W
    write_u64 v w = write_all (to_le_bytes 8 v) w

    unfoldable pub save_tiptoe_cache : List (List ℕ) → IvfIndex F32 → PirSetup → W → Result E W
    save_tiptoe_cache parts index pir_setup empty =
        and_then (write_header write_all parts empty) (λ w1.
          and_then (write_all (to_le_bytes 4 cache_schema_version) w1) (λ w2.
            and_then (write_index_to fl write_all index w2) (λ w3.
              and_then (write_u64 pir_setup.r w3) (λ w4. and_then (write_u64 pir_setup.n w4) (λ w5.
                and_then (write_all pir_setup.seed w5)
                  (λ w6. write_each write_u64 pir_setup.hint w6))))))
