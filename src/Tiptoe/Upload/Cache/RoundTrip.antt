-- ===== src/Tiptoe/Upload/Cache/RoundTrip.antt =====
-- A saved build is loaded back.
use secure_vector_search.Prelude.{
  ℕ, ◌*◌, ◌^◌, ◌<◌, ◌≡◌, ◌==◌, if◌then◌else◌, Bool-cases, inl, inr, refl, ap, ◌∙◌, arith, none,
  some, List, [], ◌∷◌, ◌++◌, concat_map, length, ok,
}
use mathlib.Core.List.{append_assoc, append-nil}
use secure_vector_search.Float32.{Float32, IsFloat32}
use secure_vector_search.Core.Cache.{to_le_bytes, write_header, fingerprint64}
use secure_vector_search.Core.Cache.Header.{header, verify_header-header}
use secure_vector_search.Ivf.Index.{IvfIndex}
use secure_vector_search.Ivf.Codec.{read_each, read_usize, first_length}
use secure_vector_search.Ivf.Codec.Loops.{
  append_to, AllRead, read_each-Reads, read_exact-append, write_each-Appends,
}
use secure_vector_search.Ivf.Codec.Layout.{index_bytes, IsStorable, write_index_to_lem}
use secure_vector_search.Ivf.Codec.RoundTrip.{read_usize-Reads, read_u32-Reads, read_index-Reads}
use secure_vector_search.Tiptoe.SimplePir.{PirSetup}
use secure_vector_search.Tiptoe.Upload.Cache.{
  cache_schema_version, read_setup, load_tiptoe_cache, write_u64, save_tiptoe_cache,
}

abbrev AllWords : List ℕ → Type 0
AllWords [] = Unit {0}
AllWords (x ∷ xs) = (x < 2 ^ 64) × AllWords xs

words-AllRead : (xs : List ℕ) → AllWords xs → AllRead read_usize (to_le_bytes 8) xs
words-AllRead [] h = tt
words-AllRead (x ∷ xs) h = (read_usize-Reads x h.0, words-AllRead xs h.1)

module _ (fl : Float32) (std : IsFloat32 fl) where
  open fl use {F32}

  -- A setup of the width of the index, whose numbers fit their words.
  pub record IsSetupOf (index : IvfIndex F32) (s : PirSetup) : Type 0 where
    pub rows_fit : s.r < 2 ^ 64
    pub dimension_fits : s.n < 2 ^ 64
    pub seed_size : length s.seed ≡ 32
    pub hint_size : length s.hint ≡ s.r * s.n
    pub hint_words : AllWords s.hint
    pub columns : s.c ≡ length index.clusters * first_length index.centroids

  -- What is written after the header.
  abbrev payload : IvfIndex F32 → PirSetup → List ℕ
  payload index s =
      to_le_bytes 4 cache_schema_version
      ++ (index_bytes fl index
          ++ (to_le_bytes 8 s.r
              ++ (to_le_bytes 8 s.n ++ (s.seed ++ concat_map (to_le_bytes 8) s.hint))))

  save_lem :
      (parts : List (List ℕ)) (index : IvfIndex F32) (s : PirSetup)
      → save_tiptoe_cache fl append_to parts index s [] ≡ ok (header parts ++ payload index s)
  unfolding save_tiptoe_cache write_header write_u64
  save_lem parts index s =
      let h = header parts in
      let a = to_le_bytes 4 cache_schema_version in
      let b = index_bytes fl index in
      let c = to_le_bytes 8 s.r in
      let d = to_le_bytes 8 s.n in
      let e = concat_map (to_le_bytes 8) s.hint in
      rw
        (
          write_index_to_lem fl index (h ++ a),
          write_each-Appends (write_u64 fl append_to) (to_le_bytes 8) (λ x file. refl) s.hint
              (((((h ++ a) ++ b) ++ c) ++ d) ++ s.seed),
        )
        (ap ok (
          append_assoc ((((h ++ a) ++ b) ++ c) ++ d) s.seed e
          ∙ append_assoc (((h ++ a) ++ b) ++ c) d (s.seed ++ e)
          ∙ append_assoc ((h ++ a) ++ b) c (d ++ (s.seed ++ e))
          ∙ append_assoc (h ++ a) b (c ++ (d ++ (s.seed ++ e)))
          ∙ append_assoc h a (b ++ (c ++ (d ++ (s.seed ++ e))))))

  read_lem :
      (index : IvfIndex F32) (s : PirSetup)
      → IsStorable fl index
      → IsSetupOf index s
      → read_setup fl (payload index s) ≡ ok (some (index, s), [])
  unfolding read_setup
  read_lem index s h p =
      let b = index_bytes fl index in
      let c = to_le_bytes 8 s.r in
      let d = to_le_bytes 8 s.n in
      let e = concat_map (to_le_bytes 8) s.hint in
      let hint : read_each read_usize (s.r * s.n) e ≡ ok (s.hint, []) =
        rw (append-nil e, p.hint_size) at
          (read_each-Reads read_usize (to_le_bytes 8) s.hint (words-AllRead s.hint p.hint_words)
            []) in
      rw
        (
          read_setup,
          read_u32-Reads cache_schema_version (omega arith) (b ++ (c ++ (d ++ (s.seed ++ e)))),
          read_index-Reads fl std index h (c ++ (d ++ (s.seed ++ e))),
          read_usize-Reads s.r p.rows_fit (d ++ (s.seed ++ e)),
          read_usize-Reads s.n p.dimension_fits (s.seed ++ e),
          read_exact-append 32 s.seed e p.seed_size,
          hint,
          ← p.columns,
        )
        refl

  -- The build of an index whose numbers fit their words is saved and loaded back for expected parts of
  -- the same fingerprint; for parts of another one it is a miss.
  pub load-save_tiptoe_cache :
      (index : IvfIndex F32) (s : PirSetup) (parts expected : List (List ℕ))
      → IsStorable fl index
      → IsSetupOf index s
      → (bytes : List ℕ) × (save_tiptoe_cache fl append_to parts index s [] ≡ ok bytes)
        × (load_tiptoe_cache fl bytes expected
            ≡ (if fingerprint64 parts == fingerprint64 expected then some (index, s) else none))
  unfolding load_tiptoe_cache
  load-save_tiptoe_cache index s parts expected h p =
      let verdict = verify_header-header parts expected (payload index s) in
      (
        header parts ++ payload index s,
        save_lem parts index s,
        elim (Bool-cases (fingerprint64 parts == fingerprint64 expected)) [
          | inl same ↦ rw (load_tiptoe_cache, verdict, same, read_lem index s h p) refl
          | inr other ↦ rw (load_tiptoe_cache, verdict, other) refl
        ],
      )
