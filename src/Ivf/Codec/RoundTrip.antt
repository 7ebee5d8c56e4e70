-- ===== src/Ivf/Codec/RoundTrip.antt =====
-- A saved index is loaded back, bit by bit, with and without the header of a cache.
use secure_vector_search.Prelude.{
  ℕ, ◌^◌, ◌<◌, ◌≡◌, ◌==◌, if◌then◌else◌, Bool-cases, inl, inr, refl, arith, none, some, List, [],
  ◌∷◌, ◌++◌, concat_map, length, ok,
}
use mathlib.Core.List.{append_assoc, append-nil}
use secure_vector_search.Float32.{Float32, IsFloat32}
use secure_vector_search.Core.Cache.{to_le_bytes, write_header, fingerprint64}
use secure_vector_search.Core.Cache.Bytes.{length-to_le_bytes, from-to_le_bytes}
use secure_vector_search.Core.Cache.Header.{header, verify_header-header}
use secure_vector_search.Ivf.Index.{IvfIndex}
use secure_vector_search.Ivf.Codec.{
  read_each, read_usize, read_u32, first_length, read_f32, read_entry, read_cluster,
  read_index_from, load_index, load_index_with_header, save_index, save_index_with_header,
}
use secure_vector_search.Ivf.Codec.Loops.{
  append_to, Reads, AllRead, read_each-Reads, read_exact-append,
}
use secure_vector_search.Ivf.Codec.Layout.{
  f32_bytes, entry_bytes, cluster_bytes, index_bytes, AllCentroids, AllEntries, AllClusters,
  IsStorable, write_index_to_lem,
}

pub read_usize-Reads : (n : ℕ) → n < 2 ^ 64 → Reads read_usize (to_le_bytes 8) n
unfolding read_usize
read_usize-Reads n h rest =
    rw
      (
        read_exact-append 8 (to_le_bytes 8 n) rest (length-to_le_bytes 8 n),
        from-to_le_bytes 8 n (omega arith),
      )
      refl

pub read_u32-Reads : (n : ℕ) → n < 2 ^ 32 → Reads read_u32 (to_le_bytes 4) n
unfolding read_u32
read_u32-Reads n h rest =
    rw
      (
        read_exact-append 4 (to_le_bytes 4 n) rest (length-to_le_bytes 4 n),
        from-to_le_bytes 4 n (omega arith),
      )
      refl

module _ (fl : Float32) (std : IsFloat32 fl) where
  open fl use {F32, to_bits, from_bits}

  read_f32-Reads : (v : F32) → Reads (read_f32 fl) (f32_bytes fl) v
  unfolding read_f32
  read_f32-Reads v rest =
      rw
        (
          read_exact-append 4 (f32_bytes fl v) rest (length-to_le_bytes 4 (to_bits v)),
          from-to_le_bytes 4 (to_bits v) (omega (arith, std.to_bits-lt v)),
          std.from-to_bits v,
        )
        refl

  vec-AllRead : (vec : List F32) → AllRead (read_f32 fl) (f32_bytes fl) vec
  vec-AllRead [] = tt
  vec-AllRead (v ∷ vec) = (read_f32-Reads v, vec-AllRead vec)

  read_vec-Reads :
      (dim : ℕ) (vec : List F32)
      → length vec ≡ dim
      → Reads (read_each (read_f32 fl) dim) (concat_map (f32_bytes fl)) vec
  read_vec-Reads dim vec e rest =
      rw (← e) (read_each-Reads (read_f32 fl) (f32_bytes fl) vec (vec-AllRead vec) rest)

  read_entry-Reads :
      (dim id : ℕ) (vec : List F32)
      → id < 2 ^ 32
      → length vec ≡ dim
      → Reads (read_entry fl dim) (entry_bytes fl) (id, vec)
  unfolding read_entry
  read_entry-Reads dim id vec h e rest =
      rw
        (
          append_assoc (to_le_bytes 4 id) (concat_map (f32_bytes fl) vec) rest,
          read_u32-Reads id h (concat_map (f32_bytes fl) vec ++ rest),
          read_vec-Reads dim vec e rest,
        )
        refl

  entries-AllRead :
      (dim : ℕ) (es : List (ℕ × List F32))
      → AllEntries fl dim es
      → AllRead (read_entry fl dim) (entry_bytes fl) es
  entries-AllRead dim [] h = tt
  entries-AllRead dim ((id, vec) ∷ es) h =
      (read_entry-Reads dim id vec h.0 h.1, entries-AllRead dim es h.2)

  clusters-AllRead :
      (dim : ℕ) (cs : List (List (ℕ × List F32)))
      → AllClusters fl dim cs
      → AllRead (read_cluster fl dim) (cluster_bytes fl) cs
  unfolding read_cluster
  clusters-AllRead dim [] h = tt
  clusters-AllRead dim (c ∷ cs) h = (
    (λ rest.
        rw
          (
            append_assoc (to_le_bytes 8 (length c)) (concat_map (entry_bytes fl) c) rest,
            read_usize-Reads (length c) h.0 (concat_map (entry_bytes fl) c ++ rest),
          )
          (read_each-Reads (read_entry fl dim) (entry_bytes fl) c (entries-AllRead dim c h.1)
            rest)),
    clusters-AllRead dim cs h.2,
  )

  centroids-AllRead :
      (dim : ℕ) (cs : List (List F32))
      → AllCentroids fl dim cs
      → AllRead (read_each (read_f32 fl) dim) (concat_map (f32_bytes fl)) cs
  centroids-AllRead dim [] h = tt
  centroids-AllRead dim (c ∷ cs) h = (read_vec-Reads dim c h.0, centroids-AllRead dim cs h.1)

  -- The payload is read back, and what follows it is left.
  pub read_index-Reads :
      (index : IvfIndex F32)
      → IsStorable fl index
      → Reads (read_index_from fl) (index_bytes fl) index
  unfolding read_index_from
  read_index-Reads index h rest =
      let dim = first_length index.centroids in
      let a = to_le_bytes 8 dim in
      let b = to_le_bytes 8 (length index.centroids) in
      let c = concat_map (concat_map (f32_bytes fl)) index.centroids in
      let d = to_le_bytes 8 (length index.clusters) in
      let e = concat_map (cluster_bytes fl) index.clusters in
      rw
        (
          append_assoc a (b ++ (c ++ (d ++ e))) rest,
          append_assoc b (c ++ (d ++ e)) rest,
          append_assoc c (d ++ e) rest,
          append_assoc d e rest,
          read_usize-Reads dim h.dim_fits (b ++ (c ++ (d ++ (e ++ rest)))),
          read_usize-Reads (length index.centroids) h.centroids_fit (c ++ (d ++ (e ++ rest))),
          read_each-Reads (read_each (read_f32 fl) dim) (concat_map (f32_bytes fl)) index.centroids
              (centroids-AllRead dim index.centroids h.centroids_dim) (d ++ (e ++ rest)),
          read_usize-Reads (length index.clusters) h.clusters_fit (e ++ rest),
          read_each-Reads (read_cluster fl dim) (cluster_bytes fl) index.clusters
              (clusters-AllRead dim index.clusters h.clusters_dim) rest,
        )
        refl

  -- An index whose vectors have one dimension, with numbers that fit their words, is saved and loaded
  -- back, bit by bit, whatever follows it in the file.
  pub load-save :
      (index : IvfIndex F32) (rest : List ℕ)
      → IsStorable fl index
      → (bytes : List ℕ) × (save_index fl append_to index [] ≡ ok bytes)
        × (load_index fl (bytes ++ rest) ≡ ok index)
  unfolding save_index load_index
  load-save index rest h = (
    index_bytes fl index,
    write_index_to_lem fl index [],
    rw (read_index-Reads index h rest) refl,
  )

  -- A file that was saved with a header is loaded for expected parts of the same fingerprint; for
  -- parts of another one it is a miss, and not an error.
  pub load-save_with_header :
      (index : IvfIndex F32) (parts expected : List (List ℕ))
      → IsStorable fl index
      → (bytes : List ℕ) × (save_index_with_header fl append_to index parts [] ≡ ok bytes)
        × (load_index_with_header fl bytes expected
            ≡ ok (if fingerprint64 parts == fingerprint64 expected then some index else none))
  unfolding save_index_with_header load_index_with_header write_header
  load-save_with_header index parts expected h =
      let payload = index_bytes fl index in
      let verdict = verify_header-header parts expected payload in
      let read : read_index_from fl payload ≡ ok (index, []) =
        rw (append-nil payload) at (read_index-Reads index h []) in
      (
        header parts ++ payload,
        write_index_to_lem fl index (header parts),
        elim (Bool-cases (fingerprint64 parts == fingerprint64 expected)) [
          | inl same ↦ rw (load_index_with_header, verdict, same, read) refl
          | inr other ↦ rw (load_index_with_header, verdict, other) refl
        ],
      )
