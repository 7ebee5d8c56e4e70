-- ===== src/Ivf/Codec/Layout.antt =====
-- The bytes that a saved index is written as.
use secure_vector_search.Prelude.{
  ℕ, ◌^◌, ◌<◌, ◌≡◌, refl, ap, ◌∙◌, List, [], ◌∷◌, ◌++◌, concat_map, length, ok,
}
use mathlib.Core.List.{append_assoc}
use secure_vector_search.Float32.{Float32}
use secure_vector_search.Core.Cache.{to_le_bytes}
use secure_vector_search.Ivf.Index.{IvfIndex}
use secure_vector_search.Ivf.Codec.{
  write_each, first_length, write_f32, write_entry, write_cluster, write_index_to,
}
use secure_vector_search.Ivf.Codec.Loops.{append_to, write_each-Appends}

module _ (fl : Float32) where
  open fl use {F32, to_bits, from_bits}

  abbrev pub f32_bytes : F32 → List ℕ
  f32_bytes v = to_le_bytes 4 (to_bits v)

  abbrev pub entry_bytes : (ℕ × List F32) → List ℕ
  entry_bytes (id, vec) = to_le_bytes 4 id ++ concat_map f32_bytes vec

  abbrev pub cluster_bytes : List (ℕ × List F32) → List ℕ
  cluster_bytes cluster = to_le_bytes 8 (length cluster) ++ concat_map entry_bytes cluster

  -- The payload of a file.
  abbrev pub index_bytes : IvfIndex F32 → List ℕ
  index_bytes index =
      to_le_bytes 8 (first_length index.centroids)
      ++ (to_le_bytes 8 (length index.centroids)
          ++ (concat_map (concat_map f32_bytes) index.centroids
              ++ (to_le_bytes 8 (length index.clusters)
                  ++ concat_map cluster_bytes index.clusters)))

  -- All vectors have `dim` components, and identifiers and lengths fit their words.
  abbrev pub AllCentroids : ℕ → List (List F32) → Type 0
  AllCentroids dim [] = Unit {0}
  AllCentroids dim (c ∷ cs) = (length c ≡ dim) × AllCentroids dim cs

  abbrev pub AllEntries : ℕ → List (ℕ × List F32) → Type 0
  AllEntries dim [] = Unit {0}
  AllEntries dim ((id, vec) ∷ es) = (id < 2 ^ 32) × (length vec ≡ dim) × AllEntries dim es

  abbrev pub AllClusters : ℕ → List (List (ℕ × List F32)) → Type 0
  AllClusters dim [] = Unit {0}
  AllClusters dim (c ∷ cs) = (length c < 2 ^ 64) × AllEntries dim c × AllClusters dim cs

  pub record IsStorable (index : IvfIndex F32) : Type 0 where
    pub dim_fits : first_length index.centroids < 2 ^ 64
    pub centroids_fit : length index.centroids < 2 ^ 64
    pub clusters_fit : length index.clusters < 2 ^ 64
    pub centroids_dim : AllCentroids (first_length index.centroids) index.centroids
    pub clusters_dim : AllClusters (first_length index.centroids) index.clusters

  write_vec_lem :
      (vec : List F32) (file : List ℕ)
      → write_each (write_f32 fl append_to) vec file ≡ ok (file ++ concat_map f32_bytes vec)
  unfolding write_f32
  write_vec_lem = write_each-Appends (write_f32 fl append_to) f32_bytes (λ v file. refl)

  write_entry_lem :
      (e : ℕ × List F32) (file : List ℕ)
      → write_entry fl append_to e file ≡ ok (file ++ entry_bytes e)
  unfolding write_entry
  write_entry_lem (id, vec) file =
      write_vec_lem vec (file ++ to_le_bytes 4 id)
      ∙ ap ok (append_assoc file (to_le_bytes 4 id) (concat_map f32_bytes vec))

  write_cluster_lem :
      (c : List (ℕ × List F32)) (file : List ℕ)
      → write_cluster fl append_to c file ≡ ok (file ++ cluster_bytes c)
  unfolding write_cluster
  write_cluster_lem c file =
      write_each-Appends (write_entry fl append_to) entry_bytes write_entry_lem c
        (file ++ to_le_bytes 8 (length c))
      ∙ ap ok (append_assoc file (to_le_bytes 8 (length c)) (concat_map entry_bytes c))

  pub write_index_to_lem :
      (index : IvfIndex F32) (file : List ℕ)
      → write_index_to fl append_to index file ≡ ok (file ++ index_bytes index)
  unfolding write_index_to
  write_index_to_lem index file =
      let a = to_le_bytes 8 (first_length index.centroids) in
      let b = to_le_bytes 8 (length index.centroids) in
      let c = concat_map (concat_map f32_bytes) index.centroids in
      let d = to_le_bytes 8 (length index.clusters) in
      let e = concat_map cluster_bytes index.clusters in
      rw
        (
          write_each-Appends (write_each (write_f32 fl append_to)) (concat_map f32_bytes)
              write_vec_lem index.centroids ((file ++ a) ++ b),
          write_each-Appends (write_cluster fl append_to) cluster_bytes write_cluster_lem
              index.clusters ((((file ++ a) ++ b) ++ c) ++ d),
        )
        (ap ok (
          append_assoc (((file ++ a) ++ b) ++ c) d e
          ∙ append_assoc ((file ++ a) ++ b) c (d ++ e)
          ∙ append_assoc (file ++ a) b (c ++ (d ++ e))
          ∙ append_assoc file a (b ++ (c ++ (d ++ e)))))
