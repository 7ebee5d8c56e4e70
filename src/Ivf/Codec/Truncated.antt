-- ===== src/Ivf/Codec/Truncated.antt =====
-- A payload that is cut short is an error, and never another index.
use secure_vector_search.Prelude.{
  ok_injective, Result-cases, ℕ, ◌≡◌, inl, inr, refl, sym, ◌∙◌, List, [], ◌∷◌, ◌++◌, Result, ok,
  err, and_then,
}
use mathlib.Core.List.{append-nil}
use secure_vector_search.Float32.{Float32, IsFloat32}
use secure_vector_search.Core.Cache.{from_le_bytes}
use secure_vector_search.Ivf.Index.{IvfIndex}
use secure_vector_search.Ivf.Codec.{
  read_each, Read, read_usize, read_u32, read_f32, read_entry, read_cluster, read_index_from,
  load_index, save_index,
}
use secure_vector_search.Ivf.Codec.Loops.{
  append_to, IsMonotone, read_exact-IsMonotone, and_then-IsMonotone, pure-IsMonotone,
  read_each-IsMonotone,
}
use secure_vector_search.Ivf.Codec.Layout.{index_bytes, IsStorable, write_index_to_lem}
use secure_vector_search.Ivf.Codec.RoundTrip.{read_index-Reads}

read_usize-IsMonotone : IsMonotone read_usize
unfolding read_usize
read_usize-IsMonotone =
    and_then-IsMonotone _ (λ bytes rest. ok (from_le_bytes bytes, rest)) (read_exact-IsMonotone 8)
      (λ bytes. pure-IsMonotone (from_le_bytes bytes))

read_u32-IsMonotone : IsMonotone read_u32
unfolding read_u32
read_u32-IsMonotone =
    and_then-IsMonotone _ (λ bytes rest. ok (from_le_bytes bytes, rest)) (read_exact-IsMonotone 4)
      (λ bytes. pure-IsMonotone (from_le_bytes bytes))

module _ (fl : Float32) where
  open fl use {F32, from_bits}

  read_f32-IsMonotone : IsMonotone (read_f32 fl)
  unfolding read_f32
  read_f32-IsMonotone =
      and_then-IsMonotone _ (λ bytes rest. ok (from_bits (from_le_bytes bytes), rest))
        (read_exact-IsMonotone 4) (λ bytes. pure-IsMonotone (from_bits (from_le_bytes bytes)))

  read_vec-IsMonotone : (dim : ℕ) → IsMonotone (read_each (read_f32 fl) dim)
  read_vec-IsMonotone dim = read_each-IsMonotone (read_f32 fl) dim read_f32-IsMonotone

  read_entry-IsMonotone : (dim : ℕ) → IsMonotone (read_entry fl dim)
  unfolding read_entry
  read_entry-IsMonotone dim =
      and_then-IsMonotone read_u32
        (λ id file.
          and_then (read_each (read_f32 fl) dim file) (λ (vec, rest). ok ((id, vec), rest)))
        read_u32-IsMonotone
        (λ id.
          and_then-IsMonotone (read_each (read_f32 fl) dim) (λ vec rest. ok ((id, vec), rest))
            (read_vec-IsMonotone dim) (λ vec. pure-IsMonotone (id, vec)))

  read_cluster-IsMonotone : (dim : ℕ) → IsMonotone (read_cluster fl dim)
  unfolding read_cluster
  read_cluster-IsMonotone dim =
      and_then-IsMonotone read_usize (λ size. read_each (read_entry fl dim) size)
        read_usize-IsMonotone
        (λ size. read_each-IsMonotone (read_entry fl dim) size (read_entry-IsMonotone dim))

  abbrev index_of : List (List F32) → List (List (ℕ × List F32)) → IvfIndex F32
  index_of centroids clusters = record { centroids = centroids; clusters = clusters }

  abbrev read_clusters : ℕ → List (List F32) → ℕ → Read (IvfIndex F32)
  read_clusters dim centroids n_clusters file =
      and_then (read_each (read_cluster fl dim) n_clusters file)
        (λ (clusters, rest). ok (index_of centroids clusters, rest))

  abbrev read_counted_clusters : ℕ → List (List F32) → Read (IvfIndex F32)
  read_counted_clusters dim centroids file =
      and_then (read_usize file) (λ (n_clusters, rest). read_clusters dim centroids n_clusters rest)

  abbrev read_centroids : ℕ → ℕ → Read (IvfIndex F32)
  read_centroids dim n_centroids file =
      and_then (read_each (read_each (read_f32 fl) dim) n_centroids file)
        (λ (centroids, rest). read_counted_clusters dim centroids rest)

  abbrev read_counted_centroids : ℕ → Read (IvfIndex F32)
  read_counted_centroids dim file =
      and_then (read_usize file) (λ (n_centroids, rest). read_centroids dim n_centroids rest)

  read_index_from-IsMonotone : IsMonotone (read_index_from fl)
  unfolding read_index_from
  read_index_from-IsMonotone =
      and_then-IsMonotone read_usize read_counted_centroids read_usize-IsMonotone (λ dim.
        and_then-IsMonotone read_usize (read_centroids dim) read_usize-IsMonotone (λ n.
          and_then-IsMonotone (read_each (read_each (read_f32 fl) dim) n)
            (read_counted_clusters dim)
            (read_each-IsMonotone (read_each (read_f32 fl) dim) n (read_vec-IsMonotone dim))
            (λ centroids.
              and_then-IsMonotone read_usize (read_clusters dim centroids) read_usize-IsMonotone
                (λ m.
                  and_then-IsMonotone (read_each (read_cluster fl dim) m)
                    (λ clusters rest. ok (index_of centroids clusters, rest))
                    (read_each-IsMonotone (read_cluster fl dim) m (read_cluster-IsMonotone dim))
                    (λ clusters. pure-IsMonotone (index_of centroids clusters))))))

  -- Every proper prefix of a saved file is refused by the loader.
  pub load_truncated :
      (std : IsFloat32 fl) (index : IvfIndex F32) (front back : List ℕ) (x : ℕ)
      → IsStorable fl index
      → save_index fl append_to index [] ≡ ok (front ++ (x ∷ back))
      → load_index fl front ≡ err tt
  unfolding save_index load_index
  load_truncated std index front back x h saved = elim (Result-cases (read_index_from fl front)) [
    | inr (x', e) ↦ rw e refl
    | inl ((other, rest), e) ↦
        let bytes : index_bytes fl index ≡ front ++ (x ∷ back) =
          ok_injective (sym (write_index_to_lem fl index []) ∙ saved) in
        let whole : read_index_from fl (front ++ (x ∷ back)) ≡ ok (index, []) =
          rw (append-nil (index_bytes fl index), bytes) at (read_index-Reads fl std index h []) in
        let cut = read_index_from-IsMonotone front (x ∷ back) other rest e in
        absurd (no_rest other index rest (sym cut ∙ whole))
  ]
    where
      no_rest :
          (other index : IvfIndex F32) (rest : List ℕ)
          → ◌≡◌ {A = Result (Unit {0}) (IvfIndex F32 × List ℕ)}
              (ok (other, rest ++ (x ∷ back)))
              (ok (index, []))
          → ⊥
      no_rest other index [] e = cc
      no_rest other index (r ∷ rest) e = cc
