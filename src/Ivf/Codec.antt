-- ===== src/Ivf/Codec.antt =====
-- ivf-index/src/ivf.rs: write_index_to, read_index_from, and the four functions that save and load a
-- file, with and without the header of a cache. A file is the list of its bytes, and `write_all` is an
-- argument; the refusal of an allocation that is too large is left out.
pub mod Loops
pub mod Layout
pub mod RoundTrip
pub mod Truncated
use secure_vector_search.Prelude.{
  ℕ, zero, suc, Bool, true, false, Option, none, some, List, [], ◌∷◌, length, drop, Result, ok, err,
  and_then,
}
use secure_vector_search.Float32.{Float32}
use secure_vector_search.Core.Cache.{
  to_le_bytes, from_le_bytes, read_exact, header_bytes, write_header, verify_header,
}
use secure_vector_search.Ivf.Index.{IvfIndex}

-- `for x in xs { write(x)?; }`
unfoldable pub write_each {ℓ κ μ} :
    {A : Type ℓ} {W : Type κ} {E : Type μ} → (A → W → Result E W) → List A → W → Result E W
write_each write [] w = ok w
write_each write (x ∷ xs) w = and_then (write x w) (λ w'. write_each write xs w')

-- What a reader returns: a value and the bytes that follow it, or the error of the file.
abbrev pub Read {ℓ} : Type ℓ → Type ℓ
Read A = List ℕ → Result (Unit {0}) (A × List ℕ)

-- `for _ in 0..n { xs.push(read()?); }`
unfoldable pub read_each {ℓ} : {A : Type ℓ} → Read A → ℕ → Read (List A)
read_each read zero file = ok ([], file)
read_each read (suc n) file =
    and_then (read file)
      (λ (x, file1). and_then (read_each read n file1) (λ (xs, file2). ok (x ∷ xs, file2)))

unfoldable pub read_usize : Read ℕ
read_usize file = and_then (read_exact 8 file) (λ (bytes, rest). ok (from_le_bytes bytes, rest))

unfoldable pub read_u32 : Read ℕ
read_u32 file = and_then (read_exact 4 file) (λ (bytes, rest). ok (from_le_bytes bytes, rest))

-- `index.centroids.first().map_or(0, |c| c.len())`
abbrev pub first_length {ℓ} : {A : Type ℓ} → List (List A) → ℕ
first_length [] = 0
first_length (c ∷ cs) = length c

module _ (fl : Float32) where
  open fl use {F32, to_bits, from_bits}

  unfoldable pub read_f32 : Read F32
  read_f32 file =
      and_then (read_exact 4 file) (λ (bytes, rest). ok (from_bits (from_le_bytes bytes), rest))

  unfoldable pub read_entry : ℕ → Read (ℕ × List F32)
  read_entry dim file = and_then (read_u32 file) (λ (id, file1).
      and_then (read_each read_f32 dim file1) (λ (vec, file2). ok ((id, vec), file2)))

  unfoldable pub read_cluster : ℕ → Read (List (ℕ × List F32))
  read_cluster dim file =
      and_then (read_usize file) (λ (size, file1). read_each (read_entry dim) size file1)

  unfoldable pub read_index_from : Read (IvfIndex F32)
  read_index_from file = and_then (read_usize file) (λ (dim, file1).
      and_then (read_usize file1) (λ (n_centroids, file2).
        and_then (read_each (read_each read_f32 dim) n_centroids file2) (λ (centroids, file3).
          and_then (read_usize file3) (λ (n_clusters, file4).
            and_then (read_each (read_cluster dim) n_clusters file4) (λ (clusters, file5).
              ok (record { centroids = centroids; clusters = clusters }, file5))))))

  unfoldable pub load_index : List ℕ → Result (Unit {0}) (IvfIndex F32)
  load_index file = and_then (read_index_from file) (λ (index, _). ok index)

  -- `none` is a miss: the header does not match, or cannot be read. `verify_header` takes the bytes of
  -- the header from the reader.
  unfoldable pub load_index_with_header :
      List ℕ → List (List ℕ) → Result (Unit {0}) (Option (IvfIndex F32))
  load_index_with_header file parts = elim (verify_header file parts) [
    | true ↦ and_then (read_index_from (drop header_bytes file)) (λ (index, _). ok (some index))
    | false ↦ ok none
  ]

  module _ {ℓ κ} {W : Type ℓ} {E : Type κ} (write_all : List ℕ → W → Result E W) where
    unfoldable pub write_f32 : F32 → W → Result E W
    write_f32 v w = write_all (to_le_bytes 4 (to_bits v)) w

    unfoldable pub write_entry : (ℕ × List F32) → W → Result E W
    write_entry (id, vec) w =
        and_then (write_all (to_le_bytes 4 id) w) (λ w1. write_each write_f32 vec w1)

    unfoldable pub write_cluster : List (ℕ × List F32) → W → Result E W
    write_cluster cluster w =
        and_then (write_all (to_le_bytes 8 (length cluster)) w)
          (λ w1. write_each write_entry cluster w1)

    unfoldable pub write_index_to : IvfIndex F32 → W → Result E W
    write_index_to index w =
        and_then (write_all (to_le_bytes 8 (first_length index.centroids)) w) (λ w1.
          and_then (write_all (to_le_bytes 8 (length index.centroids)) w1) (λ w2.
            and_then (write_each (write_each write_f32) index.centroids w2) (λ w3.
              and_then (write_all (to_le_bytes 8 (length index.clusters)) w3)
                (λ w4. write_each write_cluster index.clusters w4))))

    -- `empty` is the file that `File::create` opens.
    unfoldable pub save_index : IvfIndex F32 → W → Result E W
    save_index index empty = write_index_to index empty

    unfoldable pub save_index_with_header : IvfIndex F32 → List (List ℕ) → W → Result E W
    save_index_with_header index parts empty =
        and_then (write_header write_all parts empty) (λ w. write_index_to index w)
