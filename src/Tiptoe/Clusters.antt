-- ===== src/Tiptoe/Clusters.antt =====
-- scorer-tiptoe/src/cluster.rs and routing.rs, with encode_vector of encoding.rs: the database of the
-- server, and the query of the client in the same columns. The outer option is a panic, the result
-- inside it what the code returns.
pub mod Blocks
pub mod Rows
pub mod Encoded
pub mod Database
pub mod Product
use secure_vector_search.Prelude.{
  ℕ, zero, suc, ◌+◌, ◌-◌, ◌*◌, ltb, leb, if◌then◌else◌, Bool, true, false, ℤ, Option, none, some,
  ◌>>=◌, assert, ◌>>◌, Result, ok, err, and_then, List, [], ◌∷◌, ◌++◌, map, length, get_elem?, set,
  take, drop, replicate, slice,
}
use secure_vector_search.Float32.{Float32}
use secure_vector_search.Ivf.Index.{IvfIndex}
use secure_vector_search.Ivf.Codec.{first_length}
use secure_vector_search.Tiptoe.Encoding.{EncodingError, non_finite, quantise_component}

pub record EncodedClusters : Type 0 where
  pub matrix : List ℕ
  pub m_max : ℕ
  pub d : ℕ
  pub n_centroids : ℕ
  pub cluster_membership : List (List ℕ)

unfoldable pub width : EncodedClusters → ℕ
width e = e.n_centroids * e.d

unfoldable pub cluster_col_start : EncodedClusters → ℕ → ℕ
cluster_col_start e c = c * e.d

-- `r?` followed by the rest, where both may panic.
abbrev pub try_then {ℓ κ μ} :
    {E : Type ℓ} {A : Type κ} {B : Type μ}
    → Option (Result E A)
    → (A → Option (Result E B))
    → Option (Result E B)
try_then none f = none
try_then (some (err e)) f = some (err e)
try_then (some (ok a)) f = f a

-- The list with `ys` written over it from `at` on.
abbrev pub splice : List ℕ → ℕ → List ℕ → List ℕ
splice xs at ys = take at xs ++ (ys ++ drop (at + length ys) xs)

-- `index.clusters.iter().map(Vec::len).max().unwrap_or(0)`
unfoldable pub longest {ℓ} : {A : Type ℓ} → List (List A) → ℕ
longest [] = 0
longest (c ∷ cs) = let m = longest cs in if ltb m (length c) then length c else m

module _ {F32 : Type 0} (scale : F32 → ℕ → ℤ) (ratio : ℤ → ℕ → F32) (is_finite : F32 → Bool)
    (quantisation_bits p : ℕ) where
  -- `for (i, &x) in v.iter().enumerate()`
  unfoldable pub encode_from : ℕ → List F32 → List ℕ → Option (Result EncodingError (List ℕ))
  encode_from i [] out = some (ok out)
  encode_from i (x ∷ v) out =
      let rest = (do
        z ← quantise_component scale ratio x quantisation_bits p
        assert (ltb i (length out))
        encode_from (suc i) v (set out i z)) in
      if is_finite x then rest else some (err (non_finite i))

  unfoldable pub encode_vector : List F32 → List ℕ → Option (Result EncodingError (List ℕ))
  encode_vector v out = encode_from 0 v out

  -- `encode_vector(vec, .., &mut matrix[row_offset..row_offset + d])?`
  unfoldable pub write_vector : ℕ → ℕ → List F32 → List ℕ → Option (Result EncodingError (List ℕ))
  write_vector d row_offset vec matrix = do
    block ← slice matrix row_offset (row_offset + d)
    try_then (encode_vector vec block) (λ out. some (ok (splice matrix row_offset out)))

  -- The vectors of one cluster, from row `r` on.
  unfoldable pub encode_rows :
      ℕ
      → ℕ
      → ℕ
      → ℕ
      → List (ℕ × List F32)
      → List ℕ
      → List ℕ
      → Option (Result EncodingError (List ℕ × List ℕ))
  encode_rows d row_width col_start r [] matrix membership = some (ok (matrix, membership))
  encode_rows d row_width col_start r ((id, vec) ∷ cluster) matrix membership =
      try_then (write_vector d (r * row_width + col_start) vec matrix) (λ matrix'.
        encode_rows d row_width col_start (suc r) cluster matrix' (membership ++ id ∷ []))

  -- The clusters from `c` on.
  unfoldable pub encode_clusters :
      ℕ
      → ℕ
      → ℕ
      → List (List (ℕ × List F32))
      → List ℕ
      → List (List ℕ)
      → Option (Result EncodingError (List ℕ × List (List ℕ)))
  encode_clusters d row_width c [] matrix memberships = some (ok (matrix, memberships))
  encode_clusters d row_width c (cluster ∷ clusters) matrix memberships =
      try_then (encode_rows d row_width (c * d) 0 cluster matrix []) (λ (matrix', membership).
        encode_clusters d row_width (suc c) clusters matrix' (memberships ++ membership ∷ []))

  unfoldable pub encode_ivf : IvfIndex F32 → Option (Result EncodingError EncodedClusters)
  encode_ivf index =
      let n_centroids = length index.clusters in
      let d = first_length index.centroids in
      let m_max = longest index.clusters in
      let row_width = n_centroids * d in
      try_then (encode_clusters d row_width 0 index.clusters (replicate (m_max * row_width) 0) [])
        (λ (matrix, cluster_membership). some (
          ok (record {
            matrix = matrix;
            m_max = m_max;
            d = d;
            n_centroids = n_centroids;
            cluster_membership = cluster_membership;
          })))

  unfoldable pub build_augmented_query :
      List F32 → ℕ → EncodedClusters → Option (Result EncodingError (List ℕ))
  build_augmented_query query cluster_idx encoded = do
    let q_tilde = replicate (width encoded) 0
    let col_start = cluster_col_start encoded cluster_idx
    block ← slice q_tilde col_start (col_start + encoded.d)
    try_then (encode_vector query block) (λ out. some (ok (splice q_tilde col_start out)))

module _ (fl : Float32) (l2_f32 : List fl.F32 → List fl.F32 → fl.F32) where
  open fl use {F32, lt}

  -- `for (i, c) in centroids.iter().enumerate().skip(1)`
  unfoldable pub route_from : List F32 → ℕ → F32 → ℕ → List (List F32) → ℕ
  route_from query best_idx best_d i [] = best_idx
  route_from query best_idx best_d i (c ∷ cs) =
      let d = l2_f32 query c in
      route_from query (if lt d best_d then i else best_idx) (if lt d best_d then d else best_d)
        (suc i) cs

  unfoldable pub route : List F32 → List (List F32) → Option ℕ
  route query [] = none
  route query (c ∷ cs) = some (route_from query 0 (l2_f32 query c) 1 cs)
