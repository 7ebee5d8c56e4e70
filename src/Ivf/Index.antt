-- ===== src/Ivf/Index.antt =====
-- ivf-index/src/ivf.rs: the index.
use secure_vector_search.Prelude.{ℕ, List}

-- `clusters` holds, for each centroid, the identifiers and the vectors that are assigned to it.
pub record IvfIndex (F32 : Type 0) : Type 0 where
  pub centroids : List (List F32)
  pub clusters : List (List (ℕ × List F32))
