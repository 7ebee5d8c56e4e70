-- ===== src/Ivf/Build.antt =====
-- ivf-index/src/ivf.rs: build_index.
pub mod Partition
pub mod Exhaustive
use secure_vector_search.Prelude.{
  ℕ, suc, Option, none, some, ◌>>=◌, List, [], ◌∷◌, ◌++◌, length, get_elem?, set, replicate, u32,
}
use secure_vector_search.Float32.{Float32}
use secure_vector_search.Ivf.Index.{IvfIndex}
use secure_vector_search.Ivf.Kmeans.{assign}

-- `rows[c].push(x)`
unfoldable pub push_at {ℓ} : {A : Type ℓ} → List (List A) → ℕ → A → Option (List (List A))
push_at rows c x = do row ← get_elem? rows c; some (set rows c (row ++ x ∷ []))

-- The loop over the vectors with their assignments; `i` is the number of the vector.
unfoldable pub fill_clusters {ℓ} :
    {A : Type ℓ} → ℕ → List A → List ℕ → List (List (ℕ × A)) → Option (List (List (ℕ × A)))
fill_clusters i [] cs clusters = some clusters
fill_clusters i (v ∷ vs) [] clusters = some clusters
fill_clusters i (v ∷ vs) (c ∷ cs) clusters = do
  clusters' ← push_at clusters c (u32 i, v)
  fill_clusters (suc i) vs cs clusters'

module _ (fl : Float32) (l2_f32 : List fl.F32 → List fl.F32 → fl.F32) where
  unfoldable pub build_index : List (List fl.F32) → List (List fl.F32) → Option (IvfIndex fl.F32)
  build_index vectors centroids = do
    assignments ← assign fl l2_f32 vectors centroids
    clusters ← fill_clusters 0 vectors assignments (replicate (length centroids) [])
    some (record { centroids = centroids; clusters = clusters })
