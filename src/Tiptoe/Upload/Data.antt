-- ===== src/Tiptoe/Upload/Data.antt =====
-- The index that is built from finite vectors of one dimension can be encoded.
use secure_vector_search.Prelude.{
  ℕ, suc, ◌≤◌, ◌≡◌, refl, ◌∙◌, arith, ◌==◌, Bool, true, ◌&&◌, ℤ, List, [], ◌∷◌, ◌++◌, length, all,
}
use mathlib.Core.List.{Perm}
use secure_vector_search.Sorting.Order.{all-Perm}
use secure_vector_search.Ivf.Probe.{enumerate_from}
use secure_vector_search.Ivf.Build.Partition.{concat}
use secure_vector_search.Ivf.Kmeans.Shapes.{AllDim}
use secure_vector_search.Tiptoe.Clusters.Database.{IsFiniteVector}
use secure_vector_search.Tiptoe.Clusters.Encoded.{AllClustersGood}
use secure_vector_search.Tiptoe.Clusters.Rows.{AllGood}

all-append {ℓ} :
    {A : Type ℓ} (t : A → Bool) (xs ys : List A) → all t (xs ++ ys) ≡ all t xs && all t ys
all-append t [] ys = refl
all-append t (x ∷ xs) ys = ground (arith, all-append t xs ys)

module _ {F32 : Type 0} (scale : F32 → ℕ → ℤ) (ratio : ℤ → ℕ → F32) (is_finite : F32 → Bool)
    (quantisation_bits p : ℕ) (few_bits : quantisation_bits ≤ 30) where
  abbrev pub AllFiniteVectors : List (List F32) → Type 0
  AllFiniteVectors [] = Unit {0}
  AllFiniteVectors (v ∷ vs) =
      IsFiniteVector scale ratio is_finite quantisation_bits p few_bits v × AllFiniteVectors vs

  module _ (dim n : ℕ) where
    abbrev good : (ℕ × List F32) → Bool
    good e = (length e.1 == dim) && all is_finite e.1

    finite-all :
        (v : List F32)
        → IsFiniteVector scale ratio is_finite quantisation_bits p few_bits v
        → all is_finite v ≡ true
    finite-all [] h = refl
    finite-all (x ∷ v) h = ground (arith, h.0, finite-all v h.1)

    all-finite :
        (v : List F32)
        → all is_finite v ≡ true
        → IsFiniteVector scale ratio is_finite quantisation_bits p few_bits v
    all-finite [] h = tt
    all-finite (x ∷ v) h = (ground arith, all-finite v (ground arith))

    all-enumerate :
        (i : ℕ) (vs : List (List F32))
        → AllDim dim vs
        → AllFiniteVectors vs
        → all good (enumerate_from i vs) ≡ true
    all-enumerate i [] a f = refl
    all-enumerate i (v ∷ vs) a f =
        ground (arith, a.0, finite-all v f.0, all-enumerate (suc i) vs a.1 f.1)

    AllGood_lem :
        (cluster : List (ℕ × List F32))
        → all good cluster ≡ true
        → AllGood scale ratio is_finite quantisation_bits p few_bits dim n cluster
    AllGood_lem [] h = tt
    AllGood_lem ((id, v) ∷ cluster) h =
        (ground arith, all-finite v (ground arith), AllGood_lem cluster (ground arith))

    AllClustersGood_lem :
        (clusters : List (List (ℕ × List F32)))
        → all good (concat clusters) ≡ true
        → AllClustersGood scale ratio is_finite quantisation_bits p few_bits dim n clusters
    AllClustersGood_lem [] h = tt
    AllClustersGood_lem (c ∷ cs) h = (
      AllGood_lem c (ground (arith, all-append good c (concat cs))),
      AllClustersGood_lem cs (ground (arith, all-append good c (concat cs))),
    )

    -- Clusters that hold the vectors of the data hold finite vectors of its dimension.
    pub clusters-AllClustersGood :
        (vectors : List (List F32)) (clusters : List (List (ℕ × List F32)))
        → AllDim dim vectors
        → AllFiniteVectors vectors
        → Perm (concat clusters) (enumerate_from 0 vectors)
        → AllClustersGood scale ratio is_finite quantisation_bits p few_bits dim n clusters
    clusters-AllClustersGood vectors clusters a f parts =
        AllClustersGood_lem clusters (all-Perm good parts ∙ all-enumerate 0 vectors a f)
