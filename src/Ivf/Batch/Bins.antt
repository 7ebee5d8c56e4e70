-- ===== src/Ivf/Batch/Bins.antt =====
-- The bins of one cluster: the distances of its vectors from each query that visits it, in order.
use mathlib.Core.List.{append_assoc, append-nil}
use secure_vector_search.Prelude.{
  ℕ, ◌<◌, ◌≡◌, refl, ap, ◌∙◌, some, List, [], ◌∷◌, ◌++◌, map, length, get_or, get_elem?-eq-get_or,
}
use secure_vector_search.Float32.{Float32}
use secure_vector_search.Ivf.Index.{IvfIndex}
use secure_vector_search.Ivf.Probe.Nearest.{distances}
use secure_vector_search.Ivf.Batch.{Bin, push_distances, fill_bins, cluster_bins}

-- Every visit is of a query that there is.
abbrev pub AllVisitors : ℕ → List (ℕ × ℕ) → Type 0
AllVisitors n [] = Unit {0}
AllVisitors n ((q, p) ∷ visits) = (q < n) × AllVisitors n visits

module _ (fl : Float32) (l2_f32 : List fl.F32 → List fl.F32 → fl.F32)
    (queries : List (List fl.F32)) where
  open fl use {F32}

  abbrev pub query_of : ℕ → List F32
  query_of q = get_or queries q []

  -- The bins of the visits, each with what is `done` of the cluster.
  abbrev pub bins_of : List (ℕ × List F32) → List (ℕ × ℕ) → List (Bin fl)
  bins_of done [] = []
  bins_of done ((q, p) ∷ visits) =
      (q, p, distances fl l2_f32 (query_of q) done) ∷ bins_of done visits

  distances-append :
      (query : List F32) (xs : List (ℕ × List F32)) (id : ℕ) (v : List F32)
      → distances fl l2_f32 query xs ++ (id, l2_f32 query v) ∷ []
        ≡ distances fl l2_f32 query (xs ++ (id, v) ∷ [])
  distances-append query [] id v = refl
  distances-append query (x ∷ xs) id v =
      ap (λ (ys : List (ℕ × F32)). (x.0, l2_f32 query x.1) ∷ ys) (distances-append query xs id v)

  push_distances_lem :
      (done : List (ℕ × List F32)) (id : ℕ) (v : List F32) (visits : List (ℕ × ℕ))
      → AllVisitors (length queries) visits
      → push_distances fl l2_f32 queries id v (bins_of done visits)
        ≡ some (bins_of (done ++ (id, v) ∷ []) visits)
  unfolding push_distances
  push_distances_lem done id v [] h = refl
  push_distances_lem done id v ((q, p) ∷ visits) h =
      rw
        (
          get_elem?-eq-get_or queries q [] h.0,
          push_distances_lem done id v visits h.1,
          distances-append (query_of q) done id v,
        )
        refl

  fill_bins_lem :
      (done cluster : List (ℕ × List F32)) (visits : List (ℕ × ℕ))
      → AllVisitors (length queries) visits
      → fill_bins fl l2_f32 queries cluster (bins_of done visits)
        ≡ some (bins_of (done ++ cluster) visits)
  unfolding fill_bins
  fill_bins_lem done [] visits h = rw (append-nil done) refl
  fill_bins_lem done ((id, v) ∷ cluster) visits h = rw (push_distances_lem done id v visits h) (
      fill_bins_lem (done ++ (id, v) ∷ []) cluster visits h
      ∙ ap (λ (es : List (ℕ × List F32)). some (bins_of es visits))
          (append_assoc done ((id, v) ∷ []) cluster))

  empty_bins :
      (visits : List (ℕ × ℕ))
      → ◌≡◌ {A = List (Bin fl)} (map (λ (p : ℕ × ℕ). (p.0, p.1, [])) visits) (bins_of [] visits)
  empty_bins [] = refl
  empty_bins ((q, p) ∷ visits) = ap (λ (bs : List (Bin fl)). (q, p, []) ∷ bs) (empty_bins visits)

  pub cluster_bins_lem :
      (index : IvfIndex F32) (c : ℕ) (visits : List (ℕ × ℕ))
      → c < length index.clusters
      → AllVisitors (length queries) visits
      → cluster_bins fl l2_f32 index queries (c, visits)
        ≡ some (bins_of (get_or index.clusters c []) visits)
  unfolding cluster_bins
  cluster_bins_lem index c [] hc h = refl
  cluster_bins_lem index c ((q, p) ∷ visits) hc h =
      rw (get_elem?-eq-get_or index.clusters c [] hc, empty_bins visits)
        (fill_bins_lem [] (get_or index.clusters c []) ((q, p) ∷ visits) h)
