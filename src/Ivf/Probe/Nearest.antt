-- ===== src/Ivf/Probe/Nearest.antt =====
-- What a probe returns: the best vectors of the clusters with the nearest centroids.
use secure_vector_search.Prelude.{
  ℕ, suc, ◌+◌, ◌≤◌, ◌≡◌, refl, ap, sym, ◌∙◌, arith, min, ltb, ◌==◌, Bool, true, Bool-cases, inl,
  inr, Option, some, List, [], ◌∷◌, map, length, take, get_or, get_elem?-eq-get_or, length-map,
  concat_map, all, all-take, all-map, take-min,
}
use secure_vector_search.Float32.{Float32}
use secure_vector_search.Sorting.{Sorting}
use secure_vector_search.Sorting.TopK.{IsTopK, take-sort-IsTopK}
use secure_vector_search.Sorting.Order.{length-Perm, all-Perm}
use secure_vector_search.Ivf.Index.{IvfIndex}
use secure_vector_search.Ivf.Probe.{
  Hit, enumerate_from, flat_map_list, nearer, probe_route, probe_distance, probe_merge, probe,
}

pub length-enumerate {ℓ} :
    {A : Type ℓ} (i : ℕ) (xs : List A) → length (enumerate_from i xs) ≡ length xs
length-enumerate i [] = refl
length-enumerate i (x ∷ xs) = ap suc (length-enumerate (suc i) xs)

-- A flat map that panics nowhere on the elements that pass a test.
pub flat_map_list-eq {ℓ κ} :
    {A : Type ℓ} {B : Type κ} (t : A → Bool) (f : A → Option (List B)) (g : A → List B)
    → ((x : A) → t x ≡ true → f x ≡ some (g x))
    → (xs : List A) → all t xs ≡ true
    → flat_map_list f xs ≡ some (concat_map g xs)
unfolding flat_map_list
flat_map_list-eq t f g h [] a = refl
flat_map_list-eq t f g h (x ∷ xs) a =
    rw (h x (ground arith), flat_map_list-eq t f g h xs (ground arith)) refl

pub concat_map-map {ℓ κ μ} :
    {A : Type ℓ} {B : Type κ} {C : Type μ} (g : B → List C) (f : A → B) (xs : List A)
    → concat_map g (map f xs) ≡ concat_map (λ x. g (f x)) xs
concat_map-map g f [] = refl
concat_map-map g f (x ∷ xs) = rw (concat_map-map g f xs) refl

module _ (fl : Float32) (l2_f32 : List fl.F32 → List fl.F32 → fl.F32) where
  open fl use {F32, neg}

  -- The distance of each entry of a list of vectors.
  abbrev pub distances : List F32 → List (ℕ × List F32) → List (ℕ × F32)
  distances query = map (λ (p : ℕ × List F32). (p.0, l2_f32 query p.1))

  abbrev pub centroid_distances : IvfIndex F32 → List F32 → List (ℕ × F32)
  centroid_distances index query = distances query (enumerate_from 0 index.centroids)

  abbrev pub cluster_distances : IvfIndex F32 → List F32 → ℕ → List (ℕ × F32)
  cluster_distances index query c = distances query (get_or index.clusters c [])

  abbrev pub to_hit : (ℕ × F32) → Hit F32
  to_hit p = record { id = p.0; score = neg p.1 }

  all-below :
      (query : List F32) (i n : ℕ) (cs : List (List F32))
      → i + length cs ≤ n
      → all (λ (p : ℕ × F32). ltb p.0 n) (distances query (enumerate_from i cs)) ≡ true
  all-below query i n [] h = refl
  all-below query i n (c ∷ cs) h =
      let e : ltb i n ≡ true = ground arith in
      rw (e, all-below query (suc i) n cs (omega arith)) refl

  module _ (s : Sorting (ℕ × F32) (nearer fl)) where
    -- The clusters that are probed are in range.
    pub probe_route-in_range :
        (index : IvfIndex F32) (query : List F32) (nprobe : ℕ)
        → all (λ c. ltb c (length index.centroids)) (probe_route fl s l2_f32 index query nprobe)
          ≡ true
    unfolding probe_route
    probe_route-in_range index query nprobe =
        let n = length index.centroids in
        let below = λ (p : ℕ × F32). ltb p.0 n in
        let dists = centroid_distances index query in
        all-map (λ c. ltb c n) (λ (p : ℕ × F32). p.0) (take (min nprobe n) (s.sort dists))
        ∙ all-take below (min nprobe n) (s.sort dists)
            (all-Perm below (s.sort-Perm dists) ∙ all-below query 0 n index.centroids (omega arith))

    probe_route-eq-take :
        (index : IvfIndex F32) (query : List F32) (nprobe : ℕ)
        → probe_route fl s l2_f32 index query nprobe
          ≡ map (λ (p : ℕ × F32). p.0) (take nprobe (s.sort (centroid_distances index query)))
    unfolding probe_route
    probe_route-eq-take index query nprobe =
        let dists = centroid_distances index query in
        let len : length index.centroids ≡ length (s.sort dists) = sym (
          length-Perm (s.sort-Perm dists)
          ∙ length-map (enumerate_from 0 index.centroids)
              (λ (p : ℕ × List F32). (p.0, l2_f32 query p.1))
          ∙ length-enumerate 0 index.centroids) in
        ap (λ (m : ℕ). map (λ (p : ℕ × F32). p.0) (take (min nprobe m) (s.sort dists))) len
        ∙ ap (map (λ (p : ℕ × F32). p.0)) (take-min nprobe (s.sort dists))

    pub probe_merge_lem :
        (dists : List (ℕ × F32)) (k : ℕ)
        → probe_merge fl s dists k ≡ map to_hit (take k (s.sort dists))
    unfolding probe_merge
    probe_merge_lem dists k =
        let len = length-Perm (s.sort-Perm dists) in
        let short : take (min k (length dists)) (s.sort dists) ≡ take k (s.sort dists) =
          ap (λ (m : ℕ). take (min k m) (s.sort dists)) (sym len) ∙ take-min k (s.sort dists) in
        elim (Bool-cases (min k (length dists) == 0)) [
          | inl e ↦
              let none_left : take 0 (s.sort dists) ≡ take k (s.sort dists) =
                ap (λ (m : ℕ). take m (s.sort dists)) {x = 0} {y = min k (length dists)}
                  (ground arith)
                ∙ short in
              rw e (ap (map to_hit) none_left)
          | inr e ↦ rw e (ap (map to_hit) short)
        ]

    pub probe_distance_lem :
        (index : IvfIndex F32) (query : List F32) (probe_set : List ℕ)
        → all (λ c. ltb c (length index.clusters)) probe_set ≡ true
        → probe_distance fl s l2_f32 index query probe_set
          ≡ some (concat_map (cluster_distances index query) probe_set)
    unfolding probe_distance
    probe_distance_lem index query probe_set h =
        flat_map_list-eq (λ c. ltb c (length index.clusters)) _ (cluster_distances index query)
          (λ c inside. rw (get_elem?-eq-get_or index.clusters c [] (ground arith)) refl) probe_set h

    -- A probe of an index with a cluster for each centroid neither panics nor misses: its hits are the
    -- k best vectors, in order, of the clusters whose centroids are the nprobe nearest to the query.
    pub probe_lem :
        (index : IvfIndex F32) (query : List F32) (nprobe k : ℕ)
        → length index.clusters ≡ length index.centroids
        → (probed best : List (ℕ × F32)) × IsTopK
            (nearer fl)
            nprobe
            (centroid_distances index query)
            probed
          × IsTopK
              (nearer fl)
              k
              (concat_map (λ (p : ℕ × F32). cluster_distances index query p.0) probed)
              best
          × (probe fl s l2_f32 index query nprobe k ≡ some (map to_hit best))
    unfolding probe
    probe_lem index query nprobe k e =
        let probed = take nprobe (s.sort (centroid_distances index query)) in
        let found = concat_map (λ (p : ℕ × F32). cluster_distances index query p.0) probed in
        let reached : probe_distance fl s l2_f32 index query
              (probe_route fl s l2_f32 index query nprobe)
            ≡ some found =
          probe_distance_lem index query (probe_route fl s l2_f32 index query nprobe) (
            ap (λ (n : ℕ). all (λ c. ltb c n) (probe_route fl s l2_f32 index query nprobe)) e
            ∙ probe_route-in_range index query nprobe)
          ∙ ap (λ (cs : List ℕ). some (concat_map (cluster_distances index query) cs))
              (probe_route-eq-take index query nprobe)
          ∙ ap some
              (concat_map-map (cluster_distances index query) (λ (p : ℕ × F32). p.0) probed) in
        (
          probed,
          take k (s.sort found),
          take-sort-IsTopK (nearer fl) s nprobe (centroid_distances index query),
          take-sort-IsTopK (nearer fl) s k found,
          rw (reached, probe_merge_lem found k) refl,
        )
