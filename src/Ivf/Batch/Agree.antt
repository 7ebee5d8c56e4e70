-- ===== src/Ivf/Batch/Agree.antt =====
-- A batch returns what probing returns for each of its queries.
use secure_vector_search.Prelude.{
  zip_with, ℕ, suc, ◌≡◌, refl, ap, sym, ◌∙◌, arith, ltb, ◌==◌, if◌then◌else◌, false, Bool-cases,
  inl, inr, Option, none, some, ◌>>=◌, List, [], ◌∷◌, map, length, length-map, all,
}
use secure_vector_search.Float32.{Float32}
use secure_vector_search.Sorting.{Sorting}
use secure_vector_search.Ivf.Index.{IvfIndex}
use secure_vector_search.Ivf.Probe.{
  Hit, map_list, nearer, probe_route, probe_distance, probe_merge, probe,
}
use secure_vector_search.Ivf.Probe.Nearest.{probe_distance_lem, probe_route-in_range}
use secure_vector_search.Ivf.Batch.{gather, probe_batch, probe_batch_split}
use secure_vector_search.Ivf.Batch.Invert.{AllSets}
use secure_vector_search.Ivf.Batch.Zip.{zip_with-map}
use secure_vector_search.Ivf.Batch.Whole.{ranked, gather_lem}

not_empty : (n : ℕ) → (suc n == 0) ≡ false
not_empty n = ground arith

module _ (fl : Float32) (l2_f32 : List fl.F32 → List fl.F32 → fl.F32)
    (s : Sorting (ℕ × fl.F32) (nearer fl)) (index : IvfIndex fl.F32) where
  open fl use {F32}

  routed-AllSets :
      (queries : List (List F32)) (nprobe : ℕ)
      → length index.clusters ≡ length index.centroids
      → AllSets (length index.clusters) (map (λ q. probe_route fl s l2_f32 index q nprobe) queries)
  routed-AllSets [] nprobe h = tt
  routed-AllSets (q ∷ queries) nprobe h = (
    ap (λ (n : ℕ). all (λ c. ltb c n) (probe_route fl s l2_f32 index q nprobe)) h
        ∙ probe_route-in_range fl l2_f32 s index q nprobe,
    routed-AllSets queries nprobe h,
  )

  probes_lem :
      (queries : List (List F32)) (nprobe k : ℕ)
      → length index.clusters ≡ length index.centroids
      → map_list (λ q. probe fl s l2_f32 index q nprobe k) queries
        ≡ some (
            map
              (λ q. ranked fl l2_f32 s index k q (probe_route fl s l2_f32 index q nprobe))
              queries)
  unfolding map_list probe
  probes_lem [] nprobe k h = refl
  probes_lem (q ∷ queries) nprobe k h =
      rw
        (
          probe_distance_lem fl l2_f32 s index q (probe_route fl s l2_f32 index q nprobe)
              (routed-AllSets (q ∷ []) nprobe h).0,
          probes_lem queries nprobe k h,
        )
        refl

  -- On an index with a cluster for each centroid, a batch returns, for every batch of queries, the
  -- list of what `probe` returns for each, in their order, and panics nowhere.
  pub probe_batch-eq-probes :
      (queries : List (List F32)) (nprobe k : ℕ)
      → length index.clusters ≡ length index.centroids
      → (hits : List (List (Hit F32))) × (probe_batch fl l2_f32 s index queries nprobe k
          ≡ some hits)
        × (map_list (λ q. probe fl s l2_f32 index q nprobe k) queries ≡ some hits)
  unfolding probe_batch
  probe_batch-eq-probes [] nprobe k h = ([], refl, probes_lem [] nprobe k h)
  probe_batch-eq-probes (q ∷ queries) nprobe k h =
      let route = λ (q' : List F32). probe_route fl s l2_f32 index q' nprobe in
      let sets = map route (q ∷ queries) in
      (
        map (λ q'. ranked fl l2_f32 s index k q' (route q')) (q ∷ queries),
        rw (probe_batch, not_empty (length queries))
            (gather_lem fl l2_f32 s index (q ∷ queries) sets k
                (sym (length-map (q ∷ queries) route)) (routed-AllSets (q ∷ queries) nprobe h)
              ∙ ap some (zip_with-map (ranked fl l2_f32 s index k) route (q ∷ queries))),
        probes_lem (q ∷ queries) nprobe k h,
      )

  -- A query that is routed by one vector and scored by another.
  abbrev pub split_probe : ℕ → ℕ → (List F32 × List F32) → Option (List (Hit F32))
  split_probe nprobe k (routing, scoring) = do
    dists ← probe_distance fl s l2_f32 index scoring (probe_route fl s l2_f32 index routing nprobe)
    some (probe_merge fl s dists k)

  split_probes_lem :
      (routing scoring : List (List F32)) (nprobe k : ℕ)
      → length index.clusters ≡ length index.centroids
      → map_list (split_probe nprobe k) (zip_with (λ r q. (r, q)) routing scoring)
        ≡ some (
            zip_with
              (ranked fl l2_f32 s index k)
              scoring
              (map (λ r. probe_route fl s l2_f32 index r nprobe) routing))
  unfolding map_list
  split_probes_lem [] [] nprobe k h = refl
  split_probes_lem [] (q ∷ scoring) nprobe k h = refl
  split_probes_lem (r ∷ routing) [] nprobe k h = refl
  split_probes_lem (r ∷ routing) (q ∷ scoring) nprobe k h =
      rw
        (
          probe_distance_lem fl l2_f32 s index q (probe_route fl s l2_f32 index r nprobe)
              (routed-AllSets (r ∷ []) nprobe h).0,
          split_probes_lem routing scoring nprobe k h,
        )
        refl

  -- With as many scoring as routing queries, on an index with a cluster for each centroid, the split
  -- batch returns for each pair the ranking, by the scoring query, of the clusters that the routing
  -- query probes; with another number of scoring queries it panics.
  pub probe_batch_split_lem :
      (routing scoring : List (List F32)) (nprobe k : ℕ)
      → length index.clusters ≡ length index.centroids
      → probe_batch_split fl l2_f32 s index routing scoring nprobe k ≡ (
          if length routing == length scoring
          then map_list (split_probe nprobe k) (zip_with (λ r q. (r, q)) routing scoring)
          else none)
  unfolding probe_batch_split
  probe_batch_split_lem routing scoring nprobe k h =
      elim (Bool-cases (length routing == length scoring)) [
        | inr e ↦ rw (probe_batch_split, e) refl
        | inl e ↦ rw (probe_batch_split, e) (aligned routing scoring (ground arith))
      ]
    where
      aligned :
          (rs qs : List (List F32))
          → length rs ≡ length qs
          → (let sets = map (λ (r : List F32). probe_route fl s l2_f32 index r nprobe) rs in
              if length rs == 0 then some [] else gather fl l2_f32 s index sets qs k)
            ≡ map_list (split_probe nprobe k) (zip_with (λ r q. (r, q)) rs qs)
      aligned [] [] el = sym (split_probes_lem [] [] nprobe k h)
      aligned [] (q ∷ qs) el = absurd (omega arith)
      aligned (r ∷ rs) qs el =
          let route = λ (r' : List F32). probe_route fl s l2_f32 index r' nprobe in
          rw (not_empty (length rs)) (
            gather_lem fl l2_f32 s index qs (map route (r ∷ rs)) k
              (omega (arith, length-map (r ∷ rs) route)) (routed-AllSets (r ∷ rs) nprobe h)
            ∙ sym (split_probes_lem (r ∷ rs) qs nprobe k h))
