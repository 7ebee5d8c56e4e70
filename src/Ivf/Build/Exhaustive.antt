-- ===== src/Ivf/Build/Exhaustive.antt =====
-- Probing all clusters of a built index is an exhaustive search of the data.
use mathlib.Core.List.{Perm}
use mathlib.Core.List.Perm
use secure_vector_search.Prelude.{
  ℕ, zero, suc, ◌+◌, ◌≤◌, ◌<◌, ◌^◌, ◌≡◌, refl, ap, sym, ◌∙◌, arith, subst, some, Bool, List, [],
  ◌∷◌, ◌++◌, map, length, get_or, drop, concat_map, length-append, length-map, map-append,
}
use secure_vector_search.Float32.{Float32, IsFloat32}
use secure_vector_search.Sorting.{Sorting}
use secure_vector_search.Sorting.TopK.{IsTopK}
use secure_vector_search.Sorting.Order.{length-Perm, concat_map-Perm}
use secure_vector_search.Ivf.Index.{IvfIndex}
use secure_vector_search.Ivf.Probe.{enumerate_from, nearer, probe}
use secure_vector_search.Ivf.Probe.Nearest.{
  distances, centroid_distances, cluster_distances, to_hit, probe_lem, length-enumerate,
}
use secure_vector_search.Ivf.Build.{build_index}
use secure_vector_search.Ivf.Build.Partition.{concat, build_index_lem}

append-IsNil {ℓ} : {A : Type ℓ} (xs ys : List A) → length (xs ++ ys) ≤ length xs → xs ++ ys ≡ xs
append-IsNil [] [] h = refl
append-IsNil [] (y ∷ ys) h = absurd (omega arith)
append-IsNil (x ∷ xs) ys h = ap (λ (zs : List _). x ∷ zs) (append-IsNil xs ys (omega arith))

-- All elements are among the best k, if there are no more than k.
TopK-all :
    {A : Type 0} (le : A → A → Bool) (k : ℕ) (xs hits : List A)
    → IsTopK le k xs hits
    → length xs ≤ k
    → Perm hits xs
TopK-all le k xs hits top h =
    let whole =
      append-IsNil hits top.rest
        (omega (arith, length-append hits top.rest, length-Perm top.split, top.size)) in
    subst (λ (zs : List _). Perm zs xs) whole top.split

drop_nth :
    {A : Type 0} (i : ℕ) (rows : List (List A))
    → i < length rows
    → drop i rows ≡ get_or rows i [] ∷ drop (suc i) rows
drop_nth i [] h = absurd (omega arith)
drop_nth zero (row ∷ rows) h = refl
drop_nth (suc i) (row ∷ rows) h = drop_nth i rows (omega arith)

drop_beyond : {A : Type 0} (i : ℕ) (rows : List (List A)) → length rows ≤ i → drop i rows ≡ []
drop_beyond zero [] h = refl
drop_beyond (suc i) [] h = refl
drop_beyond zero (row ∷ rows) h = absurd (omega arith)
drop_beyond (suc i) (row ∷ rows) h = drop_beyond i rows (omega arith)

map-concat :
    {A B : Type 0} (f : A → B) (rows : List (List A))
    → map f (concat rows) ≡ concat_map (map f) rows
map-concat f [] = refl
map-concat f (row ∷ rows) =
    map-append f row (concat rows) ∙ ap (λ (zs : List _). map f row ++ zs) (map-concat f rows)

module _ (fl : Float32) (l2_f32 : List fl.F32 → List fl.F32 → fl.F32) where
  open fl use {F32}

  -- Visiting every centroid in order visits every cluster.
  visit_all :
      (index : IvfIndex F32) (query : List F32) (i : ℕ) (cs : List (List F32))
      → length index.clusters ≡ i + length cs
      → concat_map
          (λ (p : ℕ × F32). cluster_distances fl l2_f32 index query p.0)
          (distances fl l2_f32 query (enumerate_from i cs))
        ≡ concat_map (distances fl l2_f32 query) (drop i index.clusters)
  visit_all index query i [] h =
      sym (ap (concat_map (distances fl l2_f32 query)) (drop_beyond i index.clusters (omega arith)))
  visit_all index query i (c ∷ cs) h =
      ap (λ (zs : List (ℕ × F32)). cluster_distances fl l2_f32 index query i ++ zs)
        (visit_all index query (suc i) cs (omega arith))
      ∙ sym (ap (concat_map (distances fl l2_f32 query)) (drop_nth i index.clusters (omega arith)))

  -- With at least as many probes as centroids, probing the index that was built from the data
  -- returns the k vectors of the data that are nearest to the query, in order.
  pub probe-build_index :
      (std : IsFloat32 fl) (s : Sorting (ℕ × F32) (nearer fl)) (vectors centroids : List (List F32))
      (query : List F32) (nprobe k : ℕ)
      → 0 < length centroids
      → length vectors ≤ 2 ^ 32
      → length centroids ≤ nprobe
      → (index : IvfIndex F32) × (best : List (ℕ × F32)) × (build_index fl l2_f32 vectors centroids
          ≡ some index)
        × IsTopK (nearer fl) k (distances fl l2_f32 query (enumerate_from 0 vectors)) best
        × (probe fl s l2_f32 index query nprobe k ≡ some (map (to_hit fl l2_f32) best))
  probe-build_index std s vectors centroids query nprobe k h n all_probed =
      let (index, cs, built, _, ec, el, _, parts) =
        build_index_lem fl std l2_f32 vectors centroids h n in
      let (probed, best, near, top, found) =
        probe_lem fl l2_f32 s index query nprobe k (el ∙ ap length (sym ec)) in
      let dists = centroid_distances fl l2_f32 index query in
      let visit = λ (p : ℕ × F32). cluster_distances fl l2_f32 index query p.0 in
      let count : length dists ≤ nprobe = omega (
        arith,
        length-map {B = ℕ × F32} (enumerate_from 0 index.centroids)
            (λ (p : ℕ × List F32). (p.0, l2_f32 query p.1)),
        length-enumerate 0 index.centroids,
        ap length ec,
      ) in
      let visited : Perm (concat_map visit probed) (concat_map visit dists) =
        concat_map-Perm visit (TopK-all (nearer fl) nprobe dists probed near count) in
      let everything : concat_map visit dists ≡ distances fl l2_f32 query (concat index.clusters) =
        visit_all index query 0 index.centroids (omega (arith, el, ap length ec))
        ∙ sym (map-concat (λ (p : ℕ × List F32). (p.0, l2_f32 query p.1)) index.clusters) in
      let whole : Perm (concat_map visit probed)
          (distances fl l2_f32 query (enumerate_from 0 vectors)) =
        Perm.trans visited
          (rw everything (Perm.map (λ (p : ℕ × List F32). (p.0, l2_f32 query p.1)) parts)) in
      (
        index,
        best,
        built,
        record {
          rest = top.rest;
          split = Perm.trans top.split whole;
          size = top.size;
          ordered = top.ordered;
          best = top.best;
        },
        found,
      )
