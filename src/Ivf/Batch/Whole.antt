-- ===== src/Ivf/Batch/Whole.antt =====
-- All that a batch gathers: the row of each query holds what the query finds in its probe set.
use secure_vector_search.Prelude.{
  zip_with, ℕ, ◌+◌, ◌<◌, ◌≡◌, ◌⊎◌, refl, ap, ap₂, sym, ◌∙◌, arith, subst, inl, inr, some, List, [],
  ◌∷◌, map, length, get_or-map, length-map, replicate, length-replicate, get_or-replicate,
  get_or_ext, nth, concat_map,
}
use secure_vector_search.Float32.{Float32}
use secure_vector_search.Sorting.{Sorting}
use secure_vector_search.Ivf.Index.{IvfIndex}
use secure_vector_search.Ivf.Probe.{Hit, nearer, probe_merge}
use secure_vector_search.Ivf.Probe.Nearest.{cluster_distances, concat_map-map}
use secure_vector_search.Ivf.Batch.{gather}
use secure_vector_search.Ivf.Batch.Invert.{In, row, Visit, AllSets, invert_lem}
use secure_vector_search.Ivf.Batch.Scatter.{cell, HasShape, scatter_lem}
use secure_vector_search.Ivf.Batch.Bins.{AllVisitors, query_of}
use secure_vector_search.Ivf.Batch.Zip.{length-zip_with, get_or-zip_with, map-zip_with}
use secure_vector_search.Ivf.Batch.Gather.{
  IsVisit, Visit-in, in-Visit, AllVisitors-In, contribs, contribs_lem, contribs_right,
  keys-contribs, value,
}

empty_shape :
    {A : Type 0} (sets : List (List ℕ))
    → HasShape {A = List A} []
        (map length sets)
        (map (λ (ps : List ℕ). replicate (length ps) []) sets)
empty_shape sets = record {
  rows_length =
      length-map sets (λ (ps : List ℕ). replicate (length ps) []) ∙ sym (length-map sets length);
  row_length = λ q h.
      let inside : q < length sets = omega (arith, length-map sets length) in
      ap length (get_or-map sets (λ (ps : List ℕ). replicate (length ps) []) q [] [] inside)
      ∙ length-replicate (length (row sets q)) []
      ∙ sym (get_or-map sets length q [] 0 inside);
}

module _ (fl : Float32) (l2_f32 : List fl.F32 → List fl.F32 → fl.F32)
    (s : Sorting (ℕ × fl.F32) (nearer fl)) (index : IvfIndex fl.F32) where
  open fl use {F32}

  -- What a query finds in the clusters of its probe set.
  abbrev pub found : List F32 → List ℕ → List (List (ℕ × F32))
  found query set = map (cluster_distances fl l2_f32 index query) set

  abbrev pub ranked : ℕ → List F32 → List ℕ → List (Hit F32)
  ranked k query set = probe_merge fl s (concat_map (cluster_distances fl l2_f32 index query) set) k

  -- Cells that hold their values are the lists that the queries find.
  cells_are :
      (queries : List (List F32)) (sets : List (List ℕ)) (rows : List (List (List (ℕ × F32))))
      → length queries ≡ length sets
      → HasShape [] (map length sets) rows
      → ((q p : ℕ)
          → q < length sets
          → p < length (row sets q)
          → cell [] rows q p ≡ value fl l2_f32 index queries sets q p)
      → rows ≡ zip_with found queries sets
  cells_are queries sets rows hl shape h =
      get_or_ext [] rows (zip_with found queries sets)
        (omega
          (arith, shape.rows_length, length-map sets length, length-zip_with found queries sets hl))
        (λ q l.
          let inside : q < length sets = omega (arith, shape.rows_length, length-map sets length) in
          let visit = cluster_distances fl l2_f32 index (query_of fl l2_f32 queries q) in
          let wide : length (row rows q) ≡ length (row sets q) =
            shape.row_length q (omega (arith, length-map sets length))
            ∙ get_or-map sets length q [] 0 inside in
          get_or_ext [] (row rows q) (map visit (row sets q))
            (wide ∙ sym (length-map (row sets q) visit))
            (λ p lp.
              h q p inside (omega arith) ∙ sym (get_or-map (row sets q) visit p 0 [] (omega arith)))
          ∙ sym (get_or-zip_with found queries sets q [] [] [] hl inside))

  pub gather_lem :
      (queries : List (List F32)) (sets : List (List ℕ)) (k : ℕ)
      → length queries ≡ length sets
      → AllSets (length index.clusters) sets
      → gather fl l2_f32 s index sets queries k ≡ some (zip_with (ranked k) queries sets)
  unfolding gather
  gather_lem queries sets k hl a =
      let n = length index.clusters in
      let visit_value = value fl l2_f32 index queries sets in
      let (table, e, lt, sound, complete) =
        invert_lem 0 n sets (replicate n []) a (length-replicate n []) in
      let really : (c : ℕ) (y : ℕ × ℕ) → In y (row table c) → IsVisit 0 sets c y =
        λ c y m. from_empty n c y (sound c y m) in
      let bins = concat_map (λ bs. bs) (contribs fl l2_f32 index queries 0 table) in
      let visitors : (c : ℕ) → c < length table → AllVisitors (length queries) (row table c) =
        λ c l.
          AllVisitors-In (length queries) (row table c)
            (λ y m. let v = really c y m in omega (arith, v.query, v.inside)) in
      let right = contribs_right fl l2_f32 index queries sets 0 table (λ c l.
        subst (λ (j : ℕ). (y : ℕ × ℕ) → In y (row table c) → IsVisit 0 sets j y) {x = c} {y = 0 + c}
          (omega arith) (really c)) in
      let empty = map (λ (ps : List ℕ). replicate {A = List (ℕ × F32)} (length ps) []) sets in
      let (rows, es, shape, done) =
        scatter_lem [] (map length sets) visit_value bins empty right (empty_shape sets) in
      let reached : (q p : ℕ)
          → q < length sets
          → p < length (row sets q)
          → cell [] rows q p ≡ visit_value q p =
        λ q p hq hp. done q p (
          inr (
            keys-contribs fl l2_f32 index queries sets 0 table (nth (row sets q) p) (q, p)
              (complete (nth (row sets q) p) (q, p)
                (inr (
                  subst (λ (j : ℕ). Visit 0 sets (nth (row sets q) p) (j, p)) {x = 0 + q} {y = q}
                    (omega arith) (in-Visit 0 q p sets hq hp)))))) in
      rw
        (
          e,
          contribs_lem fl l2_f32 index queries 0 table (omega arith) visitors,
          es,
          cells_are queries sets rows hl shape reached,
        )
        (ap some (
          map-zip_with (λ bs. probe_merge fl s (concat_map (λ b. b) bs) k) found queries sets
          ∙ zip_congr k queries sets))
    where
      from_empty :
          (n c : ℕ) (y : ℕ × ℕ)
          → In y (row (replicate n []) c) ⊎ Visit 0 sets c y
          → IsVisit 0 sets c y
      from_empty n c y (inl m) =
          absurd (subst (In y) (get_or-replicate {A = List (ℕ × ℕ)} n [] c) m)
      from_empty n c y (inr v) = Visit-in 0 sets c y v

      zip_congr :
          (k : ℕ) (qs : List (List F32)) (ss : List (List ℕ))
          → zip_with (λ q set. probe_merge fl s (concat_map (λ b. b) (found q set)) k) qs ss
            ≡ zip_with (ranked k) qs ss
      zip_congr k [] ss = refl
      zip_congr k (q ∷ qs) [] = refl
      zip_congr k (q ∷ qs) (set ∷ ss) =
          ap₂ ◌∷◌
            (ap (λ (es : List (ℕ × F32)). probe_merge fl s es k)
              (concat_map-map (λ b. b) (cluster_distances fl l2_f32 index q) set))
            (zip_congr k qs ss)
