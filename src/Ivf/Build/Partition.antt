-- ===== src/Ivf/Build/Partition.antt =====
-- The clusters of an index partition its data: each holds the vectors assigned to it, in their order.
use mathlib.Core.List.{Perm, append_assoc, append-nil, perm_middle}
use mathlib.Core.List.Perm
use secure_vector_search.Prelude.{
  ℕ, zero, suc, ◌+◌, ◌≤◌, ◌<◌, ◌^◌, ◌%◌, ◌≡◌, refl, ap, sym, ◌∙◌, arith, subst, ltb, ◌==◌,
  if◌then◌else◌, false, Bool-cases, inl, inr, some, List, [], ◌∷◌, ◌++◌, length, get_or, get_or-set,
  set, replicate, length-set, length-replicate, get_or-replicate, get_elem?-eq-get_or, concat_map,
}
use secure_vector_search.Float32.{Float32, IsFloat32}
use secure_vector_search.Ivf.Index.{IvfIndex}
use secure_vector_search.Ivf.Probe.{enumerate_from}
use secure_vector_search.Ivf.Kmeans.{assign}
use secure_vector_search.Ivf.Kmeans.Shapes.{AllBelow}
use secure_vector_search.Ivf.Kmeans.Trained.{assign-total}
use secure_vector_search.Ivf.Build.{push_at, fill_clusters, build_index}

module _ {A : Type 0} where
  -- All rows, one after the other.
  abbrev pub concat : List (List A) → List A
  concat = concat_map (λ row. row)

  concat-set-Perm :
      (rows : List (List A)) (c : ℕ) (x : A)
      → c < length rows
      → Perm (concat (set rows c (get_or rows c [] ++ x ∷ []))) (x ∷ concat rows)
  concat-set-Perm [] c x h = absurd (omega arith)
  concat-set-Perm (row ∷ rows) zero x h =
      rw (append_assoc row (x ∷ []) (concat rows)) (perm_middle row (concat rows))
  concat-set-Perm (row ∷ rows) (suc c) x h =
      Perm.trans (Perm.append_left row (concat-set-Perm rows c x (omega arith)))
        (perm_middle row (concat rows))

  -- The vectors that are assigned to `c`, with their numbers from `i` on.
  abbrev pub members : ℕ → ℕ → List A → List ℕ → List (ℕ × A)
  members c i [] cs = []
  members c i (v ∷ vs) [] = []
  members c i (v ∷ vs) (b ∷ cs) =
      if b == c then (i, v) ∷ members c (suc i) vs cs else members c (suc i) vs cs

  pub push_at_lem :
      (rows : List (List A)) (c : ℕ) (x : A)
      → c < length rows
      → push_at rows c x ≡ some (set rows c (get_or rows c [] ++ x ∷ []))
  unfolding push_at
  push_at_lem rows c x h = rw (get_elem?-eq-get_or rows c [] h) refl

  pushed :
      (rows : List (List A)) (c a : ℕ) (x : A) (rest rest' : List A)
      → c < length rows
      → rest' ≡ (if c == a then x ∷ rest else rest)
      → get_or (set rows c (get_or rows c [] ++ x ∷ [])) a [] ++ rest ≡ get_or rows a [] ++ rest'
  pushed rows c a x rest rest' h e = elim (Bool-cases (c == a)) [
    | inl same ↦
        let here : c ≡ a = ground arith in
        let above : ltb c a ≡ false = ground arith in
        let below : ltb a c ≡ false = ground arith in
        let told : rest' ≡ x ∷ rest = rw same at e in
        let old : get_or rows c [] ≡ get_or rows a [] = ap (λ (j : ℕ). get_or rows j []) here in
        let now : get_or (set rows c (get_or rows c [] ++ x ∷ [])) a []
            ≡ get_or rows c [] ++ x ∷ [] =
          get_or-set rows c a (get_or rows c [] ++ x ∷ []) [] h ∙ rw (above, below) refl in
        rw (now, append_assoc (get_or rows c []) (x ∷ []) rest, old, told) refl
    | inr other ↦
        let told : rest' ≡ rest = rw other at e in
        let kept : get_or (set rows c (get_or rows c [] ++ x ∷ [])) a [] ≡ get_or rows a [] =
          get_or-set rows c a (get_or rows c [] ++ x ∷ []) [] h ∙ ground arith in
        rw (kept, told) refl
  ]

module _ {A : Type 0} where
  fill_clusters_lem :
      (i k : ℕ) (vs : List A) (cs : List ℕ) (rows : List (List (ℕ × A)))
      → length vs ≡ length cs
      → AllBelow k cs
      → length rows ≡ k
      → i + length vs ≤ 2 ^ 32
      → (rows' : List (List (ℕ × A))) × (fill_clusters i vs cs rows ≡ some rows')
        × (length rows' ≡ k)
        × ((c : ℕ) → c < k → get_or rows' c [] ≡ get_or rows c [] ++ members c i vs cs)
        × Perm (concat rows') (concat rows ++ enumerate_from i vs)
  unfolding fill_clusters
  fill_clusters_lem i k [] cs rows el b lr h = (
    rows,
    refl,
    lr,
    (λ c l. sym (append-nil (get_or rows c []))),
    subst (λ (xs : List (ℕ × A)). Perm (concat rows) xs) (sym (append-nil (concat rows)))
        (Perm.refl (concat rows)),
  )
  fill_clusters_lem i k (v ∷ vs) [] rows el b lr h = absurd (omega arith)
  fill_clusters_lem i k (v ∷ vs) (c ∷ cs) rows el b lr h =
      let fits : i % 2 ^ 32 ≡ i = omega arith in
      let inside : c < length rows = omega (arith, b.0) in
      let first : push_at rows c (i % 2 ^ 32, v)
          ≡ some (set rows c (get_or rows c [] ++ (i, v) ∷ [])) =
        ap (λ (j : ℕ). push_at rows c (j, v)) fits ∙ push_at_lem rows c (i, v) inside in
      let row = get_or rows c [] ++ (i, v) ∷ [] in
      let (rows', e, l', m, p) =
        fill_clusters_lem (suc i) k vs cs (set rows c row) (omega arith) b.1
          (length-set rows c row ∙ lr) (omega arith) in
      (
        rows',
        rw first e,
        l',
        (λ a la.
            m a la
            ∙ pushed rows c a (i, v) (members a (suc i) vs cs) (members a i (v ∷ vs) (c ∷ cs))
                inside refl),
        Perm.trans p (
            Perm.trans
              (Perm.append_right (enumerate_from (suc i) vs) (concat-set-Perm rows c (i, v) inside))
              (Perm.symm (perm_middle (concat rows) (enumerate_from (suc i) vs)))),
      )

concat-replicate : {A : Type 0} (k : ℕ) → concat (replicate {A = List A} k []) ≡ []
concat-replicate zero = refl
concat-replicate (suc k) = concat-replicate k

-- With a centroid at least, and at most 2^32 vectors, the index is built: it has a cluster for each
-- centroid, cluster c holds the vectors that `assign` assigns to c, in their order and with their
-- numbers, and together the clusters hold each vector of the data exactly once.
pub build_index_lem :
    (fl : Float32) (std : IsFloat32 fl) (l2_f32 : List fl.F32 → List fl.F32 → fl.F32)
    (vectors centroids : List (List fl.F32))
    → 0 < length centroids
    → length vectors ≤ 2 ^ 32
    → (index : IvfIndex fl.F32) × (assignments : List ℕ) × (build_index fl l2_f32 vectors centroids
        ≡ some index)
      × (assign fl l2_f32 vectors centroids ≡ some assignments)
      × (index.centroids ≡ centroids)
      × (length index.clusters ≡ length centroids)
      × ((c : ℕ)
          → c < length centroids
          → get_or index.clusters c [] ≡ members c 0 vectors assignments)
      × Perm (concat index.clusters) (enumerate_from 0 vectors)
unfolding build_index
build_index_lem fl std l2_f32 vectors centroids h n =
    let k = length centroids in
    let (cs, e, l, b) = assign-total fl std l2_f32 vectors centroids h in
    let (rows, er, lr, m, p) =
      fill_clusters_lem 0 k vectors cs (replicate k []) (sym l) b (length-replicate k [])
        (omega arith) in
    (
      record { centroids = centroids; clusters = rows },
      cs,
      rw (e, er) refl,
      e,
      refl,
      lr,
      (λ c hc. m c hc ∙ rw (get_or-replicate {A = List (ℕ × List fl.F32)} k [] c) refl),
      rw (concat-replicate {A = ℕ × List fl.F32} k) at p,
    )
