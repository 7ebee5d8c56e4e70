-- ===== src/Ivf/Batch/Gather.antt =====
-- What a batch gathers: for each query the distances of its probe set, in the order of the set.
use secure_vector_search.Prelude.{
  ℕ, zero, suc, ◌+◌, ◌≤◌, ◌<◌, ◌≡◌, ◌⊎◌, refl, ap, sym, ◌∙◌, arith, subst, inl, inr, some, List, [],
  ◌∷◌, ◌++◌, map, length, get_or-map, length-map, nth, concat_map,
}
use secure_vector_search.Float32.{Float32}
use secure_vector_search.Ivf.Index.{IvfIndex}
use secure_vector_search.Ivf.Probe.{enumerate_from, map_list}
use secure_vector_search.Ivf.Probe.Nearest.{cluster_distances}
use secure_vector_search.Ivf.Batch.{Visits, Bin, cluster_bins}
use secure_vector_search.Ivf.Batch.Invert.{In, row, Visit}
use secure_vector_search.Ivf.Batch.Scatter.{AllRight, keys}
use secure_vector_search.Ivf.Batch.Bins.{AllVisitors, bins_of, query_of, cluster_bins_lem}

-- A visit in the terms of the probe sets: the set of the query has the cluster at the position.
pub record IsVisit (i : ℕ) (sets : List (List ℕ)) (c : ℕ) (y : ℕ × ℕ) : Type 0 where
  pub number : ℕ
  pub query : y.0 ≡ i + number
  pub inside : number < length sets
  pub position : y.1 < length (row sets number)
  pub cluster : nth (row sets number) y.1 ≡ c

pub Visit-in :
    (i : ℕ) (sets : List (List ℕ)) (c : ℕ) (y : ℕ × ℕ) → Visit i sets c y → IsVisit i sets c y
Visit-in i [] c y v = absurd v
Visit-in i (probes ∷ sets) c (q, p) (inl (eq, (j, ep, l, e))) =
    let here : p ≡ j = omega arith in
    record {
      number = 0;
      query = omega arith;
      inside = omega arith;
      position = omega arith;
      cluster = ap (nth probes) here ∙ e;
    }
Visit-in i (probes ∷ sets) c y (inr later) =
    let v = Visit-in (suc i) sets c y later in
    record {
      number = suc v.number;
      query = omega (arith, v.query);
      inside = omega (arith, v.inside);
      position = v.position;
      cluster = v.cluster;
    }

pub in-Visit :
    (i j p : ℕ) (sets : List (List ℕ))
    → j < length sets
    → p < length (row sets j)
    → Visit i sets (nth (row sets j) p) (i + j, p)
in-Visit i j p [] h hp = absurd (omega arith)
in-Visit i zero p (probes ∷ sets) h hp = inl (omega arith, (p, omega arith, hp, refl))
in-Visit i (suc j) p (probes ∷ sets) h hp = inr (
    subst (λ (q : ℕ). Visit (suc i) sets (nth (row sets j) p) (q, p)) {x = suc i + j}
      {y = i + suc j} (omega arith) (in-Visit (suc i) j p sets (omega arith) hp))

pub AllVisitors-In :
    (n : ℕ) (visits : List (ℕ × ℕ)) → ((y : ℕ × ℕ) → In y visits → y.0 < n) → AllVisitors n visits
AllVisitors-In n [] h = tt
AllVisitors-In n ((q, p) ∷ visits) h =
    (h (q, p) (inl refl), AllVisitors-In n visits (λ y m. h y (inr m)))

module _ (fl : Float32) (l2_f32 : List fl.F32 → List fl.F32 → fl.F32) (index : IvfIndex fl.F32)
    (queries : List (List fl.F32)) where
  open fl use {F32}

  abbrev pub Entries : Type 0
  Entries = List (ℕ × F32)

  -- The bins of all clusters, from cluster `i` on.
  abbrev pub contribs : ℕ → Visits → List (List (Bin fl))
  contribs i [] = []
  contribs i (visits ∷ table) =
      bins_of fl l2_f32 queries (row index.clusters i) visits ∷ contribs (suc i) table

  pub contribs_lem :
      (i : ℕ) (table : Visits)
      → i + length table ≤ length index.clusters
      → ((c : ℕ) → c < length table → AllVisitors (length queries) (row table c))
      → map_list (cluster_bins fl l2_f32 index queries) (enumerate_from i table)
        ≡ some (contribs i table)
  unfolding map_list
  contribs_lem i [] h a = refl
  contribs_lem i (visits ∷ table) h a =
      rw
        (
          cluster_bins_lem fl l2_f32 queries index i visits (omega arith) (a 0 (omega arith)),
          contribs_lem (suc i) table (omega arith) (λ c l. a (suc c) (omega arith)),
        )
        refl

  module _ (sets : List (List ℕ)) where
    abbrev pub lens : List ℕ
    lens = map length sets

    -- The distances of the query `q` from the cluster at position `p` of its probe set.
    abbrev pub value : ℕ → ℕ → Entries
    value q p =
        cluster_distances fl l2_f32 index (query_of fl l2_f32 queries q) (nth (row sets q) p)

    pub nth-lens : (q : ℕ) → q < length sets → nth lens q ≡ length (row sets q)
    nth-lens q h = get_or-map sets length q [] 0 h

    -- Each visit of the list is one of the probe sets to cluster `c`.
    abbrev pub AreVisits : ℕ → List (ℕ × ℕ) → Type 0
    AreVisits c visits = (y : ℕ × ℕ) → In y visits → IsVisit 0 sets c y

    bins_right :
        (c : ℕ) (visits : List (ℕ × ℕ))
        → AreVisits c visits
        → AllRight [] lens value (bins_of fl l2_f32 queries (row index.clusters c) visits)
    bins_right c [] h = tt
    bins_right c ((q, p) ∷ visits) h =
        let v = h (q, p) (inl refl) in
        let same : v.number ≡ q = omega (arith, v.query) in
        let inside : q < length sets = omega (arith, v.inside) in
        let at : nth (row sets q) p ≡ c =
          ap (λ (j : ℕ). nth (row sets j) p) (sym same) ∙ v.cluster in
        let fits : p < length (row sets q) =
          subst (λ (j : ℕ). p < length (row sets j)) same v.position in
        (
          omega (arith, length-map sets length),
          omega (arith, nth-lens q inside),
          ap (cluster_distances fl l2_f32 index (query_of fl l2_f32 queries q)) (sym at),
          bins_right c visits (λ y m. h y (inr m)),
        )

    pub AllRight-append :
        (xs ys : List (Bin fl))
        → AllRight [] lens value xs
        → AllRight [] lens value ys
        → AllRight [] lens value (xs ++ ys)
    AllRight-append [] ys a b = b
    AllRight-append ((q, p, bin) ∷ xs) ys a b = (a.0, a.1, a.2, AllRight-append xs ys a.3 b)

    pub contribs_right :
        (i : ℕ) (table : Visits)
        → ((c : ℕ) → c < length table → AreVisits (i + c) (row table c))
        → AllRight [] lens value (concat_map (λ bins. bins) (contribs i table))
    contribs_right i [] h = tt
    contribs_right i (visits ∷ table) h =
        AllRight-append (bins_of fl l2_f32 queries (row index.clusters i) visits)
          (concat_map (λ bins. bins) (contribs (suc i) table))
          (bins_right i visits (
            subst (λ (c : ℕ). AreVisits c visits) {x = i + 0} {y = i} (omega arith)
              (h 0 (omega arith))))
          (contribs_right (suc i) table (λ c l.
            subst (λ (j : ℕ). AreVisits j (row table c)) {x = i + suc c} {y = suc i + c}
              (omega arith) (h (suc c) (omega arith))))

    keys-append :
        (xs ys : List (Bin fl)) (y : ℕ × ℕ)
        → In y (keys [] lens value xs) ⊎ In y (keys [] lens value ys)
        → In y (keys [] lens value (xs ++ ys))
    keys-append [] ys y (inl m) = absurd m
    keys-append [] ys y (inr m) = m
    keys-append ((q, p, b) ∷ xs) ys y (inl (inl e)) = inl e
    keys-append ((q, p, b) ∷ xs) ys y (inl (inr m)) = inr (keys-append xs ys y (inl m))
    keys-append ((q, p, b) ∷ xs) ys y (inr m) = inr (keys-append xs ys y (inr m))

    keys-bins_of :
        (es : List (ℕ × List F32)) (visits : List (ℕ × ℕ)) (y : ℕ × ℕ)
        → In y visits
        → In y (keys [] lens value (bins_of fl l2_f32 queries es visits))
    keys-bins_of es [] y m = m
    keys-bins_of es ((q, p) ∷ visits) y (inl e) = inl e
    keys-bins_of es ((q, p) ∷ visits) y (inr m) = inr (keys-bins_of es visits y m)

    pub keys-contribs :
        (i : ℕ) (table : Visits) (c : ℕ) (y : ℕ × ℕ)
        → In y (row table c)
        → In y (keys [] lens value (concat_map (λ bins. bins) (contribs i table)))
    keys-contribs i [] c y m = m
    keys-contribs i (visits ∷ table) zero y m =
        keys-append (bins_of fl l2_f32 queries (row index.clusters i) visits)
          (concat_map (λ bins. bins) (contribs (suc i) table)) y
          (inl (keys-bins_of (row index.clusters i) visits y m))
    keys-contribs i (visits ∷ table) (suc c) y m =
        keys-append (bins_of fl l2_f32 queries (row index.clusters i) visits)
          (concat_map (λ bins. bins) (contribs (suc i) table)) y
          (inr (keys-contribs (suc i) table c y m))
