-- ===== src/Ivf/Kmeans/Trained.antt =====
-- Training returns: k centroids, each of the dimension of the data, after as many rounds as it takes.
use secure_vector_search.Prelude.{
  zip_with, ℕ, zero, suc, ◌+◌, ◌-◌, ◌≤◌, ◌<◌, ◌≡◌, ◌⊎◌, refl, ap, arith, ◌==◌, true, false,
  Bool-cases, inl, inr, some, List, [], ◌∷◌, ◌++◌, map, length, length-map, length-append, subst,
}
use secure_vector_search.Float32.{Float32, IsFloat32}
use secure_vector_search.Ivf.Probe.{map_list}
use secure_vector_search.Ivf.Kmeans.{
  Random, choose, lower, squared, assign, round, lloyd, same_centroids, add_centroids,
  kmeans_plus_plus_init, train,
}
use secure_vector_search.Ivf.Kmeans.Nearest.{nearest_lem}
use secure_vector_search.Ivf.Kmeans.Shapes.{
  AllDim, AllBelow, get_elem?-AllDim, append-AllDim, recompute-total, choose-lt, length-zip_with_le,
}

module _ (fl : Float32) (std : IsFloat32 fl) (l2_f32 : List fl.F32 → List fl.F32 → fl.F32) where
  open fl use {F32, mul}

  -- Every vector of the data is assigned to a centroid.
  pub assign-total :
      (vectors centroids : List (List F32))
      → 0 < length centroids
      → (cs : List ℕ) × (assign fl l2_f32 vectors centroids ≡ some cs)
        × (length cs ≡ length vectors)
        × AllBelow (length centroids) cs
  unfolding assign map_list
  assign-total [] centroids h = ([], refl, refl, tt)
  assign-total (v ∷ vectors) centroids h =
      let (i, e, p) = nearest_lem fl std l2_f32 centroids v h in
      let (cs, es, l, b) = assign-total vectors centroids h in
      (i ∷ cs, rw (e, es) refl, ap suc l, (p.inside, b))

  round-total :
      (vectors centroids : List (List F32)) (k dim : ℕ)
      → 0 < k
      → length centroids ≡ k
      → (new : List (List F32)) × (round fl l2_f32 vectors k dim centroids ≡ some new)
        × (length new ≡ k)
        × AllDim dim new
  unfolding round
  round-total vectors centroids k dim h l =
      let (cs, e, _, b) = assign-total vectors centroids (omega arith) in
      let (new, e', l', a) =
        recompute-total fl vectors cs k dim (subst (λ (n : ℕ). AllBelow n cs) l b) in
      (new, rw e e', l', a)

  module _ (vectors : List (List F32)) (k dim : ℕ) where
    -- `b` is reached from `a` in `n` rounds.
    abbrev pub Rounds : ℕ → List (List F32) → List (List F32) → Type 0
    Rounds zero a b = a ≡ b
    Rounds (suc n) a b =
        (c : List (List F32)) × (round fl l2_f32 vectors k dim a ≡ some c) × Rounds n c b

    -- A further round changes nothing.
    abbrev pub IsStable : List (List F32) → Type 0
    IsStable cs =
        (new : List (List F32)) × (round fl l2_f32 vectors k dim cs ≡ some new)
        × (same_centroids fl new cs ≡ true)

    abbrev pub IsTrained : ℕ → List (List F32) → List (List F32) → Type 0
    IsTrained max_iter a b =
        (length b ≡ k)
        × AllDim dim b
        × ((n : ℕ) × (n ≤ max_iter) × Rounds n a b × ((n ≡ max_iter) ⊎ IsStable b))

    lloyd_lem :
        (max_iter : ℕ) (a : List (List F32))
        → 0 < k
        → length a ≡ k
        → AllDim dim a
        → (b : List (List F32)) × (lloyd fl l2_f32 vectors k dim max_iter a ≡ some b)
          × IsTrained max_iter a b
    unfolding lloyd
    lloyd_lem zero a h l d = (a, refl, (l, d, (0, omega arith, refl, inl refl)))
    lloyd_lem (suc left) a h l d =
        let (new, e, l', d') = round-total vectors a k dim h l in
        elim (Bool-cases (same_centroids fl new a)) [
          | inl same ↦ (a, rw (e, same) refl, (l, d, (0, omega arith, refl, inr (new, e, same))))
          | inr other ↦
              let (b, eb, (lb, db, (n, ln, r, stop))) = lloyd_lem left new h l' d' in
              (
                b,
                rw (e, other) eb,
                (lb, db, (suc n, omega arith, (new, e, r), later n left b stop)),
              )
        ]
      where
        later :
            (n left : ℕ) (b : List (List F32))
            → (n ≡ left) ⊎ IsStable b
            → (suc n ≡ suc left) ⊎ IsStable b
        later n left b (inl p) = inl (ap suc p)
        later n left b (inr p) = inr p

  module _ (g : Random F32) (sum_par : List F32 → F32) where
    open g use {State, seed_from_u64, random_range, random_f32}

    -- `random_range` stays in its range.
    abbrev pub InRange : Type 0
    InRange = (n : ℕ) (rng : State) → 0 < n → (random_range n rng).0 < n

    add_centroids-total :
        (vectors : List (List F32)) (dim left : ℕ) (cs : List (List F32)) (ds : List F32)
        (rng : State)
        → 0 < length vectors
        → AllDim dim vectors
        → AllDim dim cs
        → length ds ≤ length vectors
        → (cs' : List (List F32)) × (rng' : State) × (add_centroids fl l2_f32 g sum_par vectors left
              cs ds rng
            ≡ some (cs', rng'))
          × (length cs' ≡ length cs + left)
          × AllDim dim cs'
    unfolding add_centroids
    add_centroids-total vectors dim zero cs ds rng h a ac l = (cs, rng, refl, omega arith, ac)
    add_centroids-total vectors dim (suc left) cs ds rng h a ac l =
        let (r, rng1) = random_f32 rng in
        let i = choose fl (mul r (sum_par ds)) (length vectors - 1) 0 ds in
        let (c, ec, dc) = get_elem?-AllDim dim vectors i a (
          choose-lt fl (mul r (sum_par ds)) (length vectors - 1) 0 (length vectors) ds (omega arith)
            (omega arith)) in
        let ds1 = zip_with (lower fl l2_f32 c) ds vectors in
        let (cs', rng', e, l', a') =
          add_centroids-total vectors dim left (cs ++ c ∷ []) ds1 rng1 h a
            (append-AllDim dim cs c ac dc) (length-zip_with_le (lower fl l2_f32 c) ds vectors) in
        (cs', rng', rw ec e, omega (arith, length-append cs (c ∷ [])), a')

    -- With k centroids to find, at least one, in data of one dimension, some data, and a generator
    -- that draws in range, training panics nowhere, also where k exceeds the number of the vectors: it
    -- returns k centroids of that dimension, reached by at most max_iter rounds from the initial
    -- ones, and by fewer only if a further round changes nothing.
    pub train_lem :
        (vectors : List (List F32)) (dim k seed max_iter : ℕ)
        → 0 < k
        → 0 < length vectors
        → AllDim dim vectors
        → InRange
        → (init cs : List (List F32)) × (rng : State) × (kmeans_plus_plus_init fl l2_f32 g sum_par
              vectors k
              (seed_from_u64 seed)
            ≡ some (init, rng))
          × (train fl l2_f32 g sum_par vectors k seed max_iter ≡ some cs)
          × IsTrained vectors k dim max_iter init cs
    unfolding train kmeans_plus_plus_init
    train_lem vectors dim k seed max_iter hk hn a ranged =
        let (i, rng1) = random_range (length vectors) (seed_from_u64 seed) in
        let (c, ec, dc) =
          get_elem?-AllDim dim vectors i a (ranged (length vectors) (seed_from_u64 seed) hn) in
        let (v, ev, dv) = get_elem?-AllDim dim vectors 0 a hn in
        let ds = map (λ (u : List F32). squared fl l2_f32 u c) vectors in
        let (init, rng2, e, l, d) =
          add_centroids-total vectors dim (k - 1) (c ∷ []) ds rng1 hn a (dc, tt)
            (omega (arith, length-map vectors (λ (u : List F32). squared fl l2_f32 u c))) in
        let some_data : (length vectors == 0) ≡ false = ground arith in
        let ready : kmeans_plus_plus_init fl l2_f32 g sum_par vectors k (seed_from_u64 seed)
            ≡ some (init, rng2) =
          rw (some_data, ec) e in
        let (cs, el, trained) = lloyd_lem vectors k dim max_iter init hk (omega arith) d in
        let found : train fl l2_f32 g sum_par vectors k seed max_iter ≡ some cs =
          rw (ready, ev, dv) el in
        (init, cs, rng2, ready, found, trained)
