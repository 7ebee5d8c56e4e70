-- ===== src/Ivf/Kmeans/Nearest.antt =====
-- A vector is assigned to the first of its nearest centroids.
use secure_vector_search.Prelude.{
  ℕ, zero, suc, ◌+◌, ◌<◌, ◌≡◌, refl, ap, sym, ◌∙◌, arith, ltb, true, false, Bool-cases, inl, inr,
  some, List, [], ◌∷◌, map, length, get_or, subst,
}
use secure_vector_search.Float32.{Float32, IsFloat32}
use secure_vector_search.Ivf.Probe.{enumerate_from}
use secure_vector_search.Ivf.Kmeans.{closer, min_from, min_by, nearest}

module _ (fl : Float32) (std : IsFloat32 fl) where
  open fl use {F32, total_le}

  module _ (d : ℕ → F32) where
    -- The pairs of the indices i, ..., i + n - 1 with their values.
    abbrev pub pairs : ℕ → ℕ → List (ℕ × F32)
    pairs i zero = []
    pairs i (suc n) = (i, d i) ∷ pairs (suc i) n

    -- `b` is the first of the least among the first `i` values.
    pub record IsFirstLeast (i b : ℕ) : Type 0 where
      pub inside : b < i
      pub least : (j : ℕ) → j < i → total_le (d b) (d j) ≡ true
      pub first : (j : ℕ) → j < b → total_le (d j) (d b) ≡ false

    total_refl : (j : ℕ) → total_le (d j) (d j) ≡ true
    total_refl j = elim (std.total_le_total (d j) (d j)) [ inl e ↦ e | inr e ↦ e ]

    flipped : (j k : ℕ) → total_le (d j) (d k) ≡ false → total_le (d k) (d j) ≡ true
    flipped j k h = elim (std.total_le_total (d j) (d k)) [
      | inl e ↦ absurd (ground (arith, h, e))
      | inr e ↦ e
    ]

    keep : (i b : ℕ) → IsFirstLeast i b → total_le (d b) (d i) ≡ true → IsFirstLeast (suc i) b
    keep i b h e = record {
      inside = omega (arith, h.inside);
      least = λ j l. elim (Bool-cases (ltb j i)) [
        | inl below ↦ h.least j (ground arith)
        | inr last ↦
            let here : i ≡ j = ground arith in ap (λ (k : ℕ). total_le (d b) (d k)) (sym here) ∙ e
      ];
      first = h.first;
    }

    replace : (i b : ℕ) → IsFirstLeast i b → total_le (d b) (d i) ≡ false → IsFirstLeast (suc i) i
    replace i b h e = record {
      inside = omega arith;
      least = λ j l. elim (Bool-cases (ltb j i)) [
        | inl below ↦
            std.total_le_trans (d i) (d b) (d j) (flipped b i e) (h.least j (ground arith))
        | inr last ↦
            let here : i ≡ j = ground arith in
            ap (λ (k : ℕ). total_le (d i) (d k)) (sym here) ∙ total_refl i
      ];
      first = λ j l. elim (Bool-cases (total_le (d j) (d i))) [
        | inl le ↦ absurd (ground (arith, e, std.total_le_trans (d b) (d j) (d i) (h.least j l) le))
        | inr lt ↦ lt
      ];
    }

    closer_keeps : (i b : ℕ) → total_le (d b) (d i) ≡ true → closer fl (b, d b) (i, d i) ≡ (b, d b)
    unfolding closer
    closer_keeps i b e = rw e refl

    closer_replaces :
        (i b : ℕ) → total_le (d b) (d i) ≡ false → closer fl (b, d b) (i, d i) ≡ (i, d i)
    unfolding closer
    closer_replaces i b e = rw e refl

    pub min_from_lem :
        (n i b : ℕ)
        → IsFirstLeast i b
        → (r : ℕ) × (min_from fl (b, d b) (pairs i n) ≡ (r, d r)) × IsFirstLeast (i + n) r
    unfolding min_from
    min_from_lem zero i b h = (b, refl, subst (λ (k : ℕ). IsFirstLeast k b) (omega arith) h)
    min_from_lem (suc n) i b h = elim (Bool-cases (total_le (d b) (d i))) [
      | inl e ↦
          let (r, eq, p) = min_from_lem n (suc i) b (keep i b h e) in
          (
            r,
            ap (λ (p : ℕ × F32). min_from fl p (pairs (suc i) n)) (closer_keeps i b e) ∙ eq,
            subst (λ (k : ℕ). IsFirstLeast k r) (omega arith) p,
          )
      | inr e ↦
          let (r, eq, p) = min_from_lem n (suc i) i (replace i b h e) in
          (
            r,
            ap (λ (p : ℕ × F32). min_from fl p (pairs (suc i) n)) (closer_replaces i b e) ∙ eq,
            subst (λ (k : ℕ). IsFirstLeast k r) (omega arith) p,
          )
    ]

  module _ (l2_f32 : List F32 → List F32 → F32) where
    -- The distance of `v` from centroid `j`.
    abbrev pub distance_to : List (List F32) → List F32 → ℕ → F32
    distance_to centroids v j = l2_f32 v (get_or centroids j [])

    pairs-eq :
        (v : List F32) (d : ℕ → F32) (i : ℕ) (cs : List (List F32))
        → ((j : ℕ) → j < length cs → d (i + j) ≡ l2_f32 v (get_or cs j []))
        → map (λ (p : ℕ × List F32). (p.0, l2_f32 v p.1)) (enumerate_from i cs)
          ≡ pairs d i (length cs)
    pairs-eq v d i [] h = refl
    pairs-eq v d i (c ∷ cs) h =
        let here : l2_f32 v c ≡ d i =
          sym (h 0 (omega arith)) ∙ ap d {x = i + 0} {y = i} (omega arith) in
        let there =
          pairs-eq v d (suc i) cs
            (λ j l. ap d {x = suc i + j} {y = i + suc j} (omega arith) ∙ h (suc j) (omega arith)) in
        rw (here, there) refl

    -- With a centroid at least, a vector is assigned to one of the nearest, and to the first of them:
    -- none is nearer, and each one before it is farther.
    pub nearest_lem :
        (centroids : List (List F32)) (v : List F32)
        → 0 < length centroids
        → (i : ℕ) × (nearest fl l2_f32 centroids v ≡ some i)
          × IsFirstLeast (distance_to centroids v) (length centroids) i
    unfolding nearest min_by
    nearest_lem [] v h = absurd (omega arith)
    nearest_lem (c ∷ cs) v h =
        let d = distance_to (c ∷ cs) v in
        let only : IsFirstLeast d 1 0 = record {
          inside = omega arith;
          least = λ j l.
              ap (λ (k : ℕ). total_le (d 0) (d k)) {x = j} {y = 0} (omega arith) ∙ total_refl d 0;
          first = λ j l. absurd (omega arith);
        } in
        let (r, e, p) = min_from_lem d (length cs) 1 0 only in
        let listed = pairs-eq v d 1 cs (λ j l. ap d {x = 1 + j} {y = suc j} (omega arith)) in
        (
          r,
          ap (λ (xs : List (ℕ × F32)). some (min_from fl (0, l2_f32 v c) xs).0) listed
              ∙ ap (λ (q : ℕ × F32). some q.0) e,
          subst (λ (k : ℕ). IsFirstLeast d k r) {x = 1 + length cs} {y = suc (length cs)}
              (omega arith) p,
        )
