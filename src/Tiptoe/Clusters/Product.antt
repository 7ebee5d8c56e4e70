-- ===== src/Tiptoe/Clusters/Product.antt =====
-- The query in the columns of the database: their product is the inner product of the encoded query
-- with the encoded vectors of one cluster.
use native.Mathlib.Nat.{mul-zero}
use secure_vector_search.Prelude.{
  ℕ, ◌+◌, ◌-◌, ◌*◌, ◌≤◌, ◌<◌, ◌≡◌, refl, ap, ap₂, sym, ◌∙◌, arith, Bool, ℤ, some, ok, List, [],
  length, get_or, nth, replicate, length-replicate, get_or-replicate, length-map, row_inside, sum,
  sum_congr, sum-zero, sum-append, slice_lem, take, drop, length-take-drop,
}
use secure_vector_search.Ivf.Index.{IvfIndex}
use secure_vector_search.Tiptoe.Clusters.{
  EncodedClusters, splice, encode_vector, build_augmented_query, width, cluster_col_start,
}
use secure_vector_search.Tiptoe.Clusters.Blocks.{
  length-splice, nth-splice_inside, nth-splice_before, nth-splice_after,
}
use secure_vector_search.Tiptoe.Clusters.Rows.{encode_vector_lem, slot}
use secure_vector_search.Tiptoe.Clusters.Database.{enc, IsFiniteVector, vector_at, IsDatabase}

-- A sum that is zero outside a block is the sum of the block.
sum_block :
    (before size after : ℕ) (f : ℕ → ℕ)
    → ((i : ℕ) → i < before → f i ≡ 0)
    → ((i : ℕ) → before + size ≤ i → f i ≡ 0)
    → sum (before + size + after) f ≡ sum size (λ j. f (before + j))
sum_block before size after f h h' =
    let front : sum before f ≡ 0 = sum_congr before f (λ _. 0) h ∙ sum-zero before in
    let back : sum after (λ i. f (before + size + i)) ≡ 0 =
      sum_congr after (λ i. f (before + size + i)) (λ _. 0)
        (λ i _. h' (before + size + i) (omega arith))
      ∙ sum-zero after in
    omega (arith, sum-append (before + size) after f, sum-append before size f, front, back)

module _ {F32 : Type 0} (scale : F32 → ℕ → ℤ) (ratio : ℤ → ℕ → F32) (is_finite : F32 → Bool)
    (quantisation_bits p : ℕ) (few_bits : quantisation_bits ≤ 30) where
  abbrev slots_of : List F32 → List ℕ
  slots_of = enc scale ratio is_finite quantisation_bits p few_bits

  -- The query, encoded in the block of one cluster, with zeros in the others.
  pub record IsAugmented (e : EncodedClusters) (c : ℕ) (query : List F32) (q_tilde : List ℕ)
      : Type 0 where
    pub columns : length q_tilde ≡ e.n_centroids * e.d
    pub inside : (j : ℕ) → j < e.d → nth q_tilde (c * e.d + j) ≡ nth (slots_of query) j
    pub before : (i : ℕ) → i < c * e.d → nth q_tilde i ≡ 0
    pub after : (i : ℕ) → c * e.d + e.d ≤ i → nth q_tilde i ≡ 0

  pub augmented_lem :
      (e : EncodedClusters) (c : ℕ) (query : List F32)
      → c < e.n_centroids
      → length query ≡ e.d
      → IsFiniteVector scale ratio is_finite quantisation_bits p few_bits query
      → (q_tilde : List ℕ) × (build_augmented_query scale ratio is_finite quantisation_bits p query
            c e
          ≡ some (ok q_tilde))
        × IsAugmented e c query q_tilde
  unfolding build_augmented_query width cluster_col_start
  augmented_lem e c query hc size f =
      let at = c * e.d in
      let whole = e.n_centroids * e.d in
      let zeros : List ℕ = replicate whole 0 in
      let wide : length zeros ≡ whole = length-replicate whole 0 in
      let room : at + e.d ≤ length zeros = omega (arith, row_inside c e.d e.n_centroids hc, wide) in
      let block = take e.d (drop at zeros) in
      let out = slots_of query in
      let out_size : length out ≡ e.d =
        length-map query (slot scale ratio is_finite quantisation_bits p few_bits) ∙ size in
      let written : encode_vector scale ratio is_finite quantisation_bits p query block
          ≡ some (ok out) =
        encode_vector_lem scale ratio is_finite quantisation_bits p few_bits query block f
          (length-take-drop zeros at e.d room ∙ sym size) in
      let fits : at + length out ≤ length zeros = omega (arith, out_size, room) in
      (
        splice zeros at out,
        rw (slice_lem zeros at (at + e.d) e.d refl room, written) refl,
        record {
          columns = length-splice zeros at out fits ∙ wide;
          inside = λ j hj. nth-splice_inside zeros at out fits j (omega (arith, out_size));
          before = λ i hi. nth-splice_before zeros at out fits i hi ∙ get_or-replicate whole 0 i;
          after = λ i hi.
              nth-splice_after zeros at out fits i (omega (arith, out_size))
              ∙ get_or-replicate whole 0 i;
        },
      )

  -- A row of the database times the augmented query is the inner product of the encoded query with
  -- the encoded vector in that row of the cluster.
  pub row_product :
      (index : IvfIndex F32) (e : EncodedClusters) (c r : ℕ) (query : List F32) (q_tilde : List ℕ)
      → IsDatabase scale ratio is_finite quantisation_bits p few_bits index e
      → IsAugmented e c query q_tilde
      → c < e.n_centroids
      → r < e.m_max
      → sum
          (e.n_centroids * e.d)
          (λ k. nth e.matrix (r * (e.n_centroids * e.d) + k) * nth q_tilde k)
        ≡ sum e.d (λ j.
          nth
            (slots_of (
              vector_at scale ratio is_finite quantisation_bits p few_bits
                (get_or index.clusters c [])
                r))
            j
          * nth (slots_of query) j)
  row_product index e c r query q_tilde db aug hc hr =
      let whole = e.n_centroids * e.d in
      let term = λ (k : ℕ). nth e.matrix (r * whole + k) * nth q_tilde k in
      let rest = whole - (c * e.d + e.d) in
      let split : whole ≡ c * e.d + e.d + rest = omega (arith, row_inside c e.d e.n_centroids hc) in
      ap (λ (m : ℕ). sum m term) split
      ∙ sum_block (c * e.d) e.d rest term
          (λ i hi.
            ap (λ (t : ℕ). nth e.matrix (r * whole + i) * t) (aug.before i hi)
            ∙ mul-zero (nth e.matrix (r * whole + i)))
          (λ i hi.
            ap (λ (t : ℕ). nth e.matrix (r * whole + i) * t) (aug.after i hi)
            ∙ mul-zero (nth e.matrix (r * whole + i)))
      ∙ sum_congr e.d _ _ (λ j hj. ap₂ ◌*◌ (db.entry r c j hr hc hj) (aug.inside j hj))
