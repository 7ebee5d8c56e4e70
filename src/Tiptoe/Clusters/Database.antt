-- ===== src/Tiptoe/Clusters/Database.antt =====
-- The database that encode_ivf builds from an index.
use secure_vector_search.Prelude.{
  ℕ, ◌+◌, ◌*◌, ◌≤◌, ◌<◌, ◌≡◌, refl, ap, sym, ◌∙◌, arith, subst, ltb, Bool, ℤ, Bool-cases, inl, inr,
  some, ok, List, [], map, length, get_or, get_or_beyond, nth, replicate, length-replicate,
  get_or-replicate,
}
use secure_vector_search.Ivf.Index.{IvfIndex}
use secure_vector_search.Ivf.Codec.{first_length}
use secure_vector_search.Tiptoe.Clusters.{EncodedClusters, longest, encode_ivf}
use secure_vector_search.Tiptoe.Clusters.Rows.{block_row, AllFinite, offset}
use secure_vector_search.Tiptoe.Clusters.Encoded.{
  encoding, AllClustersGood, memberships, encode_clusters_lem, longest-le,
}

module _ {F32 : Type 0} (scale : F32 → ℕ → ℤ) (ratio : ℤ → ℕ → F32) (is_finite : F32 → Bool)
    (quantisation_bits p : ℕ) (few_bits : quantisation_bits ≤ 30) where
  abbrev pub enc : List F32 → List ℕ
  enc = encoding scale ratio is_finite quantisation_bits p few_bits

  abbrev pub IsFiniteVector : List F32 → Type 0
  IsFiniteVector = AllFinite scale ratio is_finite quantisation_bits p few_bits

  -- The `r`-th vector of a cluster, empty beyond its end.
  abbrev pub vector_at : List (ℕ × List F32) → ℕ → List F32
  vector_at cluster r = (get_or cluster r (0, [])).1

  -- All vectors are finite and of the dimension of the first centroid.
  abbrev pub IsEncodable : IvfIndex F32 → Type 0
  IsEncodable index =
      AllClustersGood scale ratio is_finite quantisation_bits p few_bits
        (first_length index.centroids) (length index.clusters) index.clusters

  -- What encode_ivf promises of its result.
  pub record IsDatabase (index : IvfIndex F32) (e : EncodedClusters) : Type 0 where
    pub has_d : e.d ≡ first_length index.centroids
    pub has_n : e.n_centroids ≡ length index.clusters
    pub rows : (c : ℕ) → length (get_or index.clusters c []) ≤ e.m_max
    pub shape : length e.matrix ≡ e.m_max * (e.n_centroids * e.d)
    pub members : e.cluster_membership ≡ map (map (λ (v : ℕ × List F32). v.0)) index.clusters
    pub entry :
        (r c j : ℕ)
        → r < e.m_max
        → c < e.n_centroids
        → j < e.d
        → nth e.matrix (r * (e.n_centroids * e.d) + (c * e.d + j))
          ≡ nth (enc (vector_at (get_or index.clusters c []) r)) j

  -- With at most 30 bits, and with vectors that are finite and of the dimension of the first
  -- centroid, the encoding of an index returns a database whose row r holds, in the block of cluster
  -- c, the components of the r-th vector of c, and zeros where c has no such vector.
  pub encode_ivf_lem :
      (index : IvfIndex F32)
      → IsEncodable index
      → (e : EncodedClusters) × (encode_ivf scale ratio is_finite quantisation_bits p index
          ≡ some (ok e))
        × IsDatabase index e
  unfolding encode_ivf
  encode_ivf_lem index good =
      let n = length index.clusters in
      let d = first_length index.centroids in
      let m_max = longest index.clusters in
      let zeros : List ℕ = replicate (m_max * (n * d)) 0 in
      let (matrix, e, f) =
        encode_clusters_lem scale ratio is_finite quantisation_bits p few_bits d n m_max 0
          index.clusters zeros [] (omega arith) (longest-le index.clusters)
          (length-replicate (m_max * (n * d)) 0) good in
      (
        record {
          matrix = matrix;
          m_max = m_max;
          d = d;
          n_centroids = n;
          cluster_membership =
              memberships scale ratio is_finite quantisation_bits p few_bits d n index.clusters;
        },
        rw e refl,
        record {
          has_d = refl;
          has_n = refl;
          rows = longest-le index.clusters;
          shape = f.same_length ∙ length-replicate (m_max * (n * d)) 0;
          members = refl;
          entry = λ r c j hr hc hj.
              ap (nth matrix) (index_of r c j n d)
              ∙ elim (Bool-cases (ltb r (length (get_or index.clusters c [])))) [
                | inl there ↦
                    ap (λ (b : ℕ). nth matrix ((r * n + b) * d + j)) {x = c} {y = 0 + c}
                      (omega arith)
                    ∙ f.hit c r j hc (ground arith) hj
                | inr beyond ↦
                    f.miss (r * n + c) j
                      (λ a i la li e'.
                        let row : r ≡ i = block_row r i n c (0 + a) hc (omega arith) e' in
                        let col : c ≡ a = omega (arith, e', ap (λ (k : ℕ). k * n) row) in
                        let li' : r < length (get_or index.clusters c []) =
                          subst (λ (k : ℕ). k < length (get_or index.clusters c [])) (sym row)
                            (subst (λ (k : ℕ). i < length (get_or index.clusters k [])) (sym col)
                              li) in
                        absurd (ground arith))
                      hj
                    ∙ get_or-replicate (m_max * (n * d)) 0 ((r * n + c) * d + j)
                    ∙ sym (
                        ap (λ (v : ℕ × List F32). nth (enc v.1) j)
                          (get_or_beyond (get_or index.clusters c []) r (0, []) (ground arith)))
              ];
        },
      )
    where
      index_of : (r c j n d : ℕ) → r * (n * d) + (c * d + j) ≡ (r * n + c) * d + j
      index_of r c j n d =
          omega (arith, offset scale ratio is_finite quantisation_bits p few_bits d n r c)
