-- ===== src/Tiptoe/Clusters/Encoded.antt =====
-- The database of the server holds, in row r and the block of cluster c, the components of the r-th
-- vector of c, and zeros elsewhere.
use secure_vector_search.Prelude.{
  ℕ, zero, suc, ◌+◌, ◌*◌, ◌≤◌, ◌<◌, ◌≡◌, ◌≢◌, refl, ap, ◌∙◌, arith, Bool, ℤ, some, ok, List, [],
  ◌∷◌, ◌++◌, map, length, get_or, nth,
}
use mathlib.Core.List.{append_assoc, append-nil}
use secure_vector_search.Tiptoe.Clusters.{longest, encode_clusters}
use secure_vector_search.Tiptoe.Clusters.Rows.{
  block_row, slots, AllGood, vector_of, ids, IsWritten, encode_rows_lem,
}

pub longest-le {ℓ} :
    {A : Type ℓ} (cs : List (List A)) (c : ℕ) → length (get_or cs c []) ≤ longest cs
unfolding longest
longest-le [] c = omega arith
longest-le (x ∷ cs) zero = ground arith
longest-le (x ∷ cs) (suc c) = ground (arith, longest-le cs c)

module _ {F32 : Type 0} (scale : F32 → ℕ → ℤ) (ratio : ℤ → ℕ → F32) (is_finite : F32 → Bool)
    (quantisation_bits p : ℕ) (few_bits : quantisation_bits ≤ 30) where
  abbrev pub encoding : List F32 → List ℕ
  encoding = slots scale ratio is_finite quantisation_bits p few_bits

  module _ (d n : ℕ) where
    abbrev pub member : List (ℕ × List F32) → ℕ → List F32
    member = vector_of scale ratio is_finite quantisation_bits p few_bits d n

    abbrev pub AllClustersGood : List (List (ℕ × List F32)) → Type 0
    AllClustersGood [] = Unit {0}
    AllClustersGood (cluster ∷ clusters) =
        AllGood scale ratio is_finite quantisation_bits p few_bits d n cluster
        × AllClustersGood clusters

    abbrev pub memberships : List (List (ℕ × List F32)) → List (List ℕ)
    memberships = map (ids scale ratio is_finite quantisation_bits p few_bits d n)

    -- What the clusters from `c` on write: their blocks, and nothing else.
    pub record IsFilled (c : ℕ) (clusters : List (List (ℕ × List F32))) (before after : List ℕ)
        : Type 0 where
      pub same_length : length after ≡ length before
      pub hit :
          (a i j : ℕ)
          → a < length clusters
          → i < length (get_or clusters a [])
          → j < d
          → nth after ((i * n + (c + a)) * d + j)
            ≡ nth (encoding (member (get_or clusters a []) i)) j
      pub miss :
          (b j : ℕ)
          → ((a i : ℕ)
              → a < length clusters
              → i < length (get_or clusters a [])
              → b ≢ i * n + (c + a))
          → j < d
          → nth after (b * d + j) ≡ nth before (b * d + j)

    abbrev pub AllWithin : ℕ → List (List (ℕ × List F32)) → Type 0
    AllWithin m_max clusters = (a : ℕ) → length (get_or clusters a []) ≤ m_max

    column : (i c c' : ℕ) → c ≡ c' → i * n + c ≡ i * n + c'
    column i c c' e = ap (λ (k : ℕ). i * n + k) e

    IsFilled-step :
        (c : ℕ) (cluster : List (ℕ × List F32)) (clusters : List (List (ℕ × List F32)))
        (before mid after : List ℕ)
        → c + suc (length clusters) ≤ n
        → IsWritten scale ratio is_finite quantisation_bits p few_bits d n c 0 cluster before mid
        → IsFilled (suc c) clusters mid after
        → IsFilled c (cluster ∷ clusters) before after
    IsFilled-step c cluster clusters before mid after hc w f = record {
      same_length = f.same_length ∙ w.same_length;
      hit = hits;
      miss = λ b j ne hj.
          f.miss b j
            (λ a i la li e.
              ne (suc a) i (omega arith) li (e ∙ column i (suc c + a) (c + suc a) (omega arith)))
            hj
          ∙ w.miss b j
              (λ i li e. ne 0 i (omega arith) li (
                e
                ∙ ap (λ (k : ℕ). k * n + c) {x = 0 + i} {y = i} (omega arith)
                ∙ column i c (c + 0) (omega arith)))
              hj;
    }
      where
        hits :
            (a i j : ℕ)
            → a < suc (length clusters)
            → i < length (get_or (cluster ∷ clusters) a [])
            → j < d
            → nth after ((i * n + (c + a)) * d + j)
              ≡ nth (encoding (member (get_or (cluster ∷ clusters) a []) i)) j
        hits zero i j la li hj =
            ap (λ (b : ℕ). nth after (b * d + j)) (column i (c + 0) c (omega arith))
            ∙ f.miss (i * n + c) j
                (λ a i' la' li' e.
                  let same : i ≡ i' =
                    block_row i i' n c (suc c + a) (omega arith) (omega arith) e in
                  absurd (omega (arith, e, ap (λ (k : ℕ). k * n) same)))
                hj
            ∙ ap (λ (k : ℕ). nth mid ((k * n + c) * d + j)) {x = i} {y = 0 + i} (omega arith)
            ∙ w.hit i j li hj
        hits (suc a) i j la li hj =
            ap (λ (b : ℕ). nth after (b * d + j)) (column i (c + suc a) (suc c + a) (omega arith))
            ∙ f.hit a i j (omega arith) li hj

    pub encode_clusters_lem :
        (m_max c : ℕ) (clusters : List (List (ℕ × List F32))) (matrix : List ℕ)
        (done : List (List ℕ))
        → c + length clusters ≤ n
        → AllWithin m_max clusters
        → length matrix ≡ m_max * (n * d)
        → AllClustersGood clusters
        → (matrix' : List ℕ) × (encode_clusters scale ratio is_finite quantisation_bits p d
              (n * d)
              c
              clusters
              matrix
              done
            ≡ some (ok (matrix', done ++ memberships clusters)))
          × IsFilled c clusters matrix matrix'
    unfolding encode_clusters
    encode_clusters_lem m_max c [] matrix done hc within hm good = (
      matrix,
      rw (append-nil done) refl,
      record {
        same_length = refl;
        hit = λ a i j la li hj. absurd (omega arith);
        miss = λ b j ne hj. refl;
      },
    )
    encode_clusters_lem m_max c (cluster ∷ clusters) matrix done hc within hm good =
        let (mid, e, w) =
          encode_rows_lem scale ratio is_finite quantisation_bits p few_bits d n m_max c 0 cluster
            matrix [] (omega arith) (omega (arith, within 0)) hm good.0 in
        let membership = ids scale ratio is_finite quantisation_bits p few_bits d n cluster in
        let (matrix', e', f) =
          encode_clusters_lem m_max (suc c) clusters mid (done ++ membership ∷ []) (omega arith)
            (λ a. within (suc a)) (w.same_length ∙ hm) good.1 in
        (
          matrix',
          rw e e'
              ∙ ap (λ (ms : List (List ℕ)). some (ok (matrix', ms)))
                  (append_assoc done (membership ∷ []) (memberships clusters)),
          IsFilled-step c cluster clusters matrix mid matrix' hc w f,
        )
