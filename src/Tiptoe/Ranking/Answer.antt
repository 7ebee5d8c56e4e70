-- ===== src/Tiptoe/Ranking/Answer.antt =====
-- One query, end to end: from the routing to the hits.
use secure_vector_search.Prelude.{
  ℕ, ◌+◌, ◌*◌, ◌%◌, ◌^◌, ◌≤◌, ◌<◌, ◌≡◌, refl, ap, ◌∙◌, arith, ◌==◌, Bool, true, ℤ, some, Result, ok,
  List, [], map, length, get_elem?, get_or, get_elem?-eq-get_or, get_or-map, length-map, nth, take,
  get_or-take, length-take, tabulate, length-tabulate, get_or-tabulate, sum, slice_lem,
}
use secure_vector_search.Rng.{Rng}
use secure_vector_search.Float32.{Float32}
use secure_vector_search.Sorting.{Sorting}
use secure_vector_search.Sorting.TopK.{IsTopK, take-sort-IsTopK}
use secure_vector_search.Tiptoe.Lwe.{plaintext_modulus, delta, compute_a_s}
use secure_vector_search.Tiptoe.Lwe.Round.{IsSmall}
use secure_vector_search.Tiptoe.SimplePir.Encrypt.{Seeks}
use secure_vector_search.Tiptoe.SimplePir.Session.{decode_with, products, recover-encrypt_lhe}
use secure_vector_search.Tiptoe.Clusters.{width, route}
use secure_vector_search.Tiptoe.Clusters.Database.{IsFiniteVector}
use secure_vector_search.Tiptoe.Clusters.Product.{IsAugmented, augmented_lem, row_product}
use secure_vector_search.Tiptoe.Ranking.{TiptoeHandle, better, to_hit, rank_hits, score_query}
use secure_vector_search.Tiptoe.Ranking.Scored.{route-in_range, score_all_lem, IsServing, scores}

module _ {CompressError : Type 0} (fl : Float32) (score_ratio : ℤ → ℕ → fl.F32) (g : Rng)
    (set_word_pos : g.State → ℕ → g.State) (seeks : Seeks g set_word_pos) (scale : fl.F32 → ℕ → ℤ)
    (ratio : ℤ → ℕ → fl.F32) (is_finite : fl.F32 → Bool)
    (l2_f32 : List fl.F32 → List fl.F32 → fl.F32) (s : Sorting (ℕ × fl.F32) (better fl score_ratio))
    (bfv_h_s : List ℕ → Result CompressError (List ℕ)) where
  open fl use {F32}

  module _ (handle : TiptoeHandle F32) (few_bits : handle.quantisation_bits ≤ 30) (seed : List ℕ)
      (serving : IsServing fl score_ratio g scale ratio is_finite handle few_bits seed) where
    abbrev shown : List F32 → ℕ → List (ℕ × F32)
    shown = scores fl score_ratio g scale ratio is_finite handle few_bits

    rank_hits_lem :
        (query : List F32) (c k : ℕ) (ans h_s q_tilde : List ℕ)
        → c < handle.encoded.n_centroids
        → IsAugmented scale ratio is_finite handle.quantisation_bits
            (plaintext_modulus handle.lwe_params)
            few_bits
            handle.encoded
            c
            query
            q_tilde
        → decode_with handle.lwe_params ans h_s
          ≡ products handle.lwe_params handle.encoded.matrix q_tilde handle.encoded.m_max
              (handle.encoded.n_centroids * handle.encoded.d)
        → rank_hits fl score_ratio s handle
            (map (λ (v : ℕ × List F32). v.0) (get_or handle.index.clusters c []))
            k
            ans
            h_s
          ≡ some (map (to_hit fl score_ratio) (take k (s.sort (shown query c))))
    unfolding rank_hits
    rank_hits_lem query c k ans h_s q_tilde hc aug decoded =
        let cluster = get_or handle.index.clusters c [] in
        let ids = map (λ (v : ℕ × List F32). v.0) cluster in
        let p = plaintext_modulus handle.lwe_params in
        let cols = handle.encoded.n_centroids * handle.encoded.d in
        let entry =
          λ (i : ℕ). sum cols (λ j. nth handle.encoded.matrix (i * cols + j) * nth q_tilde j) % p in
        let all_rows : List ℕ = tabulate handle.encoded.m_max entry in
        let size : length ids ≡ length cluster = length-map cluster (λ (v : ℕ × List F32). v.0) in
        let tall : length all_rows ≡ handle.encoded.m_max =
          length-tabulate handle.encoded.m_max entry in
        let fits : length cluster ≤ handle.encoded.m_max = serving.database.rows c in
        let first : List ℕ = take (length ids) all_rows in
        let first_len : length first ≡ length cluster =
          omega (arith, length-take (length ids) all_rows, size, tall, fits) in
        rw
          (
            decoded,
            slice_lem all_rows 0 (length ids) (length ids) (omega arith)
                (omega (arith, size, tall)),
            score_all_lem fl score_ratio g scale ratio is_finite handle few_bits query first cluster
                first_len
                (λ r l.
                  get_or-take (length ids) all_rows r 0 (omega (arith, size))
                  ∙ get_or-tabulate handle.encoded.m_max entry r 0 (omega arith)
                  ∙ ap (λ (t : ℕ). t % p)
                      (row_product scale ratio is_finite handle.quantisation_bits p few_bits
                        handle.index handle.encoded c r query q_tilde serving.database aug hc
                        (omega arith))),
          )
          refl

    -- For a handle whose database and setup encode_ivf and preprocess built, and a finite query of its
    -- dimension, when every row gathers less than half a step of noise and the second encryption
    -- brings H · s through: the query is answered, it is routed to a cluster that there is, and the
    -- hits are k of the members of that cluster, all if there are fewer, with the best scores in order.
    pub score_query_lem :
        (query : List F32) (k threads : ℕ) (secret noise : List ℕ)
        → length query ≡ handle.dim
        → IsFiniteVector scale ratio is_finite handle.quantisation_bits
            (plaintext_modulus handle.lwe_params)
            few_bits
            query
        → length secret ≡ handle.lwe_params.n
        → handle.encoded.n_centroids * handle.encoded.d ≤ length noise
        → ((i : ℕ)
            → i < handle.encoded.m_max
            → IsSmall (delta handle.lwe_params) (
                sum (handle.encoded.n_centroids * handle.encoded.d) (λ j.
                  nth handle.encoded.matrix
                    (i * (handle.encoded.n_centroids * handle.encoded.d) + j)
                  * nth noise j)
                % 2 ^ 64))
        → ((h_s : List ℕ)
            → compute_a_s handle.pir_setup.hint secret handle.encoded.m_max ≡ some h_s
            → bfv_h_s secret ≡ ok h_s)
        → (c : ℕ) × (best : List (ℕ × F32)) × (route fl l2_f32 query handle.index.centroids
            ≡ some c)
          × (c < length handle.index.clusters)
          × IsTopK (better fl score_ratio) k (shown query c) best
          × (score_query fl score_ratio g set_word_pos scale ratio is_finite l2_f32 s bfv_h_s handle
                query k threads secret noise
              ≡ some (ok (map (to_hit fl score_ratio) best)))
    unfolding score_query width
    score_query_lem query k threads secret noise size finite hs hn small brings =
        let params = handle.lwe_params in
        let e = handle.encoded in
        let cols = e.n_centroids * e.d in
        let (c, routed, hc) =
          route-in_range fl l2_f32 query handle.index.centroids serving.some_centroid in
        let here : c < length handle.index.clusters = omega (arith, hc, serving.one_cluster_each) in
        let inside : c < e.n_centroids = omega (arith, here, serving.database.has_n) in
        let ids : List ℕ = map (λ (v : ℕ × List F32). v.0) (get_or handle.index.clusters c []) in
        let found : get_elem? e.cluster_membership c ≡ some ids =
          ap (λ (xs : List (List ℕ)). get_elem? xs c) serving.database.members
          ∙ get_elem?-eq-get_or (map (map (λ (v : ℕ × List F32). v.0)) handle.index.clusters) c [] (
              omega
                (arith, here, length-map handle.index.clusters (map (λ (v : ℕ × List F32). v.0))))
          ∙ ap some
              (get_or-map handle.index.clusters (map (λ (v : ℕ × List F32). v.0)) c [] [] here) in
        let (q_tilde, built, aug) =
          augmented_lem scale ratio is_finite handle.quantisation_bits (plaintext_modulus params)
            few_bits e c query inside (size ∙ serving.dimension) finite in
        let (ct, ans, h_s, encrypted, answered, recovered, unmasked, decoded) =
          recover-encrypt_lhe g set_word_pos seeks params threads e.m_max cols seed e.matrix secret
            q_tilde noise handle.pir_setup serving.valid serving.database.shape hs aug.columns hn
            serving.ready small in
        let same : (length query == handle.dim) ≡ true = ground (arith, size) in
        (
          c,
          take k (s.sort (shown query c)),
          routed,
          here,
          take-sort-IsTopK (better fl score_ratio) s k (shown query c),
          rw
              (
                same,
                routed,
                found,
                built,
                encrypted,
                answered,
                brings h_s unmasked,
                rank_hits_lem query c k ans h_s q_tilde inside aug decoded,
              )
              refl,
        )
