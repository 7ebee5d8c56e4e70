-- ===== src/Tiptoe/Clusters/Rows.antt =====
-- The rows of one cluster: each vector is encoded into its block, and no other block changes.
use native.Mathlib.Nat.{mul-le-mul_right, suc-mul, add-mul, mul_assoc}
use secure_vector_search.Prelude.{
  ℕ, zero, suc, ◌+◌, ◌-◌, ◌*◌, ◌^◌, ◌≤◌, ◌<◌, ◌≡◌, ◌≢◌, refl, ap, sym, ◌∙◌, arith, ltb, Bool, true,
  ℤ, Bool-cases, inl, inr, some, ok, List, [], ◌∷◌, ◌++◌, map, length, get_or, nth, take, drop,
  length-map, length-append, set, slice_lem, length-take-drop, row_inside,
}
use mathlib.Core.List.{append_assoc, append-nil}
use secure_vector_search.Tiptoe.Encoding.{max_magnitude, clamp, rem_euclid, quantise_component}
use secure_vector_search.Tiptoe.Clusters.{
  splice, encode_from, encode_vector, write_vector, encode_rows,
}
use secure_vector_search.Tiptoe.Clusters.Blocks.{length-splice, written_block, other_block}

-- Two blocks of rows of `n` blocks are one only in the same row and column.
pub block_row : (r r' n a b : ℕ) → a < n → b < n → r * n + a ≡ r' * n + b → r ≡ r'
block_row r r' n a b ha hb e = elim (Bool-cases (ltb r r')) [
  | inl below ↦
      let less : suc r ≤ r' = ground arith in
      absurd (omega (arith, mul-le-mul_right n less, suc-mul r n))
  | inr above ↦ elim (Bool-cases (ltb r' r)) [
    | inl below ↦
        let less : suc r' ≤ r = ground arith in
        absurd (omega (arith, mul-le-mul_right n less, suc-mul r' n))
    | inr same ↦ ground arith
  ]
]

module _ {F32 : Type 0} (scale : F32 → ℕ → ℤ) (ratio : ℤ → ℕ → F32) (is_finite : F32 → Bool)
    (quantisation_bits p : ℕ) (few_bits : quantisation_bits ≤ 30) where
  -- A component in Z_p.
  abbrev pub slot : F32 → ℕ
  slot x = rem_euclid (clamp (2 ^ quantisation_bits - 1) (scale x (2 ^ quantisation_bits - 1))) p

  abbrev pub slots : List F32 → List ℕ
  slots = map slot

  abbrev pub AllFinite : List F32 → Type 0
  AllFinite [] = Unit {0}
  AllFinite (x ∷ v) = (is_finite x ≡ true) × AllFinite v

  quantise_lem : (x : F32) → quantise_component scale ratio x quantisation_bits p ≡ some (slot x)
  unfolding quantise_component max_magnitude
  quantise_lem x = let narrow : ltb quantisation_bits 31 ≡ true = ground arith in rw narrow refl

  set_at :
      (done : List ℕ) (y z : ℕ) (rest : List ℕ)
      → set (done ++ y ∷ rest) (length done) z ≡ (done ++ z ∷ []) ++ rest
  set_at [] y z rest = refl
  set_at (x ∷ done) y z rest = ap (λ (zs : List ℕ). x ∷ zs) (set_at done y z rest)

  encode_from_lem :
      (done : List ℕ) (v : List F32) (rest : List ℕ)
      → AllFinite v
      → length rest ≡ length v
      → encode_from scale ratio is_finite quantisation_bits p (length done) v (done ++ rest)
        ≡ some (ok (done ++ slots v))
  unfolding encode_from
  encode_from_lem done [] [] f e = refl
  encode_from_lem done [] (y ∷ rest) f e = absurd (omega arith)
  encode_from_lem done (x ∷ v) [] f e = absurd (omega arith)
  encode_from_lem done (x ∷ v) (y ∷ rest) f e =
      let inside : ltb (length done) (length (done ++ y ∷ rest)) ≡ true =
        ground (arith, length-append done (y ∷ rest)) in
      let longer : suc (length done) ≡ length (done ++ slot x ∷ []) =
        omega (arith, length-append done (slot x ∷ [])) in
      rw (f.0, quantise_lem x, inside, set_at done y (slot x) rest, longer)
        (encode_from_lem (done ++ slot x ∷ []) v rest f.1 (omega arith)
          ∙ ap (λ (zs : List ℕ). some (ok zs)) (append_assoc done (slot x ∷ []) (slots v)))

  -- A finite vector is encoded, component by component.
  pub encode_vector_lem :
      (v : List F32) (out : List ℕ)
      → AllFinite v
      → length out ≡ length v
      → encode_vector scale ratio is_finite quantisation_bits p v out ≡ some (ok (slots v))
  unfolding encode_vector
  encode_vector_lem v out f e = encode_from_lem [] v out f e

  module _ (d n : ℕ) where
    pub offset : (r c : ℕ) → r * (n * d) + c * d ≡ (r * n + c) * d
    offset r c = omega (arith, add-mul (r * n) c d, mul_assoc r n d)

    block_fits : (r c m_max : ℕ) → r < m_max → c < n → (r * n + c) * d + d ≤ m_max * (n * d)
    block_fits r c m_max hr hc =
        let less : suc (r * n + c) ≤ m_max * n = omega (arith, row_inside r n m_max hr) in
        omega (arith, mul-le-mul_right d less, suc-mul (r * n + c) d, mul_assoc m_max n d)

    abbrev pub AllGood : List (ℕ × List F32) → Type 0
    AllGood [] = Unit {0}
    AllGood ((id, vec) ∷ cluster) = (length vec ≡ d) × AllFinite vec × AllGood cluster

    abbrev pub vector_of : List (ℕ × List F32) → ℕ → List F32
    vector_of cluster i = (get_or cluster i (0, [])).1

    abbrev pub ids : List (ℕ × List F32) → List ℕ
    ids = map (λ (e : ℕ × List F32). e.0)

    write_vector_lem :
        (r c m_max : ℕ) (vec : List F32) (matrix : List ℕ)
        → r < m_max
        → c < n
        → length matrix ≡ m_max * (n * d)
        → length vec ≡ d
        → AllFinite vec
        → write_vector scale ratio is_finite quantisation_bits p d (r * (n * d) + c * d) vec matrix
          ≡ some (ok (splice matrix ((r * n + c) * d) (slots vec)))
    unfolding write_vector
    write_vector_lem r c m_max vec matrix hr hc hm size f =
        let at = (r * n + c) * d in
        let inside : at + d ≤ length matrix = omega (arith, block_fits r c m_max hr hc, hm) in
        let block = take d (drop at matrix) in
        let written : encode_vector scale ratio is_finite quantisation_bits p vec block
            ≡ some (ok (slots vec)) =
          encode_vector_lem vec block f (length-take-drop matrix at d inside ∙ sym size) in
        rw (offset r c, slice_lem matrix at (at + d) d refl inside, written) refl

    -- What the rows of one cluster write: its blocks, and nothing else.
    pub record IsWritten (c r : ℕ) (cluster : List (ℕ × List F32)) (before after : List ℕ)
        : Type 0 where
      pub same_length : length after ≡ length before
      pub hit :
          (i j : ℕ)
          → i < length cluster
          → j < d
          → nth after (((r + i) * n + c) * d + j) ≡ nth (slots (vector_of cluster i)) j
      pub miss :
          (b j : ℕ)
          → ((i : ℕ) → i < length cluster → b ≢ (r + i) * n + c)
          → j < d
          → nth after (b * d + j) ≡ nth before (b * d + j)

    row_at : (r i i' c : ℕ) → r + i ≡ i' → (r + i) * n + c ≡ i' * n + c
    row_at r i i' c e = ap (λ (k : ℕ). k * n + c) e

    IsWritten-step :
        (c r id : ℕ) (vec : List F32) (cluster : List (ℕ × List F32)) (matrix matrix' : List ℕ)
        → c < n
        → length (slots vec) ≡ d
        → (r * n + c) * d + d ≤ length matrix
        → IsWritten c (suc r) cluster (splice matrix ((r * n + c) * d) (slots vec)) matrix'
        → IsWritten c r ((id, vec) ∷ cluster) matrix matrix'
    IsWritten-step c r id vec cluster matrix matrix' hc size inside w = record {
      same_length =
          w.same_length
          ∙ length-splice matrix ((r * n + c) * d) (slots vec) (omega (arith, size, inside));
      hit = hits;
      miss = λ b j ne hj.
          w.miss b j
            (λ i l e. ne (suc i) (omega arith) (e ∙ row_at (suc r) i (r + suc i) c (omega arith)))
            hj
          ∙ other_block d matrix (r * n + c) (slots vec) size inside b j
              (λ e. ne 0 (omega arith) (e ∙ sym (row_at r 0 r c (omega arith)))) hj;
    }
      where
        hits :
            (i j : ℕ)
            → i < suc (length cluster)
            → j < d
            → nth matrix' (((r + i) * n + c) * d + j)
              ≡ nth (slots (vector_of ((id, vec) ∷ cluster) i)) j
        hits zero j l hj =
            ap (λ (b : ℕ). nth matrix' (b * d + j)) (row_at r 0 r c (omega arith))
            ∙ w.miss (r * n + c) j
                (λ i li e. absurd (omega (arith, block_row r (suc r + i) n c c hc hc e))) hj
            ∙ written_block d matrix (r * n + c) (slots vec) size inside j hj
        hits (suc i) j l hj =
            ap (λ (b : ℕ). nth matrix' (b * d + j)) (row_at r (suc i) (suc r + i) c (omega arith))
            ∙ w.hit i j (omega arith) hj

    pub encode_rows_lem :
        (m_max c r : ℕ) (cluster : List (ℕ × List F32)) (matrix membership : List ℕ)
        → c < n
        → r + length cluster ≤ m_max
        → length matrix ≡ m_max * (n * d)
        → AllGood cluster
        → (matrix' : List ℕ) × (encode_rows scale ratio is_finite quantisation_bits p d
              (n * d)
              (c * d)
              r
              cluster
              matrix
              membership
            ≡ some (ok (matrix', membership ++ ids cluster)))
          × IsWritten c r cluster matrix matrix'
    unfolding encode_rows
    encode_rows_lem m_max c r [] matrix membership hc hr hm good = (
      matrix,
      rw (append-nil membership) refl,
      record {
        same_length = refl;
        hit = λ i j l hj. absurd (omega arith);
        miss = λ b j ne hj. refl;
      },
    )
    encode_rows_lem m_max c r ((id, vec) ∷ cluster) matrix membership hc hr hm good =
        let at = r * n + c in
        let next = splice matrix (at * d) (slots vec) in
        let size : length (slots vec) ≡ d = length-map vec slot ∙ good.0 in
        let inside : at * d + d ≤ length matrix =
          omega (arith, block_fits r c m_max (omega arith) hc, hm) in
        let kept : length next ≡ length matrix =
          length-splice matrix (at * d) (slots vec) (omega (arith, size, inside)) in
        let (matrix', e, w) =
          encode_rows_lem m_max c (suc r) cluster next (membership ++ id ∷ []) hc (omega arith)
            (kept ∙ hm) good.2 in
        (
          matrix',
          rw (write_vector_lem r c m_max vec matrix (omega arith) hc hm good.0 good.1) e
              ∙ ap (λ (ms : List ℕ). some (ok (matrix', ms)))
                  (append_assoc membership (id ∷ []) (ids cluster)),
          IsWritten-step c r id vec cluster matrix matrix' hc size inside w,
        )
