-- ===== src/Bntm/Kernel/Batch.antt =====
-- The batched product gives, query by query, what the single product gives.
use secure_vector_search.Prelude.{
  ℕ, suc, ◌+◌, ◌*◌, ◌%◌, ◌≤◌, ◌<◌, ◌≡◌, ap, ◌∙◌, sym, arith, refl, Bool, Bool-cases, inl, inr, ◌==◌,
  List, [], some, length, nth, get_or, get_elem?, get_elem?-eq-get_or, sum, sum_congr, ◌>>=◌,
  collect, collect-tabulate, tabulate, take, drop, get_or-take-drop, length-tabulate,
  get_or-tabulate, for_loop_inv, replicate, length-replicate, get_or-replicate, length-map,
  get_or-map, get_or_ext, slice,
}
use secure_vector_search.Bntm.Field.{field_p, IsField, mersenne_reduce}
use secure_vector_search.Bntm.Field.Reduce.{mersenne_reduce-eq-mod}
use secure_vector_search.Bntm.Field.FoldedSum.{mac_step}
use secure_vector_search.Bntm.Field.FoldedSum.Mod.{IsPartial, IsPartial-mac_step, square_bound}
use secure_vector_search.Bntm.Matvec.Product.{
  row_sum, row_slice, length-row, IsField-row, product_bound,
}
use secure_vector_search.Bntm.Kernel.{
  batch_column, batch_row, compute_products_batch, compute_products,
}
use secure_vector_search.Bntm.Kernel.Agree.{product_mod, mersenne_matvec-eq-product}

-- The queries of a batch, each reduced and of length `n`.
pub record IsBatch (n : ℕ) (v_encs : List (List ℕ)) : Type 0 where
  pub fits : (q : ℕ) → q < length v_encs → length (get_or v_encs q []) ≡ n
  pub reduced : (q : ℕ) → q < length v_encs → IsField (get_or v_encs q [])

module _ (n : ℕ) (v_encs : List (List ℕ)) (batch : IsBatch n v_encs) where
  abbrev query : ℕ → List ℕ
  query q = get_or v_encs q []

  module _ (row : List ℕ) (len : length row ≡ n) (reduced_row : IsField row) where
    abbrev term : ℕ → ℕ → ℕ
    term q j = nth row j * nth (query q) j

    record IsRound (j : ℕ) (accs : List ℕ) : Type 0 where
      size : length accs ≡ length v_encs
      partial : (q : ℕ) → q < length v_encs → IsPartial (term q) j (nth accs q)

    term_bound : (q j : ℕ) → q < length v_encs → term q j ≤ square_bound
    term_bound q j hq = product_bound _ _ (reduced_row j) (batch.reduced q hq j)

    column_step :
        (j : ℕ) (accs : List ℕ)
        → j < n
        → IsRound j accs
        → batch_column row v_encs j accs
          ≡ some (tabulate (length v_encs) (λ q. mac_step j (term q j) (nth accs q)))
    unfolding batch_column
    column_step j accs hj h = rw (get_elem?-eq-get_or row j 0 (omega arith)) (
        collect-tabulate (length v_encs) _ (λ q. mac_step j (term q j) (nth accs q))
          (λ q hq.
            rw
              (
                get_elem?-eq-get_or v_encs q [] hq,
                get_elem?-eq-get_or (query q) j 0 (omega (arith, batch.fits q hq)),
                get_elem?-eq-get_or accs q 0 (omega (arith, h.size)),
              )
              (ap (λ (t : ℕ). some (mac_step j t (nth accs q)))
                (omega (arith, term_bound q j hq)))))

    IsRound-step :
        (j : ℕ) (accs : List ℕ)
        → IsRound j accs
        → IsRound (suc j) (tabulate (length v_encs) (λ q. mac_step j (term q j) (nth accs q)))
    IsRound-step j accs h = record {
      size = length-tabulate (length v_encs) _;
      partial = λ q hq.
          rw (get_or-tabulate (length v_encs) (λ q. mac_step j (term q j) (nth accs q)) q 0 hq)
            (IsPartial-mac_step (term q) j (nth accs q) (term_bound q j hq) (h.partial q hq));
    }

    IsRound-start : IsRound 0 (replicate (length v_encs) 0)
    unfolding sum
    IsRound-start = record {
      size = length-replicate (length v_encs) 0;
      partial = λ q hq. rw (get_or-replicate {A = ℕ} (length v_encs) 0 q) (omega arith);
    }

    batch_row_lem :
        batch_row row n v_encs ≡ some (tabulate (length v_encs) (λ q. sum n (term q) % field_p))
    unfolding batch_row
    batch_row_lem =
        let (accs, run, inv) =
          for_loop_inv IsRound (batch_column row v_encs) n
            (λ j accs hj h. (
              tabulate (length v_encs) (λ q. mac_step j (term q j) (nth accs q)),
              column_step j accs hj h,
              IsRound-step j accs h,
            ))
            (replicate (length v_encs) 0) IsRound-start in
        rw run (
          ap some (
            get_or_ext 0 _ _
              (length-map accs mersenne_reduce
                ∙ inv.size
                ∙ sym (length-tabulate (length v_encs) (λ q. sum n (term q) % field_p)))
              (λ q hq.
                let hq' : q < length v_encs =
                  omega (arith, length-map accs mersenne_reduce, inv.size) in
                get_or-map accs mersenne_reduce q 0 0 (omega (arith, inv.size))
                ∙ reduced_entry accs q hq' (inv.partial q hq')
                ∙ sym (get_or-tabulate (length v_encs) (λ q. sum n (term q) % field_p) q 0 hq'))))
      where
        reduced_entry :
            (accs : List ℕ) (q : ℕ)
            → q < length v_encs
            → IsPartial (term q) n (nth accs q)
            → mersenne_reduce (nth accs q) ≡ sum n (term q) % field_p
        reduced_entry accs q hq p =
            omega (arith, p.congruent, p.bounded, mersenne_reduce-eq-mod (nth accs q))

  module _ (m_enc : List ℕ) (m : ℕ) (shape : length m_enc ≡ m * n) (reduced_m : IsField m_enc) where
    abbrev row_of : ℕ → List ℕ
    row_of i = take n (drop (i * n) m_enc)

    row_result :
        (q i : ℕ) → sum n (λ j. nth (row_of i) j * nth (query q) j) ≡ row_sum m_enc n (query q) i
    row_result q i =
        sum_congr n _ _
          (λ j hj. ap (λ (t : ℕ). t * nth (query q) j) (get_or-take-drop m_enc (i * n) n j 0 hj))

    abbrev row_out : ℕ → List ℕ
    row_out i =
        tabulate (length v_encs) (λ q. sum n (λ j. nth (row_of i) j * nth (query q) j) % field_p)

    read_back :
        (q i : ℕ)
        → q < length v_encs
        → i < m
        → (get_elem? (tabulate m row_out) i >>= λ out. get_elem? out q)
          ≡ some (row_sum m_enc n (query q) i % field_p)
    read_back q i hq hi =
        let entry = λ (k : ℕ). sum n (λ j. nth (row_of i) j * nth (query k) j) % field_p in
        rw
          (
            get_elem?-eq-get_or (tabulate m row_out) i []
                (omega (arith, length-tabulate m row_out)),
            get_or-tabulate m row_out i [] hi,
          )
          (get_elem?-eq-get_or (row_out i) q 0
              (omega (arith, length-tabulate (length v_encs) entry))
            ∙ ap some (
                get_or-tabulate (length v_encs) entry q 0 hq
                ∙ ap (λ (t : ℕ). t % field_p) (row_result q i)))

    results :
        (collect m (λ i. slice m_enc (i * n) ((i + 1) * n) >>= λ row. batch_row row n v_encs)
          >>= λ row_outs.
              collect
                (length v_encs)
                (λ q. collect m (λ i. get_elem? row_outs i >>= λ out. get_elem? out q)))
        ≡ some (tabulate (length v_encs) (λ q. product_mod m_enc m n (query q)))
    results =
        rw
          (collect-tabulate m
            (λ i. slice m_enc (i * n) ((i + 1) * n) >>= λ row. batch_row row n v_encs) row_out
            (λ i hi. rw (row_slice m_enc m n i shape hi) (
              batch_row_lem (row_of i) (length-row m_enc m n i shape hi)
                (IsField-row m_enc n i reduced_m))))
          (collect-tabulate (length v_encs) _ (λ q. product_mod m_enc m n (query q))
            (λ q hq.
              collect-tabulate m (λ i. get_elem? (tabulate m row_out) i >>= λ out. get_elem? out q)
                (λ i. row_sum m_enc n (query q) i % field_p) (λ i hi. read_back q i hq hi)))

    products :
        compute_products_batch m_enc m n v_encs
        ≡ some (tabulate (length v_encs) (λ q. product_mod m_enc m n (query q)))
    unfolding compute_products_batch tabulate
    products = elim (Bool-cases (length v_encs == 0)) [
      | inl e ↦
          let none_asked : length v_encs ≡ 0 = ground arith in
          rw (compute_products_batch, e, none_asked) refl
      | inr e ↦ rw (compute_products_batch, e) results
    ]

    -- On a shaped matrix of reduced entries and well-formed queries the batch, with either kernel for
    -- the single products, neither panics nor overflows: it returns, in the order of the queries, the
    -- exact products modulo p, and so do the single products.
    pub products_batch-eq-collect :
        (avx512f : Bool)
        → (compute_products_batch m_enc m n v_encs
            ≡ some (tabulate (length v_encs) (λ q. product_mod m_enc m n (get_or v_encs q []))))
          × (collect
                (length v_encs)
                (λ q. do v_enc ← get_elem? v_encs q; compute_products avx512f m_enc m n v_enc)
              ≡ some (tabulate (length v_encs) (λ q. product_mod m_enc m n (get_or v_encs q []))))
    unfolding compute_products
    products_batch-eq-collect avx512f = (
      products,
      collect-tabulate (length v_encs) _ (λ q. product_mod m_enc m n (query q))
          (λ q hq. rw (get_elem?-eq-get_or v_encs q [] hq) (
            mersenne_matvec-eq-product m_enc (query q) m n shape (batch.fits q hq) reduced_m
              (batch.reduced q hq) avx512f)),
    )
