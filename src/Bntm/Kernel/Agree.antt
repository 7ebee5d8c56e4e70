-- ===== src/Bntm/Kernel/Agree.antt =====
-- The AVX-512 kernel, the scalar one and the dispatcher give one result.
use secure_vector_search.Prelude.{
  ℕ, ◌*◌, ◌/◌, ◌%◌, ◌<◌, ◌≡◌, ap, ◌∙◌, sym, arith, Bool, Bool-cases, inl, inr, ltb, ◌==◌, ◌&&◌,
  List, some, length, nth, sum, sum_congr, collect-tabulate, tabulate, take, drop, get_or-take-drop,
}
use secure_vector_search.Bntm.Field.{field_p, IsField}
use secure_vector_search.Bntm.Matvec.Product.{
  row_sum, row_slice, length-row, IsField-row, matvec_scalar-eq-sums,
}
use secure_vector_search.Bntm.Avx512.{mersenne_matvec_avx512, avx512_row_dot}
use secure_vector_search.Bntm.Avx512.Row.{avx512_row_dot-eq-sum}
use secure_vector_search.Bntm.Kernel.{mersenne_matvec}

-- The reference: every row's exact sum, reduced once.
abbrev pub product_mod : List ℕ → ℕ → ℕ → List ℕ → List ℕ
product_mod mat rows cols vec = tabulate rows (λ i. row_sum mat cols vec i % field_p)

module _ (mat vec : List ℕ) (rows cols : ℕ) (shape : length mat ≡ rows * cols)
    (fits : length vec ≡ cols) (reduced : IsField mat) (reduced_vec : IsField vec) where
  avx512_row :
      (q i : ℕ)
      → cols ≡ 8 * q
      → i < rows
      → avx512_row_dot (take cols (drop (i * cols) mat)) vec cols
        ≡ some (row_sum mat cols vec i % field_p)
  avx512_row q i e hi =
      let row = take cols (drop (i * cols) mat) in
      let len = length-row mat rows cols i shape hi in
      ap (avx512_row_dot row vec) e
      ∙ avx512_row_dot-eq-sum row vec q (omega arith) (omega arith) (IsField-row mat cols i reduced)
          reduced_vec
      ∙ ap (λ (n : ℕ). some (sum n (λ j. nth row j * nth vec j) % field_p)) (sym e)
      ∙ ap (λ (t : ℕ). some (t % field_p))
          (sum_congr cols _ _
            (λ j hj. ap (λ (t : ℕ). t * nth vec j) (get_or-take-drop mat (i * cols) cols j 0 hj)))

  -- On a multiple of eight columns the AVX-512 kernel returns the exact sums modulo p.
  pub matvec_avx512-eq-product :
      cols % 8 ≡ 0 → mersenne_matvec_avx512 mat rows cols vec ≡ some (product_mod mat rows cols vec)
  unfolding mersenne_matvec_avx512
  matvec_avx512-eq-product e =
      collect-tabulate rows _ (λ i. row_sum mat cols vec i % field_p)
        (λ i hi. rw (row_slice mat rows cols i shape hi) (avx512_row (cols / 8) i (omega arith) hi))

  -- Whichever kernel the build selects, no read is out of range and the product is exact modulo p.
  pub mersenne_matvec-eq-product :
      (avx512f : Bool)
      → mersenne_matvec avx512f mat rows cols vec ≡ some (product_mod mat rows cols vec)
  unfolding mersenne_matvec
  mersenne_matvec-eq-product avx512f =
      elim (Bool-cases (avx512f && (ltb 0 cols && cols % 8 == 0))) [
        | inl e ↦ rw e (matvec_avx512-eq-product (ground arith))
        | inr e ↦ rw e (matvec_scalar-eq-sums mat vec rows cols shape reduced reduced_vec fits)
      ]
