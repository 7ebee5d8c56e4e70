-- ===== src/Bntm/Matvec/Product.antt =====
-- What the scalar kernels compute: exact sums, reduced once.
use secure_vector_search.Prelude.{
  ℕ, ◌+◌, ◌*◌, ◌%◌, ◌≤◌, ◌<◌, ◌≡◌, ap, ◌∙◌, arith, min, List, some, sum, collect-tabulate, tabulate,
  slice, slice_lem, length, nth, get_or-take-drop, length-take-drop, take, drop,
  get_elem?-eq-get_or, Bool-cases, inl, inr, ltb, ltb→lt, get_or_beyond, length-take,
}
use secure_vector_search.Bntm.Field.{field_p, IsField}
use secure_vector_search.Bntm.Field.FoldedSum.{folded_sum}
use secure_vector_search.Bntm.Field.FoldedSum.Mod.{folded_sum-eq-sum, square_bound}
use secure_vector_search.Bntm.Matvec.{
  wide_product, mersenne_matvec_scalar, mersenne_matvec_transpose, dot_product,
}

-- Entry `(i, j)` of a row-major matrix.
abbrev pub cell : List ℕ → ℕ → ℕ → ℕ → ℕ
cell mat cols i j = nth mat (i * cols + j)

-- The exact product of a row by a vector.
abbrev pub row_sum : List ℕ → ℕ → List ℕ → ℕ → ℕ
row_sum mat cols vec i = sum cols (λ j. cell mat cols i j * nth vec j)

abbrev pub column_sum : List ℕ → ℕ → ℕ → List ℕ → ℕ → ℕ
column_sum mat rows cols vec j = sum rows (λ i. nth vec i * cell mat cols i j)

pub product_bound : (a b : ℕ) → a < field_p → b < field_p → a * b ≤ square_bound
product_bound a b ha hb = grind arith

pub cell_in_range : (i j rows cols : ℕ) → i < rows → j < cols → i * cols + j < rows * cols
cell_in_range i j rows cols hi hj = grind arith

pub wide_product_lem :
    (a : List ℕ) (i : ℕ) (b : List ℕ) (j : ℕ)
    → i < length a
    → j < length b
    → nth a i < field_p
    → nth b j < field_p
    → wide_product a i b j ≡ some (nth a i * nth b j)
wide_product_lem a i b j hi hj ha hb =
    rw (get_elem?-eq-get_or a i 0 hi, get_elem?-eq-get_or b j 0 hj)
      (ap some (omega (arith, product_bound (nth a i) (nth b j) ha hb)))

-- A row of the matrix: the slice is in range, and its entries are those of the matrix.
pub row_slice :
    (mat : List ℕ) (rows cols i : ℕ)
    → length mat ≡ rows * cols
    → i < rows
    → slice mat (i * cols) ((i + 1) * cols) ≡ some (take cols (drop (i * cols) mat))
row_slice mat rows cols i shape hi =
    slice_lem mat (i * cols) ((i + 1) * cols) cols (omega arith) (grind arith)

pub length-row :
    (mat : List ℕ) (rows cols i : ℕ)
    → length mat ≡ rows * cols
    → i < rows
    → length (take cols (drop (i * cols) mat)) ≡ cols
length-row mat rows cols i shape hi = length-take-drop mat (i * cols) cols (grind arith)

pub IsField-row :
    (mat : List ℕ) (cols i : ℕ) → IsField mat → IsField (take cols (drop (i * cols) mat))
IsField-row mat cols i reduced j = elim (Bool-cases (ltb j cols)) [
  | inl e ↦ rw (get_or-take-drop mat (i * cols) cols j 0 (ltb→lt j cols e)) (reduced (i * cols + j))
  | inr e ↦
      rw
        (get_or_beyond (take cols (drop (i * cols) mat)) j 0
          (ground (arith, length-take cols (drop (i * cols) mat))))
        (omega arith)
]

module _ (mat vec : List ℕ) (rows cols : ℕ) (shape : length mat ≡ rows * cols)
    (reduced : IsField mat) (reduced_vec : IsField vec) where
  row_product :
      (i : ℕ)
      → i < rows
      → length vec ≡ cols
      → folded_sum cols (λ j. wide_product (take cols (drop (i * cols) mat)) j vec j)
        ≡ some (row_sum mat cols vec i % field_p)
  row_product i hi fits =
      let row = take cols (drop (i * cols) mat) in
      let reads : (j : ℕ) → j < cols → nth row j ≡ cell mat cols i j =
        λ j hj. get_or-take-drop mat (i * cols) cols j 0 hj in
      folded_sum-eq-sum cols (λ j. wide_product row j vec j) (λ j. cell mat cols i j * nth vec j)
        (λ j hj.
          wide_product_lem row j vec j (omega (arith, length-row mat rows cols i shape hi))
            (omega arith) (rw (reads j hj) (reduced (i * cols + j))) (reduced_vec j)
          ∙ ap (λ (t : ℕ). some (t * nth vec j)) (reads j hj))
        (λ j hj. product_bound _ _ (reduced (i * cols + j)) (reduced_vec j))

  pub matvec_scalar-eq-sums :
      length vec ≡ cols
      → mersenne_matvec_scalar mat rows cols vec
        ≡ some (tabulate rows (λ i. row_sum mat cols vec i % field_p))
  unfolding mersenne_matvec_scalar
  matvec_scalar-eq-sums fits =
      collect-tabulate rows _ (λ i. row_sum mat cols vec i % field_p)
        (λ i hi. rw (row_slice mat rows cols i shape hi) (row_product i hi fits))

  pub matvec_transpose-eq-sums :
      length vec ≡ rows
      → mersenne_matvec_transpose mat rows cols vec
        ≡ some (tabulate cols (λ j. column_sum mat rows cols vec j % field_p))
  unfolding mersenne_matvec_transpose
  matvec_transpose-eq-sums fits =
      collect-tabulate cols _ (λ j. column_sum mat rows cols vec j % field_p)
        (λ j hj.
          folded_sum-eq-sum rows _ (λ i. nth vec i * cell mat cols i j)
            (λ i hi.
              wide_product_lem vec i mat (i * cols + j) (omega arith)
                (omega (arith, cell_in_range i j rows cols hi hj)) (reduced_vec i)
                (reduced (i * cols + j)))
            (λ i hi. product_bound _ _ (reduced_vec i) (reduced (i * cols + j))))

pub dot_product-eq-sum :
    (a b : List ℕ)
    → length a ≡ length b
    → IsField a
    → IsField b
    → dot_product a b ≡ some (sum (length a) (λ i. nth a i * nth b i) % field_p)
unfolding dot_product
dot_product-eq-sum a b same ra rb =
    let n : min (length a) (length b) ≡ length a = omega arith in
    rw n (
      folded_sum-eq-sum (length a) _ (λ i. nth a i * nth b i)
        (λ i hi. wide_product_lem a i b i hi (omega arith) (ra i) (rb i))
        (λ i hi. product_bound _ _ (ra i) (rb i)))
