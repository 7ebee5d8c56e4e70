-- ===== src/Bntm/Sparse/Columns.antt =====
-- `M · t`: the product of a dense matrix by a sparse vector.
use native.Mathlib.Nat.{zero-mul}
use secure_vector_search.Prelude.{
  ℕ, zero, suc, ◌+◌, ◌*◌, ◌%◌, ◌≤◌, ◌<◌, ◌≡◌, refl, ap, ◌∙◌, sym, arith, ℤ, pos, negsuc, List,
  length, nth, get_elem?-eq-get_or, Option, some, sum, for_loop, for_loop_inv, set, length-set,
  get_or-set, replicate, get_or-replicate, length-replicate, tabulate, get_or_ext, length-tabulate,
  get_or-tabulate,
}
use secure_vector_search.Bntm.Field.{field_p, IsField, add_mod, sub_mod}
use secure_vector_search.Bntm.Matvec.Product.{cell, cell_in_range}
use secure_vector_search.Bntm.Sparse.{
  SparseVec, match_sign, dense_times_sparse, update_cell, update_column,
}
use secure_vector_search.Bntm.Sparse.Dense.{sign_value, sign_at, entries, dense, IsSparse}
use secure_vector_search.Bntm.Sparse.Products.{sum-dense, match_sign_add}

-- `M · t`
module _ (mat : List ℕ) (rows cols : ℕ) (t : SparseVec) (shape : length mat ≡ rows * cols)
    (reduced : IsField mat) (h : IsSparse cols t) where
  -- The first `k` rows of column `col` are done.
  record IsUpdated (op : ℕ → ℕ → ℕ) (col : ℕ) (old : List ℕ) (k : ℕ) (out : List ℕ) : Type 0 where
    size : length out ≡ rows
    done : (i : ℕ) → i < k → nth out i ≡ op (nth old i) (cell mat cols i col)
    todo : (i : ℕ) → k ≤ i → nth out i ≡ nth old i

  update_cell-IsUpdated :
      (op : ℕ → ℕ → ℕ) (col : ℕ) (old : List ℕ) (k : ℕ) (out : List ℕ)
      → col < cols
      → k < rows
      → IsUpdated op col old k out
      → (out' : List ℕ) × (update_cell op mat cols col k out ≡ some out')
        × IsUpdated op col old (suc k) out'
  unfolding update_cell
  update_cell-IsUpdated op col old k out hc hk u =
      let w = op (nth old k) (cell mat cols k col) in
      (
        set out k w,
        rw
            (
              get_elem?-eq-get_or out k 0 (omega (arith, u.size)),
              get_elem?-eq-get_or mat (k * cols + col) 0
                  (omega (arith, cell_in_range k col rows cols hk hc)),
              u.todo k (omega arith),
            )
            refl,
        record {
          size = length-set out k w ∙ u.size;
          done = λ i hi. ground (
            arith,
            get_or-set out k i w 0,
            u.done i,
            u.size,
            ap (λ (x : ℕ). op (nth old x) (cell mat cols x col)) {x = i} {y = k},
          );
          todo = λ i hi. ground (arith, get_or-set out k i w 0, u.todo i, u.size);
        },
      )

  column_pass :
      (op : ℕ → ℕ → ℕ) (col : ℕ) (old : List ℕ)
      → col < cols
      → length old ≡ rows
      → (out : List ℕ) × (for_loop rows (update_cell op mat cols col) old ≡ some out)
        × IsUpdated op col old rows out
  column_pass op col old hc size =
      for_loop_inv (IsUpdated op col old) (update_cell op mat cols col) rows
        (λ k out hk u. update_cell-IsUpdated op col old k out hc hk u) old
        (record { size = size; done = λ i hi. absurd (omega arith); todo = λ i hi. refl })

  record IsSigned (s : ℤ) (col : ℕ) (old out : List ℕ) : Type 0 where
    size : length out ≡ rows
    value :
        (i : ℕ) → i < rows → nth out i ≡ (nth old i + sign_value s * cell mat cols i col) % field_p

  abbrev signed_pass : ℤ → ℕ → List ℕ → Option (List ℕ)
  signed_pass s col old =
      match_sign s (for_loop rows (update_cell add_mod mat cols col) old)
        (for_loop rows (update_cell sub_mod mat cols col) old) (some old)

  module _ (col : ℕ) (old : List ℕ) (hc : col < cols) (size : length old ≡ rows)
      (small : (i : ℕ) → i < rows → nth old i < field_p) where
    abbrev Passes : ℤ → Type 0
    Passes s = (out : List ℕ) × (signed_pass s col old ≡ some out) × IsSigned s col old out

    unchanged : (s : ℤ) → sign_value s ≡ 0 → IsSigned s col old old
    unchanged s e = record {
      size = size;
      value = λ i hi. rw e (omega (arith, small i hi, zero-mul (cell mat cols i col)));
    }

    signed_pass-IsSigned : (s : ℤ) → Passes s
    signed_pass-IsSigned (pos zero) = (old, refl, unchanged (pos 0) refl)
    signed_pass-IsSigned (pos (suc zero)) =
        let (out, run, u) = column_pass add_mod col old hc size in
        (
          out,
          run,
          record {
            size = u.size;
            value = λ i hi.
                u.done i hi
                ∙ match_sign_add (pos 1) (nth old i) (cell mat cols i col) (small i hi)
                    (reduced (i * cols + col));
          },
        )
    signed_pass-IsSigned (pos (suc (suc k))) = (old, refl, unchanged (pos (suc (suc k))) refl)
    signed_pass-IsSigned (negsuc zero) =
        let (out, run, u) = column_pass sub_mod col old hc size in
        (
          out,
          run,
          record {
            size = u.size;
            value = λ i hi.
                u.done i hi
                ∙ match_sign_add (negsuc 0) (nth old i) (cell mat cols i col) (small i hi)
                    (reduced (i * cols + col));
          },
        )
    signed_pass-IsSigned (negsuc (suc k)) = (old, refl, unchanged (negsuc (suc k)) refl)

  abbrev signed_cell : ℕ → ℕ → ℕ
  signed_cell i e = sign_value (sign_at t e) * cell mat cols i (nth t.idx e)

  record IsColumns (e : ℕ) (out : List ℕ) : Type 0 where
    size : length out ≡ rows
    value : (i : ℕ) → i < rows → nth out i ≡ sum e (signed_cell i) % field_p

  IsColumns-step :
      (e : ℕ) (out : List ℕ)
      → e < entries t
      → IsColumns e out
      → (out' : List ℕ) × (update_column mat rows cols t e out ≡ some out') × IsColumns (suc e) out'
  unfolding update_column sum
  IsColumns-step e out he c =
      let hc = h.in_range e (omega (arith, h.paired)) in
      let (out', run, s) =
        signed_pass-IsSigned (nth t.idx e) out hc c.size (λ i hi. omega (arith, c.value i hi))
          (sign_at t e) in
      (
        out',
        rw
            (
              get_elem?-eq-get_or t.idx e 0 (omega arith),
              get_elem?-eq-get_or t.sign e (pos 0) (omega arith),
            )
            run,
        record { size = s.size; value = λ i hi. omega (arith, s.value i hi, c.value i hi) },
      )

  -- `M · t`: no read is out of range, and each entry is the dense product modulo p.
  pub dense_times_sparse-eq-sums :
      dense_times_sparse mat rows cols t
      ≡ some (tabulate rows (λ i. sum cols (λ j. dense t j * cell mat cols i j) % field_p))
  unfolding dense_times_sparse sum
  dense_times_sparse-eq-sums =
      let (out, run, c) =
        for_loop_inv IsColumns (update_column mat rows cols t) (entries t) IsColumns-step
          (replicate rows 0)
          (record {
            size = length-replicate {A = ℕ} rows 0;
            value = λ i hi. rw (get_or-replicate {A = ℕ} rows 0 i) refl;
          }) in
      let total = λ (i : ℕ). sum cols (λ j. dense t j * cell mat cols i j) % field_p in
      rw run (
        ap some (
          get_or_ext 0 out (tabulate rows total) (c.size ∙ sym (length-tabulate rows total))
            (λ i hi.
              let hi' : i < rows = omega (arith, c.size) in
              c.value i hi'
              ∙ ap (λ (x : ℕ). x % field_p) (sum-dense cols t (λ j. cell mat cols i j) h)
              ∙ sym (get_or-tabulate rows total i 0 hi'))))
