-- ===== src/Bntm/Sparse/Products.antt =====
-- The products with sparse vectors agree with those of the dense vectors that they stand for.
use native.Mathlib.Nat.{zero-mul}
use secure_vector_search.Prelude.{
  ℕ, zero, suc, ◌+◌, ◌*◌, ◌%◌, ◌<◌, ◌≡◌, refl, ap, ◌∙◌, sym, arith, Bool-cases, inl, inr, ◌==◌,
  if◌then◌else◌, true, false, ℤ, pos, negsuc, List, length, nth, get_or, get_elem?,
  get_elem?-eq-get_or, some, ◌>>=◌, sum, sum_congr, sum_single, sum_comm, sum-mul, lt→ltb,
  for_loop_inv, tabulate, collect-tabulate,
}
use secure_vector_search.Bntm.Field.{field_p, IsField, add_mod, sub_mod}
use secure_vector_search.Bntm.Field.Ops.{add_mod-eq-mod, sub_mod-eq-mod}
use secure_vector_search.Bntm.Sparse.{
  SparseVec, SparseMatrix, match_sign, sparse_row_step, sparse_row_times_dense, sparse_times_dense,
}
use secure_vector_search.Bntm.Sparse.Dense.{
  sign_value, sign_at, entries, dense, IsSparse, no_entries,
}

-- Adding or subtracting by a sign is adding its value times the operand.
pub match_sign_add :
    (s : ℤ) (acc x : ℕ)
    → acc < field_p
    → x < field_p
    → match_sign s (add_mod acc x) (sub_mod acc x) acc ≡ (acc + sign_value s * x) % field_p
match_sign_add (pos zero) acc x ha hx = ground arith
match_sign_add (pos (suc zero)) acc x ha hx = ground (arith, add_mod-eq-mod acc x)
match_sign_add (pos (suc (suc n))) acc x ha hx = ground arith
match_sign_add (negsuc zero) acc x ha hx = omega (arith, sub_mod-eq-mod acc x ha hx)
match_sign_add (negsuc (suc n)) acc x ha hx = ground arith

-- A sum over the entries of a sparse vector is one over the columns of its dense form.
pub sum-dense :
    (n : ℕ) (t : SparseVec) (w : ℕ → ℕ)
    → IsSparse n t
    → sum (entries t) (λ e. sign_value (sign_at t e) * w (nth t.idx e))
      ≡ sum n (λ j. dense t j * w j)
sum-dense n t w h = sym (
    sum_congr n _ _ (λ j hj. sum-mul (entries t) _ (w j))
    ∙ sum_comm n (entries t)
        (λ j e. (if nth t.idx e == j then sign_value (sign_at t e) else 0) * w j)
    ∙ sum_congr (entries t) _ _ (λ e he. column e (h.in_range e (omega (arith, h.paired)))))
  where
    column :
        (e : ℕ)
        → nth t.idx e < n
        → sum n (λ j. (if nth t.idx e == j then sign_value (sign_at t e) else 0) * w j)
          ≡ sign_value (sign_at t e) * w (nth t.idx e)
    column e he =
        sum_congr n _ (λ j. if j == nth t.idx e then sign_value (sign_at t e) * w j else 0)
          (λ j hj. elim (Bool-cases (j == nth t.idx e)) [
            | inl same ↦ let flip : (nth t.idx e == j) ≡ true = ground arith in rw (same, flip)
            | inr other ↦
                let flip : (nth t.idx e == j) ≡ false = ground arith in
                rw (other, flip) (zero-mul (w j))
          ])
        ∙ sum_single n (nth t.idx e) (λ j. sign_value (sign_at t e) * w j)
        ∙ rw (lt→ltb (nth t.idx e) n he)

module _ (n : ℕ) (t : SparseVec) (v : List ℕ) (h : IsSparse n t) (fits : length v ≡ n)
    (reduced : IsField v) where
  abbrev entry_product : ℕ → ℕ
  entry_product e = sign_value (sign_at t e) * nth v (nth t.idx e)

  record IsAccumulated (e acc : ℕ) : Type 0 where
    value : acc ≡ sum e entry_product % field_p

  row_step :
      (e acc : ℕ)
      → e < entries t
      → acc < field_p
      → sparse_row_step t v e acc ≡ some ((acc + entry_product e) % field_p)
  unfolding sparse_row_step
  row_step e acc he ha =
      rw
        (
          get_elem?-eq-get_or t.idx e 0 (omega arith),
          get_elem?-eq-get_or t.sign e (pos 0) (omega arith),
          get_elem?-eq-get_or v (nth t.idx e) 0
              (omega (arith, h.in_range e (omega (arith, h.paired)))),
        )
        (ap some
          (match_sign_add (sign_at t e) acc (nth v (nth t.idx e)) ha (reduced (nth t.idx e))))

  -- `S · v`, one row: no read is out of range, and the result is the dense product modulo p.
  pub sparse_row-eq-sum :
      sparse_row_times_dense t v ≡ some (sum n (λ j. dense t j * nth v j) % field_p)
  unfolding sparse_row_times_dense sum
  sparse_row-eq-sum =
      let (acc, run, inv) =
        for_loop_inv IsAccumulated (sparse_row_step t v) (entries t)
          (λ e acc he inv. (
            (acc + entry_product e) % field_p,
            row_step e acc he (omega (arith, inv.value)),
            record { value = omega (arith, inv.value) },
          ))
          0 (record { value = refl }) in
      rw run (ap some (inv.value ∙ ap (λ (x : ℕ). x % field_p) (sum-dense n t (nth v) h)))

-- `S · v`
pub sparse_times_dense-eq-sums :
    (s : SparseMatrix) (v : List ℕ) (n : ℕ)
    → ((i : ℕ) → i < length s.rows → IsSparse n (get_or s.rows i no_entries))
    → length v ≡ n
    → IsField v
    → sparse_times_dense s v
      ≡ some (
          tabulate
            (length s.rows)
            (λ i. sum n (λ j. dense (get_or s.rows i no_entries) j * nth v j) % field_p))
unfolding sparse_times_dense
sparse_times_dense-eq-sums s v n rows_ok fits reduced =
    collect-tabulate (length s.rows)
      (λ i. get_elem? s.rows i >>= λ row. sparse_row_times_dense row v)
      (λ i. sum n (λ j. dense (get_or s.rows i no_entries) j * nth v j) % field_p)
      (λ i hi.
        rw (get_elem?-eq-get_or s.rows i no_entries hi)
          (sparse_row-eq-sum n (get_or s.rows i no_entries) v (rows_ok i hi) fits reduced))
