-- ===== src/Tiptoe/SimplePir/Hint.antt =====
-- The hint of the server is the exact product of the database by the public matrix, modulo 2^64.
use secure_vector_search.Prelude.{
  row_inside, ℕ, suc, ◌+◌, ◌*◌, ◌%◌, ◌^◌, ◌≤◌, ◌<◌, ◌≡◌, refl, ap, ◌∙◌, sym, arith, inl, inr,
  trichotomy, ltb, ◌==◌, if◌then◌else◌, true, Bool-cases, none, sum, sum_congr, tabulate_congr,
  lt→ltb, List, [], ◌∷◌, ◌++◌, length-append, length, nth, get_elem?-eq-get_or, set, length-set,
  get_or-set, replicate, length-replicate, get_or-replicate, some, for_loop, for_loop_inv,
  collect_flat-grid, tabulate, grid, length-tabulate, get_or-tabulate, get_or_ext, take, drop,
  slice_lem, get_or-take-drop, length-take-drop, wrapping_add64, wrapping_mul64,
}
use secure_vector_search.Rng.{Rng}
use secure_vector_search.Tiptoe.Lwe.{Params}
use secure_vector_search.Tiptoe.SimplePir.{
  expand_step, expand_a, preprocess, add_cell, add_row, mat_mul_row, mat_mul_u64,
}

-- One row of the product, updated by one row of the right factor.
module _ (m_val k : ℕ) (x_row y_row : List ℕ) (x_len : length x_row ≡ k)
    (y_len : length y_row ≡ k) where
  record IsAdded (i : ℕ) (out : List ℕ) : Type 0 where
    size : length out ≡ k
    value :
        (t : ℕ)
        → nth out t
          ≡ (if ltb t i then (nth y_row t + m_val * nth x_row t) % 2 ^ 64 else nth y_row t)

  IsAdded-step :
      (i : ℕ) (out : List ℕ)
      → i < k
      → IsAdded i out
      → (out' : List ℕ) × (add_cell m_val x_row i out ≡ some out') × IsAdded (suc i) out'
  unfolding add_cell
  IsAdded-step i out hi a =
      let v = wrapping_add64 (nth out i) (wrapping_mul64 m_val (nth x_row i)) in
      (
        set out i v,
        rw
            (
              get_elem?-eq-get_or out i 0 (omega (arith, a.size)),
              get_elem?-eq-get_or x_row i 0 (omega (arith, x_len)),
            )
            refl,
        record {
          size = length-set out i v ∙ a.size;
          value = λ t. get_or-set out i t v 0 (omega (arith, a.size)) ∙ entry t;
        },
      )
    where
      entry :
          (t : ℕ)
          → (if ltb i t
              then nth out t
              else if ltb t i
              then nth out t
              else wrapping_add64 (nth out i) (wrapping_mul64 m_val (nth x_row i)))
            ≡ (if ltb t (suc i) then (nth y_row t + m_val * nth x_row t) % 2 ^ 64 else nth y_row t)
      entry t = elim (trichotomy i t) [
        | inl before ↦ ground (arith, a.value t)
        | inr (inl same) ↦ rw (sym same) (ground (arith, a.value i))
        | inr (inr after) ↦ ground (arith, a.value t)
      ]

  add_cells : (out : List ℕ) × (for_loop k (add_cell m_val x_row) y_row ≡ some out) × IsAdded k out
  add_cells =
      for_loop_inv IsAdded (add_cell m_val x_row) k IsAdded-step y_row
        (record { size = y_len; value = λ t. ground arith })

-- One row of the product.
module _ (x : List ℕ) (c k : ℕ) (shape : length x ≡ c * k) (m_row : List ℕ)
    (width : length m_row ≡ c) where
  abbrev exact : ℕ → ℕ → ℕ
  exact j t = sum j (λ j. nth m_row j * nth x (j * k + t))

  record IsPartialRow (j : ℕ) (out : List ℕ) : Type 0 where
    size : length out ≡ k
    value : (t : ℕ) → t < k → nth out t ≡ exact j t % 2 ^ 64

  IsPartialRow-step :
      (j : ℕ) (out : List ℕ)
      → j < c
      → IsPartialRow j out
      → (out' : List ℕ) × (add_row m_row x k j out ≡ some out') × IsPartialRow (suc j) out'
  unfolding add_row sum
  IsPartialRow-step j out hj a =
      let inside : j * k + k ≤ length x = omega (arith, row_inside j k c hj, shape) in
      let x_row = take k (drop (j * k) x) in
      let len : length x_row ≡ k = length-take-drop x (j * k) k inside in
      let (out', run, b) = add_cells (nth m_row j) k x_row out len a.size in
      (
        out',
        rw
            (
              get_elem?-eq-get_or m_row j 0 (omega (arith, width)),
              slice_lem x (j * k) ((j + 1) * k) k (omega arith) (omega (arith, inside)),
            )
            run,
        record {
          size = b.size;
          value = λ t ht.
              let read = get_or-take-drop x (j * k) k t 0 ht in
              b.value t
              ∙ ground (arith, lt→ltb t k ht, a.value t ht, ap (λ (y : ℕ). nth m_row j * y) read);
        },
      )

  row_run :
      for_loop c (add_row m_row x k) (replicate k 0) ≡ some (tabulate k (λ t. exact c t % 2 ^ 64))
  unfolding sum
  row_run =
      let (out, run, a) =
        for_loop_inv IsPartialRow (add_row m_row x k) c IsPartialRow-step (replicate k 0)
          (record { size = length-replicate k 0; value = λ t ht. get_or-replicate k 0 t }) in
      let total = λ (t : ℕ). exact c t % 2 ^ 64 in
      rw run (
        ap some (
          get_or_ext 0 out (tabulate k total) (omega (arith, a.size, length-tabulate k total))
            (λ t ht.
              a.value t (omega (arith, a.size))
              ∙ sym (get_or-tabulate k total t 0 (omega (arith, a.size))))))

module _ (m x : List ℕ) (r c k : ℕ) (m_shape : length m ≡ r * c) (x_shape : length x ≡ c * k) where
  abbrev pub product_entry : ℕ → ℕ → ℕ
  product_entry i t = sum c (λ j. nth m (i * c + j) * nth x (j * k + t)) % 2 ^ 64

  mat_mul_row_lem : (i : ℕ) → i < r → mat_mul_row m c x k i ≡ some (tabulate k (product_entry i))
  unfolding mat_mul_row
  mat_mul_row_lem i hi =
      let inside : i * c + c ≤ length m = omega (arith, row_inside i c r hi, m_shape) in
      let row = take c (drop (i * c) m) in
      rw (slice_lem m (i * c) ((i + 1) * c) c (omega arith) (omega (arith, inside))) (
        row_run x c k x_shape row (length-take-drop m (i * c) c inside)
        ∙ ap some (
            tabulate_congr k _ (product_entry i) (λ t ht.
              ap (λ (y : ℕ). y % 2 ^ 64)
                (sum_congr c _ _ (λ j hj.
                  ap (λ (y : ℕ). y * nth x (j * k + t)) (get_or-take-drop m (i * c) c j 0 hj))))))

  -- On shaped factors with a column at least no read is out of range, and each entry is the exact
  -- sum modulo 2^64; without columns the product panics.
  pub mat_mul-eq-sums :
      mat_mul_u64 m r c x k ≡ (if k == 0 then none else some (grid r k product_entry))
  unfolding mat_mul_u64
  mat_mul-eq-sums =
      let m_ok : (length m == r * c) ≡ true = ground (arith, m_shape) in
      let x_ok : (length x == c * k) ≡ true = ground (arith, x_shape) in
      elim (Bool-cases (k == 0)) [
        | inl e ↦ rw (mat_mul_u64, m_ok, x_ok, e) refl
        | inr e ↦
            rw (mat_mul_u64, m_ok, x_ok, e)
              (collect_flat-grid r k (mat_mul_row m c x k) product_entry mat_mul_row_lem)
      ]

module _ (g : Rng) where
  open g use {State, from_seed}

  expand_a_lem :
      (seed : List ℕ) (c n : ℕ) → (a : List ℕ) × (expand_a g seed c n ≡ some a) × (length a ≡ c * n)
  unfolding expand_a
  expand_a_lem seed c n =
      let (v, run, size) =
        for_loop_inv (λ i v. length v.0 ≡ i) (expand_step g) (c * n)
          (λ i v hi size. (
            (v.0 ++ (g.next_u64 v.1).0 ∷ [], (g.next_u64 v.1).1),
            expand_step_lem i v,
            omega (arith, length-append v.0 ((g.next_u64 v.1).0 ∷ []), size),
          ))
          ([], from_seed seed) refl in
      (v.0, rw run refl, size)
    where
      expand_step_lem :
          (i : ℕ) (v : List ℕ × State)
          → expand_step g i v ≡ some (v.0 ++ (g.next_u64 v.1).0 ∷ [], (g.next_u64 v.1).1)
      expand_step_lem i v = refl

  -- On a shaped database the public matrix is expanded from the seed, and the preprocessing returns
  -- with the exact product of the database by that matrix, modulo 2^64, as its hint; for a lattice of
  -- dimension 0 it panics.
  pub preprocess_lem :
      (db : List ℕ) (r c : ℕ) (seed : List ℕ) (params : Params) (db_shape : length db ≡ r * c)
      → (a : List ℕ) × (a_shape : length a ≡ c * params.n) × (expand_a g seed c params.n ≡ some a)
        × (preprocess g db r c seed params ≡ (
            if params.n == 0
            then none
            else some (record {
              seed = seed;
              hint = grid r params.n (product_entry db a r c params.n db_shape a_shape);
              r = r;
              c = c;
              n = params.n;
            })))
  unfolding preprocess
  preprocess_lem db r c seed params db_shape =
      let (a, run, shape) = expand_a_lem seed c params.n in
      let db_ok : (length db == r * c) ≡ true = ground (arith, db_shape) in
      (
        a,
        shape,
        run,
        elim (Bool-cases (params.n == 0)) [
          | inl e ↦
              rw (preprocess, db_ok, run, mat_mul-eq-sums db a r c params.n db_shape shape, e) refl
          | inr e ↦
              rw (preprocess, db_ok, run, mat_mul-eq-sums db a r c params.n db_shape shape, e) refl
        ],
      )
