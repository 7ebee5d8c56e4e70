-- ===== src/Bntm/Query/Encoded.antt =====
-- The encoded query, entry by entry: v + L · G + T modulo p.
use secure_vector_search.Prelude.{
  ℕ, suc, ◌+◌, ◌*◌, ◌%◌, ◌^◌, ◌≤◌, ◌<◌, ◌≡◌, refl, ◌∙◌, arith, Bool-cases, inl, inr, ltb, ◌==◌,
  if◌then◌else◌, pos, List, length, nth, get_elem?-eq-get_or, set, length-set, get_or-set,
  get_or_beyond, some, sum, collect-tabulate, tabulate, length-tabulate, get_or-tabulate, take,
  drop, get_or-take-drop, for_loop_inv,
}
use secure_vector_search.Rng.{Rng}
use secure_vector_search.Float.{Float}
use secure_vector_search.Bntm.Field.{field_p, IsField, add_mod, sub_mod}
use secure_vector_search.Bntm.Field.Ops.{add_mod-eq-mod}
use secure_vector_search.Bntm.Field.FoldedSum.Mod.{folded_sum-eq-sum}
use secure_vector_search.Bntm.Matvec.{wide_product}
use secure_vector_search.Bntm.Matvec.Product.{
  cell, row_sum, product_bound, wide_product_lem, row_slice, length-row, IsField-row,
}
use secure_vector_search.Bntm.Sparse.{SparseVec, match_sign}
use secure_vector_search.Bntm.Sparse.Dense.{IsSparse, dense, entries, sign_at, sign_value}
use secure_vector_search.Bntm.Sparse.Products.{match_sign_add}
use secure_vector_search.Bntm.Sampling.Shape.{Accepts, sample_fps_lem}
use secure_vector_search.Bntm.Sampling.Columns.{sample_sparse_pm1_lem}
use secure_vector_search.Bntm.Keys.{IsMatrix}
use secure_vector_search.Bntm.Query.{
  QueryEncoded, mask_entry, add_sparse_entry, add_plain_entry, mask_query, encode_query,
}

module _ (v l g : List ℕ) (t : SparseVec) (n n1 : ℕ) (v_len : length v ≡ n) (v_red : IsField v)
    (l_ok : IsMatrix n n1 l) (g_len : length g ≡ n1) (g_red : IsField g) (t_ok : IsSparse n t) where
  lg_entry : (j : ℕ) → j < n → mask_entry l n1 g j ≡ some (row_sum l n1 g j % field_p)
  unfolding mask_entry
  lg_entry j hj =
      let row = take n1 (drop (j * n1) l) in
      rw (row_slice l n n1 j l_ok.shape hj) (
        folded_sum-eq-sum n1 (λ k. wide_product row k g k) (λ k. cell l n1 j k * nth g k)
          (λ k hk.
            wide_product_lem row k g k (omega (arith, length-row l n n1 j l_ok.shape hj))
              (omega arith) (IsField-row l n1 j l_ok.reduced k) (g_red k)
            ∙ rw (get_or-take-drop l (j * n1) n1 k 0 hk) refl)
          (λ k hk. product_bound _ _ (l_ok.reduced (j * n1 + k)) (g_red k)))

  -- The part of the sparse vector that the first `e` entries make.
  abbrev partial : ℕ → ℕ → ℕ
  partial e j = sum e (λ k. if nth t.idx k == j then sign_value (sign_at t k) else 0)

  record IsNoisy (e : ℕ) (x : List ℕ) : Type 0 where
    size : length x ≡ n
    value : (j : ℕ) → j < n → nth x j ≡ (row_sum l n1 g j + partial e j) % field_p

  IsNoisy-step :
      (e : ℕ) (x : List ℕ)
      → e < entries t
      → IsNoisy e x
      → (x' : List ℕ) × (add_sparse_entry t e x ≡ some x') × IsNoisy (suc e) x'
  unfolding add_sparse_entry sum
  IsNoisy-step e x he h =
      let c = nth t.idx e in
      let hc : c < n = t_ok.in_range e (omega (arith, t_ok.paired)) in
      let s = sign_at t e in
      let w = match_sign s (add_mod (nth x c) 1) (sub_mod (nth x c) 1) (nth x c) in
      let w_value = match_sign_add s (nth x c) 1 (omega (arith, h.value c hc)) (omega arith) in
      (
        set x c w,
        rw
            (
              get_elem?-eq-get_or t.idx e 0 (omega arith),
              get_elem?-eq-get_or t.sign e (pos 0) (omega arith),
              get_elem?-eq-get_or x c 0 (omega (arith, h.size)),
            )
            refl,
        record {
          size = length-set x c w ∙ h.size;
          value = λ j hj. elim (Bool-cases (c == j)) [
            | inl here ↦
                let same : c ≡ j = ground arith in
                rw (here, ← same)
                  (ground (arith, get_or-set x c c w 0, h.size, w_value, h.value c hc))
            | inr there ↦ rw there (ground (arith, get_or-set x c j w 0, h.size, h.value j hj))
          ];
        },
      )

  record IsEncoded (k : ℕ) (x : List ℕ) : Type 0 where
    size : length x ≡ n
    done : (j : ℕ) → j < k → nth x j ≡ (nth v j + (row_sum l n1 g j + dense t j)) % field_p
    todo : (j : ℕ) → k ≤ j → j < n → nth x j ≡ (row_sum l n1 g j + dense t j) % field_p

  IsEncoded-step :
      (k : ℕ) (x : List ℕ)
      → k < n
      → IsEncoded k x
      → (x' : List ℕ) × (add_plain_entry v k x ≡ some x') × IsEncoded (suc k) x'
  unfolding add_plain_entry
  IsEncoded-step k x hk h =
      let w = add_mod (nth x k) (nth v k) in
      let old = h.todo k (omega arith) hk in
      let w_value = add_mod-eq-mod (nth x k) (nth v k) (omega arith) (v_red k) in
      (
        set x k w,
        rw
            (
              get_elem?-eq-get_or x k 0 (omega (arith, h.size)),
              get_elem?-eq-get_or v k 0 (omega arith),
            )
            refl,
        record {
          size = length-set x k w ∙ h.size;
          done = λ j hj. elim (Bool-cases (ltb j k)) [
            | inl e ↦ ground (arith, get_or-set x k j w 0, h.size, h.done j)
            | inr e ↦
                let same : k ≡ j = ground arith in
                rw (← same) (ground (arith, get_or-set x k k w 0, h.size, w_value, old))
          ];
          todo = λ j hj hn. ground (arith, get_or-set x k j w 0, h.size, h.todo j);
        },
      )

  -- The masked query: no read is out of range, and entry j is v + L · G + T modulo p.
  pub mask_query-value :
      (x : List ℕ) × (mask_query v l n n1 g t ≡ some x)
      × (length x ≡ n)
      × IsField x
      × ((j : ℕ) → j < n → nth x j ≡ (nth v j + (row_sum l n1 g j + dense t j)) % field_p)
  unfolding mask_query sum
  mask_query-value =
      let lg = tabulate n (λ j. row_sum l n1 g j % field_p) in
      let first =
        collect-tabulate n (mask_entry l n1 g) (λ j. row_sum l n1 g j % field_p) lg_entry in
      let (noisy, run, a) =
        for_loop_inv IsNoisy (add_sparse_entry t) (entries t) IsNoisy-step lg (record {
          size = length-tabulate n (λ j. row_sum l n1 g j % field_p);
          value = λ j hj. get_or-tabulate n (λ j. row_sum l n1 g j % field_p) j 0 hj ∙ omega arith;
        }) in
      let (x, run', b) = for_loop_inv IsEncoded (add_plain_entry v) n IsEncoded-step noisy (record {
        size = a.size;
        done = λ j hj. absurd (omega arith);
        todo = λ j _ hj. a.value j hj;
      }) in
      (x, rw (first, run, run'), b.size, reduced x b.size b.done, b.done)
    where
      reduced :
          (x : List ℕ)
          → length x ≡ n
          → ((j : ℕ) → j < n → nth x j ≡ (nth v j + (row_sum l n1 g j + dense t j)) % field_p)
          → IsField x
      reduced x size done j = elim (Bool-cases (ltb j n)) [
        | inl e ↦ omega (arith, done j (ground arith))
        | inr e ↦ rw (get_or_beyond x j 0 (ground arith)) (omega arith)
      ]

-- What encoding establishes about its result.
pub record IsEncoding (v l : List ℕ) (n n1 : ℕ) (q : QueryEncoded) : Type 0 where
  pub size : length q.v_enc ≡ n
  pub reduced : IsField q.v_enc
  pub value :
      (j : ℕ) → j < n → nth q.v_enc j ≡ (nth v j + (row_sum l n1 q.g j + dense q.t j)) % field_p
  pub g_size : length q.g ≡ n1
  pub g_reduced : IsField q.g
  pub t_sparse : IsSparse n q.t

module _ (r : Rng) (f : Float) where
  open r use {State}
  open f use {F64}

  pub encode_query-IsEncoding :
      (fuel : ℕ) (v l : List ℕ) (rng : State) (n n1 : ℕ) (mu : F64)
      → Accepts r fuel
      → n ≤ 2 ^ 32
      → length v ≡ n
      → IsField v
      → IsMatrix n n1 l
      → (q : QueryEncoded × State) × (encode_query r f fuel v l rng n n1 mu ≡ some q)
        × IsEncoding v l n n1 q.0
  unfolding encode_query
  encode_query-IsEncoding fuel v l rng n n1 mu accepts narrow v_len v_red l_ok =
      let (g, run_g, g_len, g_red) = sample_fps_lem r fuel n1 rng accepts in
      let (t, run_t, t_ok, _, _) = sample_sparse_pm1_lem r f n mu g.1 narrow in
      let (x, run_x, size, red, value) =
        mask_query-value v l g.0 t.0 n n1 v_len v_red l_ok g_len g_red t_ok in
      (
        (record { v_enc = x; g = g.0; t = t.0 }, t.1),
        rw (run_g, run_t, run_x),
        record {
          size = size;
          reduced = red;
          value = value;
          g_size = g_len;
          g_reduced = g_red;
          t_sparse = t_ok;
        },
      )
