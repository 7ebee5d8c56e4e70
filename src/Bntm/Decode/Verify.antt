-- ===== src/Bntm/Decode/Verify.antt =====
-- The iterated Freivalds check: what one trial decides, and that an honest server passes.
use native.Mathlib.Nat.{mod-mod, mul_comm}
use secure_vector_search.Prelude.{
  sum_exchange, ok, ℕ, zero, suc, ◌*◌, ◌%◌, ◌≡◌, ◌↔◌, refl, ap, ◌∙◌, arith, true, ◌==◌, ==_iff,
  Bool, List, length, nth, some, sum, sum_congr, sum_congr_mod, mul_congr_mod, mul_congr_mod_right,
  tabulate, length-tabulate, get_or-tabulate,
}
use secure_vector_search.Rng.{Rng}
use secure_vector_search.Bntm.Field.{field_p, IsField}
use secure_vector_search.Bntm.Field.Vectors.{IsField-tabulate}
use secure_vector_search.Bntm.Matvec.Product.{
  cell, row_sum, column_sum, matvec_transpose-eq-sums, dot_product-eq-sum,
}
use secure_vector_search.Bntm.Kernel.Agree.{product_mod}
use secure_vector_search.Bntm.Sampling.{sample_fps}
use secure_vector_search.Bntm.Sampling.Shape.{Accepts, sample_fps_lem}
use secure_vector_search.Bntm.Keys.{IsMatrix}
use secure_vector_search.Bntm.Decode.{run_trial, run_trials, verify_response}

module _ (r : Rng) (response m_enc v_enc : List ℕ) (m n : ℕ) (r_len : length response ≡ m)
    (r_red : IsField response) (enc_ok : IsMatrix m n m_enc) (v_len : length v_enc ≡ n)
    (v_red : IsField v_enc) where
  open r use {State}

  -- u · (M_enc · v_enc), exact.
  abbrev honest_sum : List ℕ → ℕ
  honest_sum u = sum m (λ i. nth u i * row_sum m_enc n v_enc i)

  abbrev claimed_sum : List ℕ → ℕ
  claimed_sum u = sum m (λ i. nth u i * nth response i)

  right_side :
      (u : List ℕ)
      → sum n (λ j. nth (tabulate n (λ j. column_sum m_enc m n u j % field_p)) j * nth v_enc j)
          % field_p
        ≡ honest_sum u % field_p
  right_side u =
      sum_congr_mod field_p n _ (λ j. column_sum m_enc m n u j * nth v_enc j)
        (λ j hj. mul_congr_mod field_p _ (column_sum m_enc m n u j) (nth v_enc j) (
          ap (λ (x : ℕ). x % field_p)
            (get_or-tabulate n (λ j. column_sum m_enc m n u j % field_p) j 0 hj)
          ∙ mod-mod _ field_p))
      ∙ ap (λ (x : ℕ). x % field_p)
          (sum_exchange n m (nth u) (nth v_enc) (λ j i. cell m_enc n i j)
            ∙ sum_congr m _ _ (λ i hi.
              ap (λ (x : ℕ). nth u i * x)
                (sum_congr n _ _ (λ j hj. mul_comm (nth v_enc j) (cell m_enc n i j)))))

  -- A trial draws a vector u, and passes exactly when the claimed response and the true product
  -- have the same inner product with u modulo p.
  pub run_trial_iff :
      (fuel : ℕ) (rng : State)
      → Accepts r fuel
      → (u : List ℕ) × (b : Bool) × (rng' : State) × (sample_fps r fuel m rng ≡ some (u, rng'))
        × (run_trial r fuel response m_enc m n v_enc rng ≡ some (b, rng'))
        × ((b ≡ true) ↔ (claimed_sum u % field_p ≡ honest_sum u % field_p))
  unfolding run_trial
  run_trial_iff fuel rng accepts =
      let (d, run, size, red) = sample_fps_lem r fuel m rng accepts in
      let u = d.0 in
      let z = tabulate n (λ j. column_sum m_enc m n u j % field_p) in
      let z_red : IsField z =
        IsField-tabulate n (λ j. column_sum m_enc m n u j % field_p) (λ j. omega arith) in
      let z_len = length-tabulate n (λ j. column_sum m_enc m n u j % field_p) in
      let left =
        dot_product-eq-sum u response (omega arith) red r_red
        ∙ ap (λ (k : ℕ). some (sum k (λ i. nth u i * nth response i) % field_p)) size in
      let z_run = matvec_transpose-eq-sums m_enc u m n enc_ok.shape enc_ok.reduced red size in
      let right =
        dot_product-eq-sum z v_enc (omega arith) z_red v_red
        ∙ ap (λ (k : ℕ). some (sum k (λ j. nth z j * nth v_enc j) % field_p)) z_len
        ∙ ap some (right_side u) in
      (
        u,
        claimed_sum u % field_p == honest_sum u % field_p,
        d.1,
        run,
        rw (run, left, z_run, right) refl,
        ==_iff (claimed_sum u % field_p) (honest_sum u % field_p),
      )

  -- The response of an honest server passes one trial, whatever is drawn.
  honest_trial :
      (fuel : ℕ) (rng : State)
      → Accepts r fuel
      → response ≡ product_mod m_enc m n v_enc
      → (rng' : State) × (run_trial r fuel response m_enc m n v_enc rng ≡ some (true, rng'))
  honest_trial fuel rng accepts e =
      let (u, b, rng', drawn, run, iff) = run_trial_iff fuel rng accepts in
      let same : claimed_sum u % field_p ≡ honest_sum u % field_p =
        sum_congr_mod field_p m _ _ (λ i hi.
          mul_congr_mod_right field_p (nth response i) (row_sum m_enc n v_enc i) (nth u i) (
            ap (λ (x : ℕ). x % field_p)
              (ap (λ (ys : List ℕ). nth ys i) e
                ∙ get_or-tabulate m (λ i. row_sum m_enc n v_enc i % field_p) i 0 hi)
            ∙ mod-mod _ field_p)) in
      let passed : b ≡ true = iff.1 same in (rng', rw (← passed) run)

  honest_trials :
      (fuel left trial : ℕ) (rng : State)
      → Accepts r fuel
      → response ≡ product_mod m_enc m n v_enc
      → (rng' : State) × (run_trials r fuel response m_enc m n v_enc left trial rng
          ≡ some (ok tt, rng'))
  unfolding run_trials
  honest_trials fuel zero trial rng accepts e = (rng, refl)
  honest_trials fuel (suc left) trial rng accepts e =
      let (rng', run) = honest_trial fuel rng accepts e in
      rw run (honest_trials fuel left (suc trial) rng' accepts e)

  -- The honest response is accepted, for every number of trials and every generator that accepts
  -- in time.
  pub verify_response_complete :
      (fuel trials : ℕ) (rng : State)
      → Accepts r fuel
      → response ≡ product_mod m_enc m n v_enc
      → (rng' : State) × (verify_response r fuel response m_enc m n v_enc trials rng
          ≡ some (ok tt, rng'))
  unfolding verify_response
  verify_response_complete fuel trials rng accepts e = honest_trials fuel trials 0 rng accepts e
