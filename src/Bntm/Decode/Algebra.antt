-- ===== src/Bntm/Decode/Algebra.antt =====
-- The identity behind the decoding, on exact sums: (M + HL⊤ + S)(v + LG + T) taken apart.
use native.Mathlib.Nat.{mul_comm, mul_assoc, mul-add, add-mul, mod-mod}
use secure_vector_search.Prelude.{
  sum_exchange, ℕ, ◌+◌, ◌*◌, ◌%◌, ◌<◌, ◌≡◌, ap, ◌∙◌, sym, sum, sum_congr, sum_congr_mod, sum-add,
  mul-sum, sum-mul, sum_comm, mul_congr_mod, mul_congr_mod_right, add_congr_mod,
}
use secure_vector_search.Bntm.Field.{field_p}

-- Σ_j a j · (Σ_k b j k · c k) = Σ_k (Σ_j a j · b j k) · c k
sum_regroup :
    (n m : ℕ) (a c : ℕ → ℕ) (b : ℕ → ℕ → ℕ)
    → sum n (λ j. a j * sum m (λ k. b j k * c k)) ≡ sum m (λ k. sum n (λ j. a j * b j k) * c k)
sum_regroup n m a c b =
    sum_congr n _ _ (λ j hj.
      mul-sum m (a j) (λ k. b j k * c k)
      ∙ sum_congr m _ (λ k. a j * b j k * c k) (λ k hk. sym (mul_assoc (a j) (b j k) (c k))))
    ∙ sum_comm n m (λ j k. a j * b j k * c k)
    ∙ sum_congr m _ _ (λ k hk. sym (sum-mul n (λ j. a j * b j k) (c k)))

module _ (n n1 : ℕ) (row s enc v t v_enc h g : ℕ → ℕ) (l : ℕ → ℕ → ℕ) where
  abbrev mask_at : ℕ → ℕ
  mask_at j = sum n1 (λ k. h k * l j k) + s j

  abbrev shift_at : ℕ → ℕ
  shift_at j = sum n1 (λ k. l j k * g k) + t j

  -- M · v + (M · L) · G + M · T
  query_side :
      sum n (λ j. row j * (v j + shift_at j))
      ≡ sum n (λ j. row j * v j)
        + (sum n1 (λ k. sum n (λ j. row j * l j k) * g k) + sum n (λ j. t j * row j))
  query_side =
      sum_congr n _ (λ j. row j * v j + (row j * sum n1 (λ k. l j k * g k) + t j * row j))
        (λ j hj.
          mul-add (row j) (v j) (shift_at j)
          ∙ ap (λ (x : ℕ). row j * v j + x)
              (mul-add (row j) (sum n1 (λ k. l j k * g k)) (t j)
                ∙ ap (λ (x : ℕ). row j * sum n1 (λ k. l j k * g k) + x) (mul_comm (row j) (t j))))
      ∙ sum-add n (λ j. row j * v j) _
      ∙ ap (λ (x : ℕ). sum n (λ j. row j * v j) + x)
          (sum-add n (λ j. row j * sum n1 (λ k. l j k * g k)) (λ j. t j * row j)
            ∙ ap (λ (x : ℕ). x + sum n (λ j. t j * row j)) (sum_regroup n n1 row g l))

  -- H · (L⊤ · v_enc) + S · v_enc
  mask_side :
      sum n (λ j. mask_at j * v_enc j)
      ≡ sum n1 (λ k. h k * sum n (λ j. v_enc j * l j k)) + sum n (λ j. s j * v_enc j)
  mask_side =
      sum_congr n _ (λ j. sum n1 (λ k. h k * l j k) * v_enc j + s j * v_enc j)
        (λ j hj. add-mul (sum n1 (λ k. h k * l j k)) (s j) (v_enc j))
      ∙ sum-add n (λ j. sum n1 (λ k. h k * l j k) * v_enc j) (λ j. s j * v_enc j)
      ∙ ap (λ (x : ℕ). x + sum n (λ j. s j * v_enc j)) (sum_exchange n n1 h v_enc l)

  -- What the server returns for one row, modulo p, is the score plus the two corrections.
  pub response_split :
      ((j : ℕ) → j < n → enc j ≡ (row j + mask_at j) % field_p)
      → ((j : ℕ) → j < n → v_enc j ≡ (v j + shift_at j) % field_p)
      → sum n (λ j. enc j * v_enc j) % field_p
        ≡ (sum n (λ j. row j * v j)
            + (sum n1 (λ k. sum n (λ j. row j * l j k) * g k) + sum n (λ j. t j * row j))
            + (sum n1 (λ k. h k * sum n (λ j. v_enc j * l j k)) + sum n (λ j. s j * v_enc j)))
          % field_p
  response_split enc_eq v_eq =
      sum_congr_mod field_p n _ (λ j. (row j + mask_at j) * v_enc j)
        (λ j hj.
          mul_congr_mod field_p (enc j) (row j + mask_at j) (v_enc j)
            (ap (λ (x : ℕ). x % field_p) (enc_eq j hj) ∙ mod-mod _ field_p))
      ∙ ap (λ (x : ℕ). x % field_p)
          (sum_congr n _ (λ j. row j * v_enc j + mask_at j * v_enc j)
              (λ j hj. add-mul (row j) (mask_at j) (v_enc j))
            ∙ sum-add n (λ j. row j * v_enc j) (λ j. mask_at j * v_enc j))
      ∙ add_congr_mod field_p _ _ _ _
          (sum_congr_mod field_p n _ (λ j. row j * (v j + shift_at j))
              (λ j hj.
                mul_congr_mod_right field_p (v_enc j) (v j + shift_at j) (row j)
                  (ap (λ (x : ℕ). x % field_p) (v_eq j hj) ∙ mod-mod _ field_p))
            ∙ ap (λ (x : ℕ). x % field_p) query_side)
          (ap (λ (x : ℕ). x % field_p) mask_side)
