-- ===== src/Tiptoe/SimplePir/Recover.antt =====
-- The client recovers the product of the database by the query.
use native.Mathlib.Nat.{mod-lt, mod-mod, div-add-mod, mul_assoc, mul-add, mul-add-mod_self_left}
use secure_vector_search.Prelude.{
  sum_exchange, ℕ, ◌+◌, ◌*◌, ◌/◌, ◌%◌, ◌^◌, ◌<◌, ◌≡◌, ap, ap₂, ◌∙◌, sym, arith, ◌==◌, true, sum,
  sum_congr, sum_congr_mod, sum-add, mul-sum, mul_congr_mod, mul_congr_mod_right, List, length, nth,
  get_elem?-eq-get_or, some, ◌>>=◌, slice, collect-tabulate, tabulate, grid, length-grid,
  get_or-grid, length-tabulate, get_or-tabulate, wrapping_sub64,
}
use secure_vector_search.Tiptoe.Lwe.{
  Params, plaintext_modulus, delta, a_s_entry, wrapping_dot, compute_a_s, decrypt_entry,
  decrypt_vec,
}
use secure_vector_search.Tiptoe.Lwe.Round.{
  IsValid, IsSmall, round_lem, step_times_modulus, plaintext_modulus-pos,
}
use secure_vector_search.Tiptoe.Lwe.Decrypt
use secure_vector_search.Tiptoe.Lwe.Decrypt.{a_s_entry_lem, compute_a_s-eq-sums}
use secure_vector_search.Tiptoe.SimplePir.{PirSetup, answer_row, server_answer, client_recover}
use secure_vector_search.Tiptoe.SimplePir.Hint.{product_entry}

-- A step times a number depends on the number modulo the plaintext modulus.
step_mod : (d p w s : ℕ) → d * p ≡ w → d * s % w ≡ d * (s % p) % w
step_mod d p w s e =
    let split : d * s ≡ w * (s / p) + d * (s % p) =
      ap (λ (t : ℕ). d * t) (sym (div-add-mod s p))
      ∙ mul-add d (p * (s / p)) (s % p)
      ∙ ap (λ (t : ℕ). t + d * (s % p))
          (sym (mul_assoc d p (s / p)) ∙ ap (λ (t : ℕ). t * (s / p)) e) in
    ap (λ (t : ℕ). t % w) split ∙ mul-add-mod_self_left w (s / p) (d * (s % p))

expand_term : (x s e d q : ℕ) → x * (s + (e + d * q)) ≡ x * s + (x * e + d * (x * q))
expand_term x s e d q = omega arith

-- What is left of the answer when the masks are taken off.
unmasked :
    (masks errors message step ans hint : ℕ)
    → ans % 2 ^ 64 ≡ (masks + (errors + message)) % 2 ^ 64
    → hint ≡ masks % 2 ^ 64
    → ans < 2 ^ 64
    → message % 2 ^ 64 ≡ step % 2 ^ 64
    → wrapping_sub64 ans hint ≡ (step + errors % 2 ^ 64) % 2 ^ 64
unmasked masks errors message step ans hint ea eh small em = omega arith

-- A ciphertext of `query` under the matrix `a`, the secret and the noise.
pub record IsCiphertext (params : Params) (a secret query noise : List ℕ) (c n : ℕ) (ct : List ℕ)
    : Type 0 where
  pub width : length ct ≡ c
  pub value :
      (j : ℕ)
      → j < c
      → nth ct j % 2 ^ 64
        ≡ (sum n (λ k. nth secret k * nth a (j * n + k))
            + (nth noise j + delta params * (nth query j % plaintext_modulus params)))
          % 2 ^ 64

module _ (params : Params) (valid : IsValid params) (db a secret query noise ct : List ℕ)
    (r c n : ℕ) (db_shape : length db ≡ r * c) (a_shape : length a ≡ c * n)
    (secret_len : length secret ≡ n)
    (cipher : IsCiphertext params a secret query noise c n ct) where
  abbrev entry : ℕ → ℕ → ℕ
  entry i j = nth db (i * c + j)

  abbrev errors : ℕ → ℕ
  errors i = sum c (λ j. entry i j * nth noise j)

  abbrev target : ℕ → ℕ
  target i = sum c (λ j. entry i j * nth query j)

  abbrev masks : ℕ → ℕ
  masks i = sum c (λ j. entry i j * sum n (λ k. nth secret k * nth a (j * n + k)))

  abbrev reduced : ℕ → ℕ
  reduced i = sum c (λ j. entry i j * (nth query j % plaintext_modulus params))

  expand_row :
      (i : ℕ)
      → sum c (λ j.
        entry i j
        * (sum n (λ k. nth secret k * nth a (j * n + k))
            + (nth noise j + delta params * (nth query j % plaintext_modulus params))))
        ≡ masks i + (errors i + delta params * reduced i)
  expand_row i =
      sum_congr c _
        (λ j.
          entry i j * sum n (λ k. nth secret k * nth a (j * n + k))
          + (entry i j * nth noise j
              + delta params * (entry i j * (nth query j % plaintext_modulus params))))
        (λ j hj.
          expand_term (entry i j) (sum n (λ k. nth secret k * nth a (j * n + k))) (nth noise j)
            (delta params) (nth query j % plaintext_modulus params))
      ∙ sum-add c (λ j. entry i j * sum n (λ k. nth secret k * nth a (j * n + k)))
          (λ j.
            entry i j * nth noise j
            + delta params * (entry i j * (nth query j % plaintext_modulus params)))
      ∙ ap (λ (t : ℕ). masks i + t)
          (sum-add c (λ j. entry i j * nth noise j)
              (λ j. delta params * (entry i j * (nth query j % plaintext_modulus params)))
            ∙ ap (λ (t : ℕ). errors i + t)
                (sym (
                  mul-sum c (delta params)
                    (λ j. entry i j * (nth query j % plaintext_modulus params)))))

  answer_value :
      (i : ℕ)
      → sum c (λ j. entry i j * nth ct j) % 2 ^ 64
        ≡ (masks i + (errors i + delta params * reduced i)) % 2 ^ 64
  answer_value i =
      sum_congr_mod (2 ^ 64) c _ _
        (λ j hj. mul_congr_mod_right (2 ^ 64) (nth ct j) _ (entry i j) (cipher.value j hj))
      ∙ ap (λ (t : ℕ). t % 2 ^ 64) (expand_row i)

  message_value :
      (i : ℕ)
      → delta params * reduced i % 2 ^ 64
        ≡ delta params * (target i % plaintext_modulus params) % 2 ^ 64
  message_value i =
      step_mod (delta params) (plaintext_modulus params) (2 ^ 64) (reduced i)
        (step_times_modulus params valid)
      ∙ ap (λ (t : ℕ). delta params * t % 2 ^ 64)
          (sum_congr_mod (plaintext_modulus params) c _ _ (λ j hj.
            mul_congr_mod_right (plaintext_modulus params) (nth query j % plaintext_modulus params)
              (nth query j) (entry i j) (mod-mod (nth query j) (plaintext_modulus params))))

  abbrev hint : List ℕ
  hint = grid r n (product_entry db a r c n db_shape a_shape)

  hint_value :
      (i : ℕ) → i < r → sum n (λ k. nth hint (i * n + k) * nth secret k) % 2 ^ 64 ≡ masks i % 2 ^ 64
  hint_value i hi =
      sum_congr_mod (2 ^ 64) n _ (λ k. sum c (λ j. entry i j * nth a (j * n + k)) * nth secret k)
        (λ k hk.
          mul_congr_mod (2 ^ 64) (nth hint (i * n + k)) (sum c (λ j. entry i j * nth a (j * n + k)))
            (nth secret k)
            (ap (λ (t : ℕ). t % 2 ^ 64)
                (get_or-grid r n (product_entry db a r c n db_shape a_shape) i k 0 hi hk)
              ∙ mod-mod (sum c (λ j. entry i j * nth a (j * n + k))) (2 ^ 64)))
      ∙ ap (λ (t : ℕ). t % 2 ^ 64)
          (sum_exchange n c (entry i) (nth secret) (λ k j. nth a (j * n + k)))

  answer_row_lem :
      (i : ℕ) → i < r → answer_row db c ct i ≡ some (sum c (λ j. entry i j * nth ct j) % 2 ^ 64)
  unfolding answer_row a_s_entry
  answer_row_lem i hi =
      ap (λ (w : ℕ). slice db (i * w) ((i + 1) * w) >>= λ row. wrapping_dot row ct)
        (sym cipher.width)
      ∙ a_s_entry_lem db ct r (db_shape ∙ ap (λ (w : ℕ). r * w) (sym cipher.width)) i hi
      ∙ ap (λ (w : ℕ). some (sum w (λ j. nth db (i * w + j) * nth ct j) % 2 ^ 64)) cipher.width

  abbrev answer : ℕ → ℕ
  answer i = sum c (λ j. entry i j * nth ct j) % 2 ^ 64

  hint_shape : length hint ≡ r * length secret
  hint_shape =
      length-grid r n (product_entry db a r c n db_shape a_shape)
      ∙ ap (λ (w : ℕ). r * w) (sym secret_len)

  abbrev unmask : ℕ → ℕ
  unmask = Decrypt.product_entry hint secret r hint_shape

  unmask_value : (i : ℕ) → i < r → unmask i ≡ masks i % 2 ^ 64
  unmask_value i hi =
      ap (λ (w : ℕ). sum w (λ k. nth hint (i * w + k) * nth secret k) % 2 ^ 64) secret_len
      ∙ hint_value i hi

  -- The server's answer is the exact product of the database by the ciphertext modulo 2^64.
  pub server_answer-eq-sums : server_answer db r c ct ≡ some (tabulate r answer)
  unfolding server_answer
  server_answer-eq-sums =
      let db_ok : (length db == r * c) ≡ true = ground (arith, db_shape) in
      let ct_ok : (length ct == c) ≡ true = ground (arith, cipher.width) in
      rw (db_ok, ct_ok) (collect-tabulate r (answer_row db c ct) answer answer_row_lem)

  module _
      (small : (i : ℕ)
        → i < r
        → IsSmall (delta params) (sum c (λ j. nth db (i * c + j) * nth noise j) % 2 ^ 64))
      (setup : PirSetup) (has_hint : setup.hint ≡ hint) (has_r : setup.r ≡ r)
      (has_n : setup.n ≡ n) where
    recover_entry :
        (i : ℕ)
        → i < r
        → decrypt_entry params (tabulate r answer) (tabulate r unmask) i
          ≡ some (target i % plaintext_modulus params)
    unfolding decrypt_entry
    recover_entry i hi =
        let a_i = get_or-tabulate r answer i 0 hi in
        let h_i = get_or-tabulate r unmask i 0 hi in
        let x = wrapping_sub64 (nth (tabulate r answer) i) (nth (tabulate r unmask) i) in
        rw
          (
            get_elem?-eq-get_or (tabulate r answer) i 0 (omega (arith, length-tabulate r answer)),
            get_elem?-eq-get_or (tabulate r unmask) i 0 (omega (arith, length-tabulate r unmask)),
          )
          (ap some (
            round_lem params (target i % plaintext_modulus params) (errors i % 2 ^ 64) x valid
              (mod-lt (target i) {m = plaintext_modulus params} (plaintext_modulus-pos params))
              (small i hi)
              (unmasked (masks i) (errors i) (delta params * reduced i)
                (delta params * (target i % plaintext_modulus params)) (nth (tabulate r answer) i)
                (nth (tabulate r unmask) i)
                (ap (λ (t : ℕ). t % 2 ^ 64) a_i
                  ∙ mod-mod (sum c (λ j. entry i j * nth ct j)) (2 ^ 64)
                  ∙ answer_value i)
                (h_i ∙ unmask_value i hi) (omega (arith, a_i)) (message_value i))))

    -- With the hint of the preprocessing, the client recovers from the server's answer the product
    -- of the database by the query, modulo the plaintext modulus, when the noise that each row
    -- gathers is less than half a step.
    pub client_recover-server_answer :
        (server_answer db r c ct >>= λ ans. client_recover params ans setup secret)
        ≡ some (
            tabulate r
              (λ i. sum c (λ j. nth db (i * c + j) * nth query j) % plaintext_modulus params))
    unfolding client_recover decrypt_vec
    client_recover-server_answer =
        let len = length-tabulate r answer in
        let ans_ok : (length (tabulate r answer) == setup.r) ≡ true = ground (arith, len, has_r) in
        let secret_ok : (length secret == setup.n) ≡ true = ground (arith, secret_len, has_n) in
        let same : (length (tabulate r answer) == length (tabulate r unmask)) ≡ true =
          ground (arith, len, length-tabulate r unmask) in
        let h_s : compute_a_s setup.hint secret setup.r ≡ some (tabulate r unmask) =
          ap₂ (λ (h : List ℕ) (k : ℕ). compute_a_s h secret k) has_hint has_r
          ∙ compute_a_s-eq-sums hint secret r hint_shape in
        rw (server_answer-eq-sums, ans_ok, secret_ok, h_s, same, len)
          (collect-tabulate r (decrypt_entry params (tabulate r answer) (tabulate r unmask))
            (λ i. target i % plaintext_modulus params) recover_entry)
