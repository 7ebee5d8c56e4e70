-- ===== src/Tiptoe/Lwe/Decrypt.antt =====
-- Decryption undoes encryption, under a bound on the noise.
use native.Mathlib.Nat.{mod-lt}
use secure_vector_search.Prelude.{
  row_inside, ℕ, ◌+◌, ◌*◌, ◌%◌, ◌^◌, min, ◌≤◌, ◌<◌, ◌≡◌, refl, ap, ◌∙◌, arith, ◌==◌, true, sum,
  sum_congr, List, length, nth, get_elem?-eq-get_or, some, for_loop_inv, collect-tabulate, tabulate,
  length-tabulate, get_or-tabulate, take, drop, slice_lem, get_or-take-drop, length-take-drop,
  wrapping_add64, wrapping_sub64, wrapping_mul64,
}
use secure_vector_search.Tiptoe.Lwe.{
  Params, plaintext_modulus, delta, dot_step, wrapping_dot, a_s_entry, compute_a_s, encrypt_message,
  encrypt_vec, decrypt_entry, decrypt_vec,
}
use secure_vector_search.Tiptoe.Lwe.Round.{IsValid, IsSmall, round_lem, plaintext_modulus-pos}

-- The wrapping dot product is the exact one modulo 2^64.
pub wrapping_dot-eq-sum :
    (row secret : List ℕ)
    → wrapping_dot row secret
      ≡ some (sum (min (length row) (length secret)) (λ j. nth row j * nth secret j) % 2 ^ 64)
unfolding wrapping_dot dot_step sum
wrapping_dot-eq-sum row secret =
    let (acc, run, inv) =
      for_loop_inv (λ j acc. acc ≡ sum j (λ j. nth row j * nth secret j) % 2 ^ 64)
        (dot_step row secret) (min (length row) (length secret))
        (λ j acc hj inv. (
          wrapping_add64 acc (wrapping_mul64 (nth row j) (nth secret j)),
          rw
              (
                get_elem?-eq-get_or row j 0 (omega arith),
                get_elem?-eq-get_or secret j 0 (omega arith),
              )
              refl,
          omega (arith, inv),
        ))
        0 refl in
    rw run (ap some inv)

module _ (a secret : List ℕ) (m : ℕ) (shape : length a ≡ m * length secret) where
  -- Entry `i` of A · s.
  abbrev pub product_entry : ℕ → ℕ
  product_entry i = sum (length secret) (λ j. nth a (i * length secret + j) * nth secret j) % 2 ^ 64

  pub a_s_entry_lem : (i : ℕ) → i < m → a_s_entry a secret i ≡ some (product_entry i)
  unfolding a_s_entry
  a_s_entry_lem i hi =
      let n = length secret in
      let inside : i * n + n ≤ length a = omega (arith, row_inside i n m hi, shape) in
      let row = take n (drop (i * n) a) in
      let len : length row ≡ n = length-take-drop a (i * n) n inside in
      rw
        (
          slice_lem a (i * n) ((i + 1) * n) n (omega arith) (omega (arith, inside)),
          wrapping_dot-eq-sum row secret,
        )
        (ap some (
          ap (λ (k : ℕ). sum k (λ j. nth row j * nth secret j) % 2 ^ 64) {x = min (length row) n}
            {y = n} (omega (arith, len))
          ∙ ap (λ (t : ℕ). t % 2 ^ 64)
              (sum_congr n (λ j. nth row j * nth secret j) (λ j. nth a (i * n + j) * nth secret j)
                (λ j hj. ap (λ (t : ℕ). t * nth secret j) (get_or-take-drop a (i * n) n j 0 hj)))))

  -- The hint of the server is the exact product modulo 2^64.
  pub compute_a_s-eq-sums : compute_a_s a secret m ≡ some (tabulate m product_entry)
  unfolding compute_a_s
  compute_a_s-eq-sums =
      let same : (length a == m * length secret) ≡ true = ground (arith, shape) in
      rw (same, collect-tabulate m (a_s_entry a secret) product_entry a_s_entry_lem) refl

module _ (params : Params) (a secret msg noise : List ℕ) (valid : IsValid params)
    (shape : length a ≡ length msg * length secret) (drawn : length noise ≡ length msg)
    (small : (i : ℕ) → i < length msg → IsSmall (delta params) (nth noise i)) where
  abbrev hint : List ℕ
  hint = tabulate (length msg) (product_entry a secret (length msg) shape)

  abbrev ciphertext_entry : ℕ → ℕ
  ciphertext_entry i =
      wrapping_add64 (wrapping_add64 (nth hint i) (nth noise i))
        (wrapping_mul64 (delta params) (nth msg i % plaintext_modulus params))

  hint-lt : (i : ℕ) → i < length msg → nth hint i < 2 ^ 64
  hint-lt i hi =
      omega (arith, get_or-tabulate (length msg) (product_entry a secret (length msg) shape) i 0 hi)

  encrypt_message_lem :
      (i : ℕ) → i < length msg → encrypt_message params msg noise hint i ≡ some (ciphertext_entry i)
  unfolding encrypt_message
  encrypt_message_lem i hi =
      rw
        (
          get_elem?-eq-get_or hint i 0 (
              omega
                (arith, length-tabulate (length msg) (product_entry a secret (length msg) shape))),
          get_elem?-eq-get_or noise i 0 (omega (arith, drawn)),
          get_elem?-eq-get_or msg i 0 hi,
        )
        refl

  encrypt_run :
      encrypt_vec params secret msg a noise ≡ some (tabulate (length msg) ciphertext_entry)
  unfolding encrypt_vec
  encrypt_run =
      let same : (length a == length msg * length secret) ≡ true = ground (arith, shape) in
      rw (same, compute_a_s-eq-sums a secret (length msg) shape)
        (collect-tabulate (length msg) (encrypt_message params msg noise hint) ciphertext_entry
          encrypt_message_lem)

  decrypt_entry_lem :
      (i : ℕ)
      → i < length msg
      → decrypt_entry params (tabulate (length msg) ciphertext_entry) hint i
        ≡ some (nth msg i % plaintext_modulus params)
  unfolding decrypt_entry
  decrypt_entry_lem i hi =
      let ct = tabulate (length msg) ciphertext_entry in
      let value = get_or-tabulate (length msg) ciphertext_entry i 0 hi in
      let low = hint-lt i hi in
      rw
        (
          get_elem?-eq-get_or ct i 0 (omega (arith, length-tabulate (length msg) ciphertext_entry)),
          get_elem?-eq-get_or hint i 0 (
              omega
                (arith, length-tabulate (length msg) (product_entry a secret (length msg) shape))),
        )
        (ap some (
          round_lem params (nth msg i % plaintext_modulus params) (nth noise i)
            (wrapping_sub64 (nth ct i) (nth hint i)) valid
            (mod-lt (nth msg i) {m = plaintext_modulus params} (plaintext_modulus-pos params))
            (small i hi) (omega (arith, value, low))))

  -- Encryption and the hint both succeed, and decryption with the hint returns each message modulo
  -- the plaintext modulus, when each noise is less than half a step.
  pub decrypt-encrypt :
      (a_s ct : List ℕ) × (compute_a_s a secret (length msg) ≡ some a_s)
      × (encrypt_vec params secret msg a noise ≡ some ct)
      × (decrypt_vec params ct a_s
          ≡ some (tabulate (length msg) (λ i. nth msg i % plaintext_modulus params)))
  unfolding decrypt_vec
  decrypt-encrypt =
      let ct = tabulate (length msg) ciphertext_entry in
      let len = length-tabulate (length msg) ciphertext_entry in
      let same : (length ct == length hint) ≡ true =
        ground
          (arith, len, length-tabulate (length msg) (product_entry a secret (length msg) shape)) in
      (
        hint,
        ct,
        compute_a_s-eq-sums a secret (length msg) shape,
        encrypt_run,
        rw (same, len)
            (collect-tabulate (length msg) (decrypt_entry params ct hint)
              (λ i. nth msg i % plaintext_modulus params) decrypt_entry_lem),
      )
