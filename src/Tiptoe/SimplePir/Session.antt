-- ===== src/Tiptoe/SimplePir/Session.antt =====
-- One query: what the client encrypts, the server answers, and the client recovers.
use mathlib.Core.Option.{some-injective}
use secure_vector_search.Prelude.{
  Bool, false, none, if◌then◌else◌, ℕ, ◌+◌, ◌*◌, ◌%◌, ◌^◌, ◌≤◌, ◌<◌, ◌≡◌, refl, ap, sym, ◌∙◌, arith,
  subst, ◌==◌, true, List, length, nth, some, ◌>>=◌, collect-tabulate, tabulate, length-tabulate,
  get_or-tabulate, get_or_ext, get_elem?-eq-get_or, sum, grid, length-grid, zip_with,
  wrapping_sub64,
}
use secure_vector_search.Rng.{Rng}
use secure_vector_search.Ivf.Batch.Zip.{length-zip_with, get_or-zip_with}
use secure_vector_search.Tiptoe.Lwe.{
  Params, plaintext_modulus, delta, round, compute_a_s, decrypt_entry, decrypt_vec,
}
use secure_vector_search.Tiptoe.Lwe.Round.{IsValid, IsSmall}
use secure_vector_search.Tiptoe.Lwe.Decrypt
use secure_vector_search.Tiptoe.Lwe.Decrypt.{compute_a_s-eq-sums}
use secure_vector_search.Tiptoe.SimplePir.{
  PirSetup, expand_a, preprocess, encrypt_lhe, server_answer, client_recover,
}
use secure_vector_search.Tiptoe.SimplePir.Hint.{product_entry, preprocess_lem}
use secure_vector_search.Tiptoe.SimplePir.Recover.{
  IsCiphertext, server_answer-eq-sums, client_recover-server_answer,
}
use secure_vector_search.Tiptoe.SimplePir.Encrypt.{Seeks, encrypt_lhe-IsCiphertext}

-- `ans.iter().zip(h_s).map(|(a, h)| params.round(a.wrapping_sub(h)))`
abbrev pub decode_with : Params → List ℕ → List ℕ → List ℕ
decode_with params = zip_with (λ a h. round params (wrapping_sub64 a h))

-- Decryption with a mask of the same length is that.
decrypt_vec-eq-decode :
    (params : Params) (ct h : List ℕ)
    → length ct ≡ length h
    → decrypt_vec params ct h ≡ some (decode_with params ct h)
unfolding decrypt_vec decrypt_entry
decrypt_vec-eq-decode params ct h e =
    let same : (length ct == length h) ≡ true = ground (arith, e) in
    let entry = λ (i : ℕ). round params (wrapping_sub64 (nth ct i) (nth h i)) in
    let listed : tabulate (length ct) entry ≡ decode_with params ct h =
      get_or_ext 0 (tabulate (length ct) entry) (decode_with params ct h)
        (length-tabulate (length ct) entry
          ∙ e
          ∙ sym (length-zip_with (λ a b. round params (wrapping_sub64 a b)) ct h e))
        (λ i l.
          get_or-tabulate (length ct) entry i 0 (omega (arith, length-tabulate (length ct) entry))
          ∙ sym (
              get_or-zip_with (λ a b. round params (wrapping_sub64 a b)) ct h i 0 0 0 e
                (omega (arith, length-tabulate (length ct) entry)))) in
    rw same (
      collect-tabulate (length ct) (decrypt_entry params ct h) entry
        (λ i hi. rw (get_elem?-eq-get_or ct i 0 hi, get_elem?-eq-get_or h i 0 (omega arith)) refl)
      ∙ ap some listed)

if_some {ℓ} : {A : Type ℓ} (b : Bool) (x y : A) → (if b then none else some x) ≡ some y → x ≡ y
if_some true x y h = cc
if_some false x y h = some-injective x y h

-- The products of the rows of the database with the query, modulo the plaintext modulus.
abbrev pub products : Params → List ℕ → List ℕ → ℕ → ℕ → List ℕ
products params db query r c =
    tabulate r (λ i. sum c (λ j. nth db (i * c + j) * nth query j) % plaintext_modulus params)

module _ (g : Rng) (set_word_pos : g.State → ℕ → g.State) (seeks : Seeks g set_word_pos) where
  -- With the setup that preprocess returns, for every number of threads, on a query of the width of
  -- the database and a secret of the dimension of the lattice: encryption, answer and recovery all
  -- succeed, and the client recovers the product of the database by the query modulo the plaintext
  -- modulus, when the noise that each row gathers is less than half a step. So does rounding the
  -- answer less H · s, entry by entry.
  pub recover-encrypt_lhe :
      (params : Params) (threads r c : ℕ) (seed db secret query noise : List ℕ) (setup : PirSetup)
      → IsValid params
      → length db ≡ r * c
      → length secret ≡ params.n
      → length query ≡ c
      → c ≤ length noise
      → preprocess g db r c seed params ≡ some setup
      → ((i : ℕ)
          → i < r
          → IsSmall (delta params) (sum c (λ j. nth db (i * c + j) * nth noise j) % 2 ^ 64))
      → (ct ans h_s : List ℕ) × (encrypt_lhe g set_word_pos threads setup secret query params noise
          ≡ some ct)
        × (server_answer db r c ct ≡ some ans)
        × (client_recover params ans setup secret ≡ some (products params db query r c))
        × (compute_a_s setup.hint secret r ≡ some h_s)
        × (decode_with params ans h_s ≡ products params db query r c)
  unfolding client_recover
  recover-encrypt_lhe params threads r c seed db secret query noise setup valid hdb hs hq hn pre
        small =
      let n = params.n in
      let (a, a_shape, expanded, ready) = preprocess_lem g db r c seed params hdb in
      let hint = grid r n (product_entry db a r c n hdb a_shape) in
      let is_setup = if_some (params.n == 0) _ setup (sym ready ∙ pre) in
      let has_hint : setup.hint ≡ hint = sym (ap (λ (s : PirSetup). s.hint) is_setup) in
      let has_r : setup.r ≡ r = sym (ap (λ (s : PirSetup). s.r) is_setup) in
      let has_c : setup.c ≡ c = sym (ap (λ (s : PirSetup). s.c) is_setup) in
      let has_n : setup.n ≡ n = sym (ap (λ (s : PirSetup). s.n) is_setup) in
      let has_seed : setup.seed ≡ seed = sym (ap (λ (s : PirSetup). s.seed) is_setup) in
      let (a', ct, expanded', encrypted, cipher') =
        encrypt_lhe-IsCiphertext g set_word_pos seed secret n hs seeks setup has_seed has_n params
          threads query noise (hq ∙ sym has_c) (omega arith) in
      let same_a : a' ≡ a =
        some-injective a' a
          (sym expanded' ∙ ap (λ (k : ℕ). expand_a g seed k n) has_c ∙ expanded) in
      let cipher : IsCiphertext params a secret query noise c n ct =
        subst (λ (k : ℕ). IsCiphertext params a secret query noise k n ct) has_c
          (subst (λ (m : List ℕ). IsCiphertext params m secret query noise setup.c n ct) same_a
            cipher') in
      let answered =
        server_answer-eq-sums params valid db a secret query noise ct r c n hdb a_shape hs cipher in
      let ans : List ℕ = tabulate r (λ i. sum c (λ j. nth db (i * c + j) * nth ct j) % 2 ^ 64) in
      let hint_shape : length hint ≡ r * length secret =
        length-grid r n (product_entry db a r c n hdb a_shape) ∙ ap (λ (w : ℕ). r * w) (sym hs) in
      let h_s : List ℕ = tabulate r (Decrypt.product_entry hint secret r hint_shape) in
      let unmasked : compute_a_s setup.hint secret r ≡ some h_s =
        ap (λ (m : List ℕ). compute_a_s m secret r) has_hint
        ∙ compute_a_s-eq-sums hint secret r hint_shape in
      let recovered : client_recover params ans setup secret ≡ some (products params db query r c) =
        ap (λ o. o >>= λ xs. client_recover params xs setup secret) (sym answered)
        ∙ client_recover-server_answer params valid db a secret query noise ct r c n hdb a_shape hs
            cipher small setup has_hint has_r has_n in
      let ans_len : length ans ≡ r =
        length-tabulate r (λ i. sum c (λ j. nth db (i * c + j) * nth ct j) % 2 ^ 64) in
      let h_len : length h_s ≡ r =
        length-tabulate r (Decrypt.product_entry hint secret r hint_shape) in
      let direct : client_recover params ans setup secret ≡ some (decode_with params ans h_s) =
        let ans_ok : (length ans == setup.r) ≡ true = ground (arith, ans_len, has_r) in
        let secret_ok : (length secret == setup.n) ≡ true = ground (arith, hs, has_n) in
        rw (client_recover, ans_ok, secret_ok, ap (compute_a_s setup.hint secret) has_r ∙ unmasked)
          (decrypt_vec-eq-decode params ans h_s (ans_len ∙ sym h_len)) in
      (
        ct,
        ans,
        h_s,
        encrypted,
        answered,
        recovered,
        unmasked,
        some-injective _ _ (sym direct ∙ recovered),
      )
