-- ===== src/Tiptoe/SimplePir/Encrypt.antt =====
-- The streaming encryption is the encryption under the public matrix that the seed expands to,
-- whatever the number of threads.
use native.Mathlib.Nat.{div-add-mod, mod-lt, suc-mul, mul_comm}
use Prim.Native.Nat.{max}
use secure_vector_search.Prelude.{
  ℕ, zero, suc, ◌+◌, ◌-◌, ◌*◌, ◌/◌, ◌%◌, ◌^◌, min, ◌≤◌, ◌<◌, ◌≡◌, refl, ap, ap₂, sym, ◌∙◌, arith,
  ◌==◌, leb, true, Bool-cases, inl, inr, List, [], ◌∷◌, ◌++◌, length, nth, get_elem?-eq-get_or,
  Option, some, row_inside, for_loop, for_loop_inv, collect-tabulate, collect_flat, tabulate,
  length-tabulate, get_or-tabulate, sum, sum_congr,
}
use mathlib.Core.List.{append_assoc, append-nil}
use secure_vector_search.Rng.{Rng, skip_u64}
use secure_vector_search.Tiptoe.Lwe.{
  Params, plaintext_modulus, delta, wrapping_dot, encrypt_message,
}
use secure_vector_search.Tiptoe.Lwe.Decrypt.{wrapping_dot-eq-sum}
use secure_vector_search.Tiptoe.SimplePir.{
  PirSetup, div_ceil, mask_row, mask_chunk, encrypt_lhe, expand_a,
}
use secure_vector_search.Tiptoe.SimplePir.Recover.{IsCiphertext}
use secure_vector_search.Tiptoe.SimplePir.Stream.{draw, fill_lem, skip-skip, expand_draws}

pub tabulate-append :
    {A : Type 0} (a b : ℕ) (f : ℕ → A)
    → tabulate a f ++ tabulate b (λ j. f (a + j)) ≡ tabulate (a + b) f
unfolding tabulate
tabulate-append a zero f =
    append-nil (tabulate a f) ∙ ap (λ (n : ℕ). tabulate n f) {x = a} {y = a + 0} (omega arith)
tabulate-append a (suc b) f =
    sym (append_assoc (tabulate a f) (tabulate b (λ j. f (a + j))) (f (a + b) ∷ []))
    ∙ ap (λ xs. xs ++ f (a + b) ∷ []) (tabulate-append a b f)
    ∙ ap (λ (n : ℕ). tabulate n f) {x = suc (a + b)} {y = a + suc b} (omega arith)

-- The chunks of `size` rows out of `c`, one after the other, are all rows.
chunks_lem :
    {A : Type 0} (m size c : ℕ) (chunk : ℕ → Option (List A)) (f : ℕ → A)
    → ((i : ℕ) → chunk i ≡ some (tabulate (min size (c - i * size)) (λ j. f (i * size + j))))
    → collect_flat m chunk ≡ some (tabulate (min c (m * size)) f)
unfolding collect_flat tabulate
chunks_lem zero size c chunk f h =
    ap (λ (n : ℕ). some (tabulate n f)) {x = 0} {y = min c (0 * size)} (omega arith)
chunks_lem (suc m) size c chunk f h =
    rw (chunks_lem m size c chunk f h, h m)
      (ap some (elim (Bool-cases (leb (m * size) c)) [
        | inl inside ↦
            ap
              (λ (n : ℕ).
                tabulate n f ++ tabulate (min size (c - m * size)) (λ j. f (m * size + j)))
              {x = min c (m * size)} {y = m * size} (ground arith)
            ∙ tabulate-append (m * size) (min size (c - m * size)) f
            ∙ ap (λ (n : ℕ). tabulate n f) {x = m * size + min size (c - m * size)}
                {y = min c (suc m * size)} (ground (arith, suc-mul m size))
        | inr beyond ↦
            ap (λ (n : ℕ). tabulate (min c (m * size)) f ++ tabulate n (λ j. f (m * size + j)))
              {x = min size (c - m * size)} {y = 0} (ground arith)
            ∙ append-nil (tabulate (min c (m * size)) f)
            ∙ ap (λ (n : ℕ). tabulate n f) {x = min c (m * size)} {y = min c (suc m * size)}
                (ground (arith, suc-mul m size))
      ]))

-- Enough chunks: `c.div_ceil(size)` chunks of `size` cover `c`.
covered : (c size : ℕ) → 0 < size → c ≤ div_ceil c size * size
covered c size h = omega (
  arith,
  div-add-mod (c + size - 1) size,
  mod-lt (c + size - 1) {m = size} h,
  mul_comm size ((c + size - 1) / size),
)

module _ (g : Rng) (set_word_pos : g.State → ℕ → g.State) where
  open g use {State, from_seed, next_u64}

  -- Seeking to word 2 k of a fresh generator is drawing k numbers of 64 bits.
  abbrev pub Seeks : Type 0
  Seeks =
      (seed : List ℕ) (k : ℕ)
      → set_word_pos (from_seed seed) (k * 2) ≡ skip_u64 g k (from_seed seed)

  module _ (seed secret : List ℕ) (n : ℕ) (secret_len : length secret ≡ n) where
    abbrev pub public : ℕ → ℕ
    public = draw g (from_seed seed)

    -- Row `i` of A · s.
    abbrev pub mask : ℕ → ℕ
    mask i = sum n (λ k. public (i * n + k) * nth secret k) % 2 ^ 64

    row_lem :
        (r : ℕ)
        → wrapping_dot (tabulate n (draw g (skip_u64 g (r * n) (from_seed seed)))) secret
          ≡ some (mask r)
    row_lem r =
        let s = skip_u64 g (r * n) (from_seed seed) in
        wrapping_dot-eq-sum (tabulate n (draw g s)) secret
        ∙ ap (λ (m : ℕ). some (sum m (λ j. nth (tabulate n (draw g s)) j * nth secret j) % 2 ^ 64))
            (omega (arith, length-tabulate n (draw g s), secret_len))
        ∙ ap (λ (t : ℕ). some (t % 2 ^ 64))
            (sum_congr n _ _ (λ j hj.
              ap (λ (t : ℕ). t * nth secret j)
                (get_or-tabulate n (draw g s) j 0 hj
                  ∙ ap (λ (t : State). (next_u64 t).0) (skip-skip g j (r * n) (from_seed seed)))))

    rows_lem :
        (start rows : ℕ)
        → for_loop rows
            (mask_row g set_word_pos n secret)
            ([], skip_u64 g (start * n) (from_seed seed))
          ≡ some (
            tabulate rows (λ i. mask (start + i)),
            skip_u64 g ((start + rows) * n) (from_seed seed),
          )
    unfolding tabulate mask_row
    rows_lem start rows =
        let s0 = from_seed seed in
        let (v, run, (values, state)) =
          for_loop_inv
            (λ i v.
              (v.0 ≡ tabulate i (λ j. mask (start + j))) × (v.1 ≡ skip_u64 g ((start + i) * n) s0))
            (mask_row g set_word_pos n secret) rows
            (λ i v hi (h0, h1). (
              (v.0 ++ mask (start + i) ∷ [], skip_u64 g n v.1),
              rw (fill_lem g n v.1) (rw h1 (rw (row_lem (start + i)) refl)),
              (
                ap (λ xs. xs ++ mask (start + i) ∷ []) h0,
                ap (skip_u64 g n) h1
                    ∙ skip-skip g n ((start + i) * n) s0
                    ∙ ap (λ (m : ℕ). skip_u64 g m s0) (next i),
              ),
            ))
            ([], skip_u64 g (start * n) s0)
            (
              refl,
              ap (λ (m : ℕ). skip_u64 g (m * n) s0) {x = start} {y = start + 0} (omega arith),
            ) in
        run ∙ ap₂ (λ (xs : List ℕ) (t : State). some (xs, t)) values state
      where
        next : (i : ℕ) → (start + i) * n + n ≡ (start + suc i) * n
        next i =
            sym (suc-mul (start + i) n)
            ∙ ap (λ (m : ℕ). m * n) {x = suc (start + i)} {y = start + suc i} (omega arith)

    module _ (seeks : Seeks) (setup : PirSetup) (has_seed : setup.seed ≡ seed)
        (has_n : setup.n ≡ n) where
      chunk_lem :
          (chunk_rows i : ℕ)
          → mask_chunk g set_word_pos setup secret chunk_rows i
            ≡ some (
                tabulate
                  (min chunk_rows (setup.c - i * chunk_rows))
                  (λ j. mask (i * chunk_rows + j)))
      unfolding mask_chunk
      chunk_lem chunk_rows i =
          let start = i * chunk_rows in
          let there : set_word_pos (from_seed setup.seed) (start * setup.n * 2)
              ≡ skip_u64 g (start * n) (from_seed seed) =
            ap₂ (λ (sd : List ℕ) (m : ℕ). set_word_pos (from_seed sd) (start * m * 2)) has_seed
              has_n
            ∙ seeks seed (start * n) in
          rw (there, has_n, rows_lem start (min chunk_rows (setup.c - start))) refl

      abbrev pub cipher_entry : Params → List ℕ → List ℕ → ℕ → ℕ
      cipher_entry params query noise i =
          (mask i + nth noise i + delta params * (nth query i % plaintext_modulus params)) % 2 ^ 64

      masks_lem :
          (threads : ℕ)
          → collect_flat
              (div_ceil setup.c (max (div_ceil setup.c (max threads 1)) 1))
              (mask_chunk g set_word_pos setup secret (max (div_ceil setup.c (max threads 1)) 1))
            ≡ some (tabulate setup.c mask)
      masks_lem threads =
          let size = max (div_ceil setup.c (max threads 1)) 1 in
          chunks_lem (div_ceil setup.c size) size setup.c
            (mask_chunk g set_word_pos setup secret size) mask (chunk_lem size)
          ∙ ap (λ (m : ℕ). some (tabulate m mask)) {x = min setup.c (div_ceil setup.c size * size)}
              {y = setup.c} (omega (arith, covered setup.c size (omega arith)))

      entry_lem :
          (params : Params) (query noise : List ℕ) (i : ℕ)
          → length query ≡ setup.c
          → setup.c ≤ length noise
          → i < setup.c
          → encrypt_message params query noise (tabulate setup.c mask) i
            ≡ some (cipher_entry params query noise i)
      unfolding encrypt_message
      entry_lem params query noise i hq hn hi =
          rw
            (
              get_elem?-eq-get_or (tabulate setup.c mask) i 0
                  (omega (arith, length-tabulate setup.c mask)),
              get_elem?-eq-get_or noise i 0 (omega arith),
              get_elem?-eq-get_or query i 0 (omega arith),
              get_or-tabulate setup.c mask i 0 hi,
            )
            (ap some (omega arith))

      -- For every number of threads, on a query of the width of the database and a secret of the
      -- dimension of the lattice, and with noise for each entry, the streaming encryption succeeds and
      -- returns a ciphertext under the public matrix that the seed expands to.
      pub encrypt_lhe-IsCiphertext :
          (params : Params) (threads : ℕ) (query noise : List ℕ)
          → length query ≡ setup.c
          → setup.c ≤ length noise
          → (a ct : List ℕ) × (expand_a g seed setup.c n ≡ some a)
            × (encrypt_lhe g set_word_pos threads setup secret query params noise ≡ some ct)
            × IsCiphertext params a secret query noise setup.c n ct
      unfolding encrypt_lhe
      encrypt_lhe-IsCiphertext params threads query noise hq hn =
          let wide : (length query == setup.c) ≡ true = ground (arith, hq) in
          let deep : (length secret == setup.n) ≡ true = ground (arith, secret_len, has_n) in
          let c = setup.c in
          let a : List ℕ = tabulate (c * n) public in
          let value = cipher_entry params query noise in
          (
            a,
            tabulate c value,
            expand_draws g seed c n,
            rw (wide, deep, masks_lem threads)
                (collect-tabulate c (encrypt_message params query noise (tabulate c mask)) value
                  (λ i hi. entry_lem params query noise i hq hn hi)),
            record {
              width = length-tabulate c value;
              value = λ j hj.
                  ap (λ (t : ℕ). t % 2 ^ 64) (get_or-tabulate c value j 0 hj)
                  ∙ omega (
                    arith,
                    sum_congr n (λ k. public (j * n + k) * nth secret k)
                        (λ k. nth secret k * nth a (j * n + k))
                        (λ k hk.
                          mul_comm (public (j * n + k)) (nth secret k)
                          ∙ ap (λ (t : ℕ). nth secret k * t)
                              (sym (
                                get_or-tabulate (c * n) public (j * n + k) 0
                                  (omega (arith, row_inside j n c hj))))),
                  );
            },
          )
