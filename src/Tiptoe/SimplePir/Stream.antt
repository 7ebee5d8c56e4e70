-- ===== src/Tiptoe/SimplePir/Stream.antt =====
-- The stream of the generator: what is drawn from a position, and what a worker draws after a seek.
use secure_vector_search.Prelude.{
  ℕ, zero, suc, ◌+◌, ◌*◌, ◌≡◌, refl, ap, ap₂, sym, ◌∙◌, arith, List, [], ◌∷◌, ◌++◌, some, for_loop,
  for_loop_inv, tabulate,
}
use secure_vector_search.Rng.{Rng, skip_u64}
use secure_vector_search.Tiptoe.SimplePir.{expand_step, expand_a}

module _ (g : Rng) where
  open g use {State, from_seed, next_u64}

  skip-suc : (n : ℕ) (s : State) → skip_u64 g (suc n) s ≡ (next_u64 (skip_u64 g n s)).1
  unfolding skip_u64
  skip-suc zero s = refl
  skip-suc (suc n) s = skip-suc n (next_u64 s).1

  pub skip-skip : (n k : ℕ) (s : State) → skip_u64 g n (skip_u64 g k s) ≡ skip_u64 g (k + n) s
  unfolding skip_u64
  skip-skip n zero s = ap (λ (m : ℕ). skip_u64 g m s) {x = n} {y = 0 + n} (omega arith)
  skip-skip n (suc k) s =
      skip-skip n k (next_u64 s).1
      ∙ ap (λ (m : ℕ). skip_u64 g m s) {x = suc (k + n)} {y = suc k + n} (omega arith)

  -- The number at position `i` of the stream from `s`.
  abbrev pub draw : State → ℕ → ℕ
  draw s i = (next_u64 (skip_u64 g i s)).0

  -- Filling a buffer of `n` numbers takes the next `n` of the stream.
  pub fill_lem :
      (n : ℕ) (s : State)
      → for_loop n (expand_step g) ([], s) ≡ some (tabulate n (draw s), skip_u64 g n s)
  unfolding tabulate skip_u64
  fill_lem n s =
      let (v, run, (values, state)) =
        for_loop_inv (λ i v. (v.0 ≡ tabulate i (draw s)) × (v.1 ≡ skip_u64 g i s)) (expand_step g) n
          (λ i v hi (h0, h1). (
            (v.0 ++ (next_u64 v.1).0 ∷ [], (next_u64 v.1).1),
            refl,
            (
              ap₂ (λ (xs : List ℕ) (t : State). xs ++ (next_u64 t).0 ∷ []) h0 h1,
              ap (λ (t : State). (next_u64 t).1) h1 ∙ sym (skip-suc i s),
            ),
          ))
          ([], s) (refl, refl) in
      run ∙ ap₂ (λ (xs : List ℕ) (t : State). some (xs, t)) values state

  pub expand_draws :
      (seed : List ℕ) (c n : ℕ)
      → expand_a g seed c n ≡ some (tabulate (c * n) (draw (from_seed seed)))
  unfolding expand_a
  expand_draws seed c n = rw (fill_lem (c * n) (from_seed seed)) refl
