-- ===== src/Bntm/Sampling/Shape.antt =====
-- The sampler of field elements returns reduced elements, as many as are asked for.
use secure_vector_search.Prelude.{
  ℕ, zero, suc, ◌≤◌, ◌<◌, ◌≡◌, ◌≢◌, refl, arith, bit_and, bit_and_mask, Bool-cases, inl, inr, ltb,
  ◌==◌, true, List, [], ◌∷◌, ◌++◌, length, nth, length-append, get_or-append_left,
  get_or-append_last, get_or_beyond, some, ◌>>=◌, for_loop_inv,
}
use secure_vector_search.Rng.{Rng, skip_u64}
use secure_vector_search.Bntm.Field.{field_p, IsField}
use secure_vector_search.Bntm.Sampling.{sample_fp, sample_fps}

module _ (g : Rng) where
  open g use {State, next_u64}

  -- From every state one of the next `fuel` draws differs from p in its low 61 bits.
  abbrev pub Accepts : ℕ → Type 0
  Accepts fuel =
      (s : State) → (n : ℕ) × (n < fuel) × (bit_and (next_u64 (skip_u64 g n s)).0 field_p ≢ field_p)

  low61-le : (x : ℕ) → bit_and x field_p ≤ field_p
  low61-le x = omega (arith, bit_and_mask 61 x)

  -- A draw is accepted in time, and is reduced.
  sample_fp_lem :
      (fuel n : ℕ) (s : State)
      → n < fuel
      → bit_and (next_u64 (skip_u64 g n s)).0 field_p ≢ field_p
      → (r : ℕ × State) × (sample_fp g fuel s ≡ some r) × (r.0 < field_p)
  unfolding sample_fp skip_u64
  sample_fp_lem zero n s h ne = absurd (omega arith)
  sample_fp_lem (suc fuel) zero s h ne =
      let e : ltb (bit_and (next_u64 s).0 field_p) field_p ≡ true =
        ground (arith, low61-le (next_u64 s).0) in
      ((bit_and (next_u64 s).0 field_p, (next_u64 s).1), rw e, ground arith)
  sample_fp_lem (suc fuel) (suc n) s h ne =
      elim (Bool-cases (ltb (bit_and (next_u64 s).0 field_p) field_p)) [
        | inl e ↦ ((bit_and (next_u64 s).0 field_p, (next_u64 s).1), rw e, ground arith)
        | inr e ↦ rw e (sample_fp_lem fuel n (next_u64 s).1 (omega arith) ne)
      ]

  -- The first `i` elements of a vector of samples.
  record AreSamples (i : ℕ) (v : List ℕ × State) : Type 0 where
    size : length v.0 ≡ i
    reduced : IsField v.0

  AreSamples-push :
      (i : ℕ) (xs : List ℕ) (x : ℕ) (s s' : State)
      → x < field_p
      → AreSamples i (xs, s)
      → AreSamples (suc i) (xs ++ x ∷ [], s')
  AreSamples-push i xs x s s' hx a = record {
    size = omega (arith, length-append xs (x ∷ []), a.size);
    reduced = λ j. at_index j;
  }
    where
      at_index : (j : ℕ) → nth (xs ++ x ∷ []) j < field_p
      at_index j = elim (Bool-cases (ltb j (length xs))) [
        | inl e ↦ rw (get_or-append_left xs (x ∷ []) j 0 (ground arith)) (a.reduced j)
        | inr e ↦ elim (Bool-cases (j == length xs)) [
          | inl e' ↦ rw (get_or-append_last xs x 0 j (ground arith)) hx
          | inr e' ↦
              rw (get_or_beyond (xs ++ x ∷ []) j 0 (ground (arith, length-append xs (x ∷ []))))
                (omega arith)
        ]
      ]

  -- A vector of samples has its length and reduced entries.
  pub sample_fps_lem :
      (fuel count : ℕ) (s : State)
      → Accepts fuel
      → (r : List ℕ × State) × (sample_fps g fuel count s ≡ some r)
        × (length r.0 ≡ count)
        × IsField r.0
  unfolding sample_fps
  sample_fps_lem fuel count s accepts =
      let (r, run, a) =
        for_loop_inv AreSamples (λ i v. sample_fp g fuel v.1 >>= λ d. some (v.0 ++ d.0 ∷ [], d.1))
          count
          (λ i v hi a.
            let (n, hn, ne) = accepts v.1 in
            let (d, run, hd) = sample_fp_lem fuel n v.1 hn ne in
            ((v.0 ++ d.0 ∷ [], d.1), rw run, AreSamples-push i v.0 d.0 v.1 d.1 hd a))
          ([], s) (record { size = refl; reduced = λ j. omega arith }) in
      (r, run, a.size, a.reduced)
