-- ===== src/Bntm/Quantise/Vector.antt =====
-- A quantised vector, entry by entry.
use secure_vector_search.Prelude.{
  ℤ, pos, Bool-cases, ℕ, suc, ◌≤◌, ◌<◌, ◌≡◌, refl, ap, ◌∙◌, sym, arith, ltb, if◌then◌else◌, true,
  inl, inr, trichotomy, List, length, get_or, nth, set, replicate, some, for_loop_inv,
  get_elem?-eq-get_or, get_or-set, length-set, length-replicate, get_or-replicate, tabulate,
  get_or-tabulate, length-tabulate, get_or_ext,
}
use secure_vector_search.Float.{Float}
use secure_vector_search.Bntm.Quantise.{wrap_signed, quantise_entry, quantise_vector}

module _ (f : Float) where
  open f use {F32, F64, of_u64, of_f32, mul, round_i64}

  abbrev component : ℕ → F32 → ℕ
  component q x = wrap_signed (round_i64 (mul (of_f32 x) (of_u64 q)))

  -- Component `j` of a vector as an integer: scaled by `q` and rounded, and zero past the end. No
  -- value rests on the default `d`.
  abbrev pub scaled : List F32 → ℕ → F32 → ℕ → ℤ
  scaled v q d j =
      if ltb j (length v) then round_i64 (mul (of_f32 (get_or v j d)) (of_u64 q)) else pos 0

  wrap_scaled :
      (v : List F32) (q : ℕ) (d : F32) (j : ℕ)
      → (if ltb j (length v) then component q (get_or v j d) else 0) ≡ wrap_signed (scaled v q d j)
  unfolding wrap_signed
  wrap_scaled v q d j = elim (Bool-cases (ltb j (length v))) [
    | inl e ↦ rw e refl
    | inr e ↦ rw e refl
  ]

  module _ (v : List F32) (n q : ℕ) (d : F32) (fits : length v ≤ n) where
    record IsFilled (i : ℕ) (out : List ℕ) : Type 0 where
      size : length out ≡ n
      value : (k : ℕ) → nth out k ≡ (if ltb k i then component q (get_or v k d) else 0)

    IsFilled-set :
        (i : ℕ) (out : List ℕ)
        → i < length v
        → IsFilled i out
        → IsFilled (suc i) (set out i (component q (get_or v i d)))
    IsFilled-set i out hi a = record {
      size = length-set out i (component q (get_or v i d)) ∙ a.size;
      value =
          λ k. get_or-set out i k (component q (get_or v i d)) 0 (omega (arith, a.size)) ∙ entry k;
    }
      where
        entry :
            (k : ℕ)
            → (if ltb i k
                then nth out k
                else if ltb k i
                then nth out k
                else component q (get_or v i d))
              ≡ (if ltb k (suc i) then component q (get_or v k d) else 0)
        entry k = elim (trichotomy i k) [
          | inl before ↦ ground (arith, a.value k)
          | inr (inl same) ↦ rw (sym same) (ground (arith, a.value i))
          | inr (inr after) ↦ ground (arith, a.value k)
        ]

    quantise_entry_lem :
        (i : ℕ) (out : List ℕ)
        → i < length v
        → IsFilled i out
        → quantise_entry f v q i out ≡ some (set out i (component q (get_or v i d)))
    unfolding quantise_entry
    quantise_entry_lem i out hi a =
        let inside : ltb i (length out) ≡ true = ground (arith, a.size) in
        rw (get_elem?-eq-get_or v i d hi, inside) refl

    -- Every component is scaled, rounded and wrapped, and zeros fill the vector up to `n`.
    pub quantise_vector_lem :
        quantise_vector f v n q ≡ some (tabulate n (λ j. wrap_signed (scaled v q d j)))
    unfolding quantise_vector
    quantise_vector_lem =
        let (out, run, a) =
          for_loop_inv IsFilled (quantise_entry f v q) (length v)
            (λ i out hi a. (_, quantise_entry_lem i out hi a, IsFilled-set i out hi a))
            (replicate n 0)
            (record {
              size = length-replicate n 0;
              value = λ k. get_or-replicate n 0 k ∙ ground arith;
            }) in
        let entry = λ (j : ℕ). wrap_signed (scaled v q d j) in
        rw run (
          ap some (
            get_or_ext 0 out (tabulate n entry) (omega (arith, a.size, length-tabulate n entry))
              (λ i hi.
                a.value i
                ∙ wrap_scaled v q d i
                ∙ sym (get_or-tabulate n entry i 0 (omega (arith, a.size))))))
