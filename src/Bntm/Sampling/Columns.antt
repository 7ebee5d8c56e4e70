-- ===== src/Bntm/Sampling/Columns.antt =====
-- What a sampled sparse vector holds, column by column.
use secure_vector_search.Prelude.{
  ℕ, zero, suc, ◌^◌, ◌≤◌, ◌<◌, ◌≡◌, refl, ap, ◌∙◌, arith, bit_and, Bool, Bool-cases, inl, inr, ltb,
  u32, ◌==◌, if◌then◌else◌, true, false, ℤ, pos, negsuc, List, [], ◌∷◌, ◌++◌, length, nth, get_or,
  get_elem?, get_elem?-eq-get_or, length-append, get_or-append_left, get_or-append_last, Option,
  none, some, for_loop_inv,
}
use secure_vector_search.Rng.{Rng}
use secure_vector_search.Float.{Float}
use secure_vector_search.Bntm.Sparse.{SparseVec, binary_search, sparse_lookup}
use secure_vector_search.Bntm.Sparse.Search.{IsIncreasing, Found, hit, miss, binary_search-Found}
use secure_vector_search.Bntm.Sparse.Dense.{IsSparse}
use secure_vector_search.Bntm.Sampling.{sample_entry, sample_sparse_pm1, sparse_threshold}

IsIncreasing-push :
    (idx : List ℕ) (j : ℕ)
    → IsIncreasing idx
    → ((e : ℕ) → e < length idx → nth idx e < j)
    → IsIncreasing (idx ++ j ∷ [])
IsIncreasing-push idx j inc below a b h hb =
    let first = get_or-append_left idx (j ∷ []) a 0 (omega (arith, length-append idx (j ∷ []))) in
    elim (Bool-cases (ltb b (length idx))) [
      | inl e ↦
          let second = get_or-append_left idx (j ∷ []) b 0 (ground arith) in
          rw (first, second) (inc a b h (ground arith))
      | inr e ↦
          let second = get_or-append_last idx j 0 b (ground (arith, length-append idx (j ∷ []))) in
          rw (first, second) (below a (ground (arith, length-append idx (j ∷ []))))
    ]

below-push :
    (idx : List ℕ) (j e : ℕ)
    → ((e : ℕ) → e < length idx → nth idx e < j)
    → e < length (idx ++ j ∷ [])
    → nth (idx ++ j ∷ []) e < suc j
below-push idx j e below h = elim (Bool-cases (ltb e (length idx))) [
  | inl t ↦
      rw (get_or-append_left idx (j ∷ []) e 0 (ground arith))
        (omega (arith, below e (ground arith)))
  | inr t ↦
      rw (get_or-append_last idx j 0 e (ground (arith, length-append idx (j ∷ [])))) (omega arith)
]

module _ (g : Rng) (threshold : ℕ) where
  open g use {State, next_u32}

  -- A column is drawn if the first number from its state is below the threshold, and has then the
  -- sign of the lowest bit of the second.
  abbrev pub is_drawn : State → Bool
  is_drawn s = ltb (next_u32 s).0 threshold

  abbrev pub column_sign : State → ℤ
  column_sign s =
      if is_drawn s
      then (if bit_and (next_u32 (next_u32 s).1).0 1 == 0 then negsuc 0 else pos 1)
      else pos 0

  -- The state before column `j`: a column takes two numbers if it is drawn, and else one.
  abbrev pub state_before : State → ℕ → State
  state_before s zero = s
  state_before s (suc j) =
      let t = state_before s j in if is_drawn t then (next_u32 (next_u32 t).1).1 else (next_u32 t).1

  module _ (start : State) where
    -- The entries of the first `j` columns.
    record AreEntries (j : ℕ) (v : List ℕ × List ℤ × State) : Type 0 where
      paired : length v.0 ≡ length v.1
      increasing : IsIncreasing v.0
      below : (e : ℕ) → e < length v.0 → nth v.0 e < j
      signs :
          (e : ℕ)
          → e < length v.0
          → get_or v.1 e (pos 0) ≡ column_sign (state_before start (nth v.0 e))
      complete :
          (i : ℕ)
          → i < j
          → is_drawn (state_before start i) ≡ true
          → (e : ℕ) × (e < length v.0) × (nth v.0 e ≡ i)
      reached : v.2 ≡ state_before start j

    AreEntries-push :
        (j : ℕ) (idx : List ℕ) (sign : List ℤ) (z : ℤ) (s s' : State)
        → AreEntries j (idx, sign, s)
        → z ≡ column_sign (state_before start j)
        → s' ≡ state_before start (suc j)
        → AreEntries (suc j) (idx ++ j ∷ [], sign ++ z ∷ [], s')
    AreEntries-push j idx sign z s s' a hz hs = record {
      paired =
          omega (arith, length-append idx (j ∷ []), length-append {A = ℤ} sign (z ∷ []), a.paired);
      increasing = IsIncreasing-push idx j a.increasing a.below;
      below = λ e h. below-push idx j e a.below h;
      signs = λ e h. sign_of e (omega (arith, h, length-append idx (j ∷ [])));
      complete = λ i hi drawn. place i hi drawn;
      reached = hs;
    }
      where
        sign_of :
            (e : ℕ)
            → e < suc (length idx)
            → get_or (sign ++ z ∷ []) e (pos 0)
              ≡ column_sign (state_before start (nth (idx ++ j ∷ []) e))
        sign_of e h = elim (Bool-cases (ltb e (length idx))) [
          | inl old ↦
              rw
                (
                  get_or-append_left idx (j ∷ []) e 0 (ground arith),
                  get_or-append_left sign (z ∷ []) e (pos 0) (ground (arith, a.paired)),
                )
                (a.signs e (ground arith))
          | inr new ↦
              rw
                (
                  get_or-append_last idx j 0 e (ground arith),
                  get_or-append_last sign z (pos 0) e (ground (arith, a.paired)),
                )
                hz
        ]

        place :
            (i : ℕ)
            → i < suc j
            → is_drawn (state_before start i) ≡ true
            → (e : ℕ) × (e < length (idx ++ j ∷ [])) × (nth (idx ++ j ∷ []) e ≡ i)
        place i hi drawn = elim (Bool-cases (ltb i j)) [
          | inl old ↦
              let (e, he, at) = a.complete i (ground arith) drawn in
              (
                e,
                omega (arith, he, length-append idx (j ∷ [])),
                get_or-append_left idx (j ∷ []) e 0 he ∙ at,
              )
          | inr new ↦ (
            length idx,
            omega (arith, length-append idx (j ∷ [])),
            get_or-append_last idx j 0 (length idx) refl ∙ ground arith,
          )
        ]

    AreEntries-step :
        (j : ℕ) (v : List ℕ × List ℤ × State)
        → j < 2 ^ 32
        → AreEntries j v
        → AreEntries (suc j) (sample_entry g threshold j v)
    unfolding sample_entry
    AreEntries-step j (idx, sign, s) hj a = elim (Bool-cases (is_drawn s)) [
      | inl e ↦
          let column : u32 j ≡ j = omega arith in
          let here : is_drawn (state_before start j) ≡ true = rw (← a.reached) e in
          let z = if bit_and (next_u32 (next_u32 s).1).0 1 == 0 then negsuc 0 else pos 1 in
          rw (e, column)
            (AreEntries-push j idx sign z s (next_u32 (next_u32 s).1).1 a (rw (← a.reached, e) refl)
              (rw (← a.reached, e) refl))
      | inr e ↦ rw e (record {
        paired = a.paired;
        increasing = a.increasing;
        below = λ k h. omega (arith, a.below k h);
        signs = a.signs;
        complete = λ i hi drawn. elim (Bool-cases (ltb i j)) [
          | inl old ↦ a.complete i (ground arith) drawn
          | inr new ↦
              let same : i ≡ j = ground arith in
              let lost : is_drawn (state_before start i) ≡ false = rw (same, ← a.reached) e in
              absurd (ground (arith, lost, drawn))
        ];
        reached = rw (← a.reached, e) refl;
      })
    ]

  -- The lookup of a column gives its sign.
  lookup_column :
      (start : State) (n : ℕ) (t : SparseVec) (s : State)
      → AreEntries start n (t.idx, t.sign, s)
      → (j : ℕ) → j < n
      → sparse_lookup t j ≡ some (column_sign (state_before start j))
  unfolding sparse_lookup
  lookup_column start n t s a j hj =
      from (binary_search t.idx j) (binary_search-Found t.idx j a.increasing)
    where
      from :
          (found : Option ℕ)
          → Found t.idx j found
          → elim found [ some position ↦ get_elem? t.sign position | none ↦ some (pos 0) ]
            ≡ some (column_sign (state_before start j))
      from (some i) (hit _ hi e) =
          get_elem?-eq-get_or t.sign i (pos 0) (omega (arith, a.paired))
          ∙ ap some (a.signs i hi ∙ ap (λ (k : ℕ). column_sign (state_before start k)) e)
      from none (miss absent) = elim (Bool-cases (is_drawn (state_before start j))) [
        | inl drawn ↦ let (e, he, at) = a.complete j hj drawn in absurd (absent e he at)
        | inr lost ↦ rw lost refl
      ]

module _ (g : Rng) (f : Float) where
  open g use {State}
  open f use {F64}

  -- A sampled sparse vector of a width n of at most 2^32 has one sign for each index, and its indices
  -- increase strictly and are below n. The lookup of a column finds the sign that was drawn for it, -1
  -- or 1 by the lowest bit of a second number, if the first number of the column is below the
  -- threshold, and 0 otherwise; the generator is left after the numbers of all columns.
  pub sample_sparse_pm1_lem :
      (n : ℕ) (mu : F64) (s : State)
      → n ≤ 2 ^ 32
      → (r : SparseVec × State) × (sample_sparse_pm1 g f n mu s ≡ some r)
        × IsSparse n r.0
        × ((j : ℕ)
            → j < n
            → sparse_lookup r.0 j
              ≡ some (
                  column_sign g
                    (sparse_threshold g f mu)
                    (state_before g (sparse_threshold g f mu) s j)))
        × (r.1 ≡ state_before g (sparse_threshold g f mu) s n)
  unfolding sample_sparse_pm1
  sample_sparse_pm1_lem n mu s narrow =
      let threshold = sparse_threshold g f mu in
      let (v, run, a) =
        for_loop_inv (AreEntries g threshold s) (λ j v. some (sample_entry g threshold j v)) n
          (λ j v hj a.
            (sample_entry g threshold j v, refl, AreEntries-step g threshold s j v (omega arith) a))
          ([], [], s)
          (record {
            paired = refl;
            increasing = λ i j h hj. absurd (omega arith);
            below = λ e h. absurd (omega arith);
            signs = λ e h. absurd (omega arith);
            complete = λ i h drawn. absurd (omega arith);
            reached = refl;
          }) in
      let t : SparseVec = record { n = n; idx = v.0; sign = v.1 } in
      (
        (t, v.2),
        rw run,
        record { width = refl; paired = a.paired; increasing = a.increasing; in_range = a.below },
        lookup_column g threshold s n t v.2 a,
        a.reached,
      )
