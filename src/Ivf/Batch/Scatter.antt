-- ===== src/Ivf/Batch/Scatter.antt =====
-- Bins that are scattered, in any order and without regard to repetition, end in their cells.
use secure_vector_search.Prelude.{
  ℕ, ◌<◌, ◌≡◌, ◌⊎◌, refl, ap, ap₂, ◌∙◌, arith, ltb, ◌==◌, if◌then◌else◌, true, false, ◌&&◌,
  Bool-cases, inl, inr, some, List, [], ◌∷◌, length, get_or, get_or-set, get_elem?-eq-get_or, set,
  length-set, nth,
}
use secure_vector_search.Ivf.Batch.{write_bin, scatter}
use secure_vector_search.Ivf.Batch.Invert.{In, row}

module _ {A : Type 0} (d : A) where
  abbrev pub cell : List (List A) → ℕ → ℕ → A
  cell rows q p = get_or (row rows q) p d

  -- `rows` has a row for each of `lens`, of that length.
  pub record HasShape (lens : List ℕ) (rows : List (List A)) : Type 0 where
    pub rows_length : length rows ≡ length lens
    pub row_length : (q : ℕ) → q < length lens → length (row rows q) ≡ nth lens q

  cell-write :
      (rows : List (List A)) (q p a r : ℕ) (b : A)
      → q < length rows
      → p < length (row rows q)
      → cell (set rows q (set (row rows q) p b)) a r
        ≡ (if (q == a) && (p == r) then b else cell rows a r)
  cell-write rows q p a r b hq hp =
      let new = set (row rows q) p b in
      let outer = get_or-set rows q a new [] hq in
      elim (Bool-cases (q == a)) [
        | inl e ↦
            let here : q ≡ a = ground arith in
            let above : ltb q a ≡ false = ground arith in
            let below : ltb a q ≡ false = ground arith in
            let hit : row (set rows q new) a ≡ new = outer ∙ rw (above, below) refl in
            let old : row rows q ≡ row rows a = ap (row rows) here in
            rw (hit, get_or-set (row rows q) p r b d hp, e)
              (ground (arith, ap (λ (xs : List A). get_or xs r d) old))
        | inr e ↦
            let miss : row (set rows q new) a ≡ row rows a = outer ∙ ground arith in
            rw (miss, e) refl
      ]

  write_bin_lem :
      (lens : List ℕ) (rows : List (List A)) (q p : ℕ) (b : A)
      → HasShape lens rows
      → q < length lens
      → p < nth lens q
      → (write_bin q p b rows ≡ some (set rows q (set (row rows q) p b)))
        × HasShape lens (set rows q (set (row rows q) p b))
  unfolding write_bin
  write_bin_lem lens rows q p b h hq hp =
      let fits : ltb p (length (row rows q)) ≡ true = ground (arith, h.row_length q hq) in
      let new = set (row rows q) p b in
      (
        rw (get_elem?-eq-get_or rows q [] (omega (arith, h.rows_length)), fits) refl,
        record {
          rows_length = length-set rows q new ∙ h.rows_length;
          row_length = λ a ha.
              ap length (get_or-set rows q a new [] (omega (arith, h.rows_length)))
              ∙ by_case a ha (length-set (row rows q) p b);
        },
      )
    where
      by_case :
          (a : ℕ)
          → a < length lens
          → length (set (row rows q) p b) ≡ length (row rows q)
          → length
              (if ltb q a then row rows a else if ltb a q then row rows a else set (row rows q) p b)
            ≡ nth lens a
      by_case a ha e = elim (Bool-cases (ltb q a)) [
        | inl l ↦ rw l (h.row_length a ha)
        | inr l ↦ elim (Bool-cases (ltb a q)) [
          | inl l' ↦ rw (l, l') (h.row_length a ha)
          | inr l' ↦
              let here : q ≡ a = ground arith in
              rw (l, l') (e ∙ h.row_length q hq ∙ ap (nth lens) here)
        ]
      ]

  module _ (lens : List ℕ) (value : ℕ → ℕ → A) where
    -- Each bin is in range and holds the value of its cell.
    abbrev pub AllRight : List (ℕ × ℕ × A) → Type 0
    AllRight [] = Unit {0}
    AllRight ((q, p, b) ∷ bins) =
        (q < length lens) × (p < nth lens q) × (b ≡ value q p) × AllRight bins

    abbrev pub keys : List (ℕ × ℕ × A) → List (ℕ × ℕ)
    keys [] = []
    keys ((q, p, b) ∷ bins) = (q, p) ∷ keys bins

    pub scatter_lem :
        (bins : List (ℕ × ℕ × A)) (rows : List (List A))
        → AllRight bins
        → HasShape lens rows
        → (rows' : List (List A)) × (scatter bins rows ≡ some rows')
          × HasShape lens rows'
          × ((q p : ℕ)
              → (cell rows q p ≡ value q p) ⊎ In (q, p) (keys bins)
              → cell rows' q p ≡ value q p)
    unfolding scatter
    scatter_lem [] rows a h = (rows, refl, h, (λ q p m. elim m [ inl e ↦ e | inr n ↦ absurd n ]))
    scatter_lem ((q, p, b) ∷ bins) rows a h =
        let (e, h') = write_bin_lem lens rows q p b h a.0 a.1 in
        let next = set rows q (set (row rows q) p b) in
        let (rows', e', shape, done) = scatter_lem bins next a.3 h' in
        let hq : q < length rows = omega (arith, a.0, h.rows_length) in
        let hp : p < length (row rows q) = omega (arith, a.1, h.row_length q a.0) in
        (
          rows',
          rw e e',
          shape,
          (λ u r m. done u r (settled u r (cell-write rows q p u r b hq hp) m)),
        )
      where
        settled :
            (u r : ℕ)
            → cell (set rows q (set (row rows q) p b)) u r
              ≡ (if (q == u) && (p == r) then b else cell rows u r)
            → (cell rows u r ≡ value u r) ⊎ In (u, r) ((q, p) ∷ keys bins)
            → (cell (set rows q (set (row rows q) p b)) u r ≡ value u r) ⊎ In (u, r) (keys bins)
        settled u r e m = elim (Bool-cases ((q == u) && (p == r))) [
          | inl hit ↦
              let eu : q ≡ u = ground arith in
              let er : p ≡ r = ground arith in inl (e ∙ rw hit a.2 ∙ ap₂ value eu er)
          | inr miss ↦ elim m [
            | inl old ↦ inl (e ∙ rw miss old)
            | inr (inl key) ↦
                let eu : q ≡ u = ap (λ (y : ℕ × ℕ). y.0) key in
                let er : p ≡ r = ap (λ (y : ℕ × ℕ). y.1) key in absurd (ground (arith, miss))
            | inr (inr later) ↦ inr later
          ]
        ]
