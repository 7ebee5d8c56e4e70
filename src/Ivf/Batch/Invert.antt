-- ===== src/Ivf/Batch/Invert.antt =====
-- The table of visits holds, for each cluster, exactly the queries and positions that probe it.
use secure_vector_search.Prelude.{
  ℕ, zero, suc, ◌+◌, ◌<◌, ◌≡◌, ◌≢◌, ◌⊎◌, refl, ap, ap₂, sym, ◌∙◌, arith, subst, ltb, true,
  Bool-cases, inl, inr, some, List, [], ◌∷◌, ◌++◌, length, get_or, get_or-set, set, length-set, nth,
  all,
}
use secure_vector_search.Ivf.Build.Partition.{push_at_lem}
use secure_vector_search.Ivf.Batch.{Visits, invert_probes, invert}

-- `a` is an element of the list.
abbrev pub In : {A : Type 0} → A → List A → Type 0
In a [] = ⊥
In a (x ∷ xs) = (x ≡ a) ⊎ In a xs

pub In-append_left : {A : Type 0} (a : A) (xs ys : List A) → In a xs → In a (xs ++ ys)
In-append_left a [] ys m = absurd m
In-append_left a (x ∷ xs) ys (inl e) = inl e
In-append_left a (x ∷ xs) ys (inr m) = inr (In-append_left a xs ys m)

pub In-append_right : {A : Type 0} (a : A) (xs ys : List A) → In a ys → In a (xs ++ ys)
In-append_right a [] ys m = m
In-append_right a (x ∷ xs) ys m = inr (In-append_right a xs ys m)

pub In-append : {A : Type 0} (a : A) (xs ys : List A) → In a (xs ++ ys) → In a xs ⊎ In a ys
In-append a [] ys m = inr m
In-append a (x ∷ xs) ys (inl e) = inl (inl e)
In-append a (x ∷ xs) ys (inr m) = elim (In-append a xs ys m) [ inl l ↦ inl (inr l) | inr r ↦ inr r ]

-- Entry `c` of the table, empty beyond its end.
abbrev pub row {ℓ} : {A : Type ℓ} → List (List A) → ℕ → List A
row rows c = get_or rows c []

-- After a push the row `c` has one more element, at its end, and the others have theirs.
pushed-In :
    {A : Type 0} (rows : List (List A)) (b c : ℕ) (x y : A)
    → b < length rows
    → In y (row (set rows b (row rows b ++ x ∷ [])) c)
    → In y (row rows c) ⊎ ((b ≡ c) × (x ≡ y))
pushed-In rows b c x y h m = elim (Bool-cases (ltb b c)) [
  | inl e ↦ inl (subst (In y) (get_or-set rows b c (row rows b ++ x ∷ []) [] h ∙ rw e refl) m)
  | inr e ↦ elim (Bool-cases (ltb c b)) [
    | inl e' ↦
        inl (subst (In y) (get_or-set rows b c (row rows b ++ x ∷ []) [] h ∙ rw (e, e') refl) m)
    | inr e' ↦
        let here : b ≡ c = ground arith in
        let m' : In y (row rows b ++ x ∷ []) =
          subst (In y) (get_or-set rows b c (row rows b ++ x ∷ []) [] h ∙ rw (e, e') refl) m in
        elim (In-append y (row rows b) (x ∷ []) m') [
          | inl old ↦ inl (subst (λ (j : ℕ). In y (row rows j)) here old)
          | inr (inl new) ↦ inr (here, new)
          | inr (inr none_left) ↦ absurd none_left
        ]
  ]
]

kept-In :
    {A : Type 0} (rows : List (List A)) (b c : ℕ) (x y : A)
    → b < length rows
    → In y (row rows c) ⊎ ((b ≡ c) × (x ≡ y))
    → In y (row (set rows b (row rows b ++ x ∷ [])) c)
kept-In rows b c x y h m = elim (Bool-cases (ltb b c)) [
  | inl e ↦
      subst (In y) (sym (get_or-set rows b c (row rows b ++ x ∷ []) [] h ∙ rw e refl))
        (old (ground (arith)) m)
  | inr e ↦ elim (Bool-cases (ltb c b)) [
    | inl e' ↦
        subst (In y) (sym (get_or-set rows b c (row rows b ++ x ∷ []) [] h ∙ rw (e, e') refl))
          (old (ground (arith)) m)
    | inr e' ↦
        let here : b ≡ c = ground arith in
        subst (In y) (sym (get_or-set rows b c (row rows b ++ x ∷ []) [] h ∙ rw (e, e') refl))
          (both here m)
  ]
]
  where
    old : b ≢ c → In y (row rows c) ⊎ ((b ≡ c) × (x ≡ y)) → In y (row rows c)
    old ne (inl m) = m
    old ne (inr (e, _)) = absurd (ne e)

    both : b ≡ c → In y (row rows c) ⊎ ((b ≡ c) × (x ≡ y)) → In y (row rows b ++ x ∷ [])
    both here (inl m) =
        In-append_left y (row rows b) (x ∷ []) (subst (λ (j : ℕ). In y (row rows j)) (sym here) m)
    both here (inr (_, e)) = In-append_right y (row rows b) (x ∷ []) (inl e)

-- Query `q`, at the positions from `pos` on of the list `probes`, probes `c`.
abbrev pub Probes : ℕ → ℕ → List ℕ → ℕ → (ℕ × ℕ) → Type 0
Probes q pos probes c (a, p) =
    (a ≡ q) × ((j : ℕ) × (p ≡ pos + j) × (j < length probes) × (nth probes j ≡ c))

Probes-later :
    (q pos b : ℕ) (probes : List ℕ) (c : ℕ) (y : ℕ × ℕ)
    → Probes q (suc pos) probes c y
    → Probes q pos (b ∷ probes) c y
Probes-later q pos b probes c (a, p) (ea, (j, ep, l, e)) =
    (ea, (suc j, omega arith, omega arith, e))

Probes-first :
    (q pos b : ℕ) (probes : List ℕ) (c : ℕ) (y : ℕ × ℕ)
    → (b ≡ c) × ((q, pos) ≡ y)
    → Probes q pos (b ∷ probes) c y
Probes-first q pos b probes c (a, p) (e, ey) = (
  sym (ap (λ (z : ℕ × ℕ). z.0) ey),
  (0, omega (arith, ap (λ (z : ℕ × ℕ). z.1) ey), omega arith, e),
)

Probes-cases :
    (q pos b : ℕ) (probes : List ℕ) (c : ℕ) (y : ℕ × ℕ)
    → Probes q pos (b ∷ probes) c y
    → ((b ≡ c) × ((q, pos) ≡ y)) ⊎ Probes q (suc pos) probes c y
Probes-cases q pos b probes c (a, p) (ea, (zero, ep, l, e)) =
    inl (e, ap₂ (λ (u v : ℕ). (u, v)) (sym ea) (omega arith))
Probes-cases q pos b probes c (a, p) (ea, (suc j, ep, l, e)) =
    inr (ea, (j, omega arith, omega arith, e))

-- The table after one query: what it held, and the visits of the query, exactly.
pub invert_probes_lem :
    (q pos k : ℕ) (probes : List ℕ) (table : Visits)
    → all (λ c. ltb c k) probes ≡ true
    → length table ≡ k
    → (table' : Visits) × (invert_probes q pos probes table ≡ some table')
      × (length table' ≡ k)
      × ((c : ℕ) (y : ℕ × ℕ) → In y (row table' c) → In y (row table c) ⊎ Probes q pos probes c y)
      × ((c : ℕ) (y : ℕ × ℕ) → In y (row table c) ⊎ Probes q pos probes c y → In y (row table' c))
unfolding invert_probes
invert_probes_lem q pos k [] table a l = (table, refl, l, (λ c y m. inl m), (λ c y m. held c y m))
  where
    held : (c : ℕ) (y : ℕ × ℕ) → In y (row table c) ⊎ Probes q pos [] c y → In y (row table c)
    held c y (inl m) = m
    held c y (inr (_, (j, _, l, _))) = absurd (omega arith)
invert_probes_lem q pos k (b ∷ probes) table a l =
    let inside : b < length table = ground arith in
    let next = set table b (row table b ++ (q, pos) ∷ []) in
    let (table', e, l', sound, complete) =
      invert_probes_lem q (suc pos) k probes next (ground arith)
        (length-set table b (row table b ++ (q, pos) ∷ []) ∙ l) in
    (
      table',
      rw (push_at_lem table b (q, pos) inside) e,
      l',
      (λ c y m. from c y inside (sound c y m)),
      (λ c y m. complete c y (to c y inside m)),
    )
  where
    from :
        (c : ℕ) (y : ℕ × ℕ)
        → b < length table
        → In y (row (set table b (row table b ++ (q, pos) ∷ [])) c) ⊎ Probes q (suc pos) probes c y
        → In y (row table c) ⊎ Probes q pos (b ∷ probes) c y
    from c y h (inl m) = elim (pushed-In table b c (q, pos) y h m) [
      | inl old ↦ inl old
      | inr new ↦ inr (Probes-first q pos b probes c y new)
    ]
    from c y h (inr later) = inr (Probes-later q pos b probes c y later)

    to :
        (c : ℕ) (y : ℕ × ℕ)
        → b < length table
        → In y (row table c) ⊎ Probes q pos (b ∷ probes) c y
        → In y (row (set table b (row table b ++ (q, pos) ∷ [])) c) ⊎ Probes q (suc pos) probes c y
    to c y h (inl m) = inl (kept-In table b c (q, pos) y h (inl m))
    to c y h (inr v) = elim (Probes-cases q pos b probes c y v) [
      | inl new ↦ inl (kept-In table b c (q, pos) y h (inr new))
      | inr later ↦ inr later
    ]

-- The visit `y` is one of the queries numbered from `q` on, with these probe sets, to cluster `c`.
abbrev pub Visit : ℕ → List (List ℕ) → ℕ → (ℕ × ℕ) → Type 0
Visit q [] c y = ⊥
Visit q (probes ∷ sets) c y = Probes q 0 probes c y ⊎ Visit (suc q) sets c y

-- All probe sets are in range.
abbrev pub AllSets : ℕ → List (List ℕ) → Type 0
AllSets k [] = Unit {0}
AllSets k (probes ∷ sets) = (all (λ c. ltb c k) probes ≡ true) × AllSets k sets

-- The table after all queries.
pub invert_lem :
    (q k : ℕ) (sets : List (List ℕ)) (table : Visits)
    → AllSets k sets
    → length table ≡ k
    → (table' : Visits) × (invert q sets table ≡ some table')
      × (length table' ≡ k)
      × ((c : ℕ) (y : ℕ × ℕ) → In y (row table' c) → In y (row table c) ⊎ Visit q sets c y)
      × ((c : ℕ) (y : ℕ × ℕ) → In y (row table c) ⊎ Visit q sets c y → In y (row table' c))
unfolding invert
invert_lem q k [] table a l = (table, refl, l, (λ c y m. inl m), (λ c y m. held c y m))
  where
    held : (c : ℕ) (y : ℕ × ℕ) → In y (row table c) ⊎ ⊥ → In y (row table c)
    held c y (inl m) = m
    held c y (inr none_left) = absurd none_left
invert_lem q k (probes ∷ sets) table a l =
    let (mid, e, lm, sound, complete) = invert_probes_lem q 0 k probes table a.0 l in
    let (table', e', l', sound', complete') = invert_lem (suc q) k sets mid a.1 lm in
    (
      table',
      rw e e',
      l',
      (λ c y m. elim (sound' c y m) [
        | inl held ↦ elim (sound c y held) [ inl old ↦ inl old | inr new ↦ inr (inl new) ]
        | inr later ↦ inr (inr later)
      ]),
      (λ c y m. complete' c y (into c y (complete c y) m)),
    )
  where
    into :
        {T M : Type 0} (c : ℕ) (y : ℕ × ℕ)
        → (T ⊎ Probes q 0 probes c y → M)
        → T ⊎ (Probes q 0 probes c y ⊎ Visit (suc q) sets c y)
        → M ⊎ Visit (suc q) sets c y
    into c y step (inl old) = inl (step (inl old))
    into c y step (inr (inl new)) = inl (step (inr new))
    into c y step (inr (inr later)) = inr later
