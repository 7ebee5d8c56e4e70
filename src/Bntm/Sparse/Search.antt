-- ===== src/Bntm/Sparse/Search.antt =====
-- Binary search on a strictly increasing list finds a key exactly when it occurs.
use secure_vector_search.Prelude.{
  ℕ, zero, suc, ◌+◌, ◌-◌, ◌/◌, ◌≤◌, ◌<◌, ◌≡◌, ◌≢◌, refl, ap, ◌∙◌, sym, arith, Bool-cases, inl, inr,
  ltb, ◌==◌, [], ◌∷◌, if◌then◌else◌, List, length, nth, get_elem?, get_elem?-eq-get_or, Option,
  some, none, ◌>>=◌,
}
use secure_vector_search.Bntm.Sparse.{search_loop, binary_search}

abbrev pub IsIncreasing : List ℕ → Type 0
IsIncreasing xs = (i j : ℕ) → i < j → j < length xs → nth xs i < nth xs j

-- Every position of the key is among the candidates.
record IsWindow (xs : List ℕ) (key base size : ℕ) : Type 0 where
  inside : base + size ≤ length xs
  occupied : 0 < size
  holds : (i : ℕ) → i < length xs → nth xs i ≡ key → (base ≤ i) × (i < base + size)

IsWindow-half :
    (xs : List ℕ) (key base size : ℕ)
    → IsIncreasing xs
    → 1 < size
    → IsWindow xs key base size
    → IsWindow xs key
        (if ltb key (nth xs (base + size / 2)) then base else base + size / 2)
        (size - size / 2)
IsWindow-half xs key base size inc big w = elim (Bool-cases (ltb key (nth xs (base + size / 2)))) [
  | inl e ↦ rw e (record {
    inside = omega (arith, w.inside);
    occupied = omega arith;
    holds = λ i hi ei.
        let (lo, hi') = w.holds i hi ei in (lo, ground (arith, inc (base + size / 2) i, w.inside));
  })
  | inr e ↦ rw e (record {
    inside = omega (arith, w.inside);
    occupied = omega arith;
    holds = λ i hi ei.
        let (lo, hi') = w.holds i hi ei in
        (ground (arith, inc i (base + size / 2), w.inside), omega arith);
  })
]

search_loop_lem :
    (fuel : ℕ) (xs : List ℕ) (key base size : ℕ)
    → IsIncreasing xs
    → size ≤ suc fuel
    → IsWindow xs key base size
    → (b : ℕ) × (search_loop fuel xs key base size ≡ some b) × IsWindow xs key b 1
unfolding search_loop
search_loop_lem zero xs key base size inc enough w =
    let one : size ≡ 1 = omega (arith, w.occupied) in (base, refl, rw one at w)
search_loop_lem (suc fuel) xs key base size inc enough w = elim (Bool-cases (ltb 1 size)) [
  | inl e ↦
      rw (e, get_elem?-eq-get_or xs (base + size / 2) 0 (ground (arith, w.inside)))
        (search_loop_lem fuel xs key _ (size - size / 2) inc (ground arith)
          (IsWindow-half xs key base size inc (ground arith) w))
  | inr e ↦ let one : size ≡ 1 = ground (arith, w.occupied) in rw e (base, refl, rw one at w)
]

-- The key is at the position that is returned, and occurs nowhere if none is.
pub data Found (xs : List ℕ) (key : ℕ) : Option ℕ → Type 0 where
  hit : (i : ℕ) → i < length xs → nth xs i ≡ key → Found xs key (some i)
  miss : ((i : ℕ) → i < length xs → nth xs i ≢ key) → Found xs key none

-- A search of a strictly increasing list returns the position of the key, or nothing if the key
-- does not occur.
pub binary_search-Found :
    (xs : List ℕ) (key : ℕ) → IsIncreasing xs → Found xs key (binary_search xs key)
unfolding binary_search search_loop
binary_search-Found xs key inc = elim (Bool-cases (ltb 0 (length xs))) [
  | inl e ↦
      let (b, run, w) = search_loop_lem (length xs) xs key 0 (length xs) inc (omega arith) (record {
        inside = omega arith;
        occupied = ground arith;
        holds = λ i hi ei. (omega arith, omega arith);
      }) in
      rw (run, get_elem?-eq-get_or xs b 0 (omega (arith, w.inside))) (at_candidate b w)
  | inr e ↦ empty xs key (ground arith)
]
  where
    at_candidate :
        (b : ℕ) → IsWindow xs key b 1 → Found xs key (if nth xs b == key then some b else none)
    at_candidate b w = elim (Bool-cases (nth xs b == key)) [
      | inl e ↦ rw e (hit b (omega (arith, w.inside)) (ground arith))
      | inr e ↦ rw e (
          miss (λ i hi ei.
            let (lo, hi') = w.holds i hi ei in
            let same : i ≡ b = omega arith in
            let eb : nth xs b ≡ key = ap (nth xs) (sym same) ∙ ei in ground arith))
    ]

    empty :
        (ys : List ℕ) (k : ℕ)
        → length ys ≡ 0
        → Found ys k (
            search_loop (length ys) ys k 0 (length ys) >>= λ b.
            get_elem? ys b >>= λ x. (if x == k then some b else none))
    empty [] k h = miss (λ i hi ei. absurd (omega arith))
    empty (y ∷ ys) k h = absurd (omega arith)
