-- ===== src/Bntm/Sparse/Dense.antt =====
-- The dense vector that a sparse one stands for, with -1 as p - 1.
use secure_vector_search.Prelude.{
  ℕ, ◌-◌, ◌<◌, ◌≡◌, ◌≢◌, refl, ◌∙◌, sym, arith, Bool-cases, inl, inr, true, false, ◌==◌, min,
  if◌then◌else◌, ℤ, pos, [], length, nth, get_or, get_elem?, get_elem?-eq-get_or, Option, some,
  none, sum, sum_congr, sum_single, sum-zero, lt→ltb,
}
use secure_vector_search.Bntm.Field.{field_p}
use secure_vector_search.Bntm.Sparse.{SparseVec, match_sign, binary_search, sparse_lookup}
use secure_vector_search.Bntm.Sparse.Search.{IsIncreasing, Found, hit, miss, binary_search-Found}

abbrev pub sign_value : ℤ → ℕ
sign_value s = match_sign s 1 (field_p - 1) 0

abbrev pub sign_at : SparseVec → ℕ → ℤ
sign_at t e = get_or t.sign e (pos 0)

abbrev pub entries : SparseVec → ℕ
entries t = min (length t.idx) (length t.sign)

-- Column `j` of the dense vector.
abbrev pub dense : SparseVec → ℕ → ℕ
dense t j = sum (entries t) (λ e. if nth t.idx e == j then sign_value (sign_at t e) else 0)

abbrev pub no_entries : SparseVec
no_entries = record { n = 0; idx = []; sign = [] }

-- Indices strictly increasing and below `n`, one sign for each.
pub record IsSparse (n : ℕ) (t : SparseVec) : Type 0 where
  pub width : t.n ≡ n
  pub paired : length t.idx ≡ length t.sign
  pub increasing : IsIncreasing t.idx
  pub in_range : (e : ℕ) → e < length t.idx → nth t.idx e < n

dense_hit :
    (n : ℕ) (t : SparseVec) (j i : ℕ)
    → IsSparse n t
    → i < length t.idx
    → nth t.idx i ≡ j
    → dense t j ≡ sign_value (sign_at t i)
dense_hit n t j i h hi e =
    sum_congr (entries t) _ (λ k. if k == i then sign_value (sign_at t k) else 0)
      (λ k hk. elim (Bool-cases (k == i)) [
        | inl same ↦
            let ke : k ≡ i = ground arith in
            let found : (nth t.idx k == j) ≡ true = rw ke (ground arith) in rw (same, found)
        | inr other ↦
            let lost : (nth t.idx k == j) ≡ false =
              ground (arith, h.increasing k i, h.increasing i k, h.paired) in
            rw (other, lost)
      ])
    ∙ sum_single (entries t) i (λ k. sign_value (sign_at t k))
    ∙ rw (lt→ltb i (entries t) (omega (arith, h.paired)))

dense_miss :
    (t : SparseVec) (j : ℕ) → ((i : ℕ) → i < length t.idx → nth t.idx i ≢ j) → dense t j ≡ 0
dense_miss t j h =
    sum_congr (entries t) _ (λ k. 0)
      (λ k hk. let lost : (nth t.idx k == j) ≡ false = ground (arith, h k) in rw lost)
    ∙ sum-zero (entries t)

-- In a well-formed sparse vector the lookup of any column neither panics nor reads out of range, and
-- the sign that it returns stands for the entry of the dense vector, 0 where nothing is stored.
pub sparse_lookup-dense :
    (n : ℕ) (t : SparseVec) (j : ℕ)
    → IsSparse n t
    → (s : ℤ) × (sparse_lookup t j ≡ some s) × (sign_value s ≡ dense t j)
unfolding sparse_lookup
sparse_lookup-dense n t j h =
    from (binary_search t.idx j) (binary_search-Found t.idx j h.increasing)
  where
    from :
        (found : Option ℕ)
        → Found t.idx j found
        → (s : ℤ) × ((elim found [
          | some position ↦ get_elem? t.sign position
          | none ↦ some (pos 0)
        ])
            ≡ some s)
          × (sign_value s ≡ dense t j)
    from (some i) (hit _ hi e) = (
      sign_at t i,
      get_elem?-eq-get_or t.sign i (pos 0) (omega (arith, h.paired)),
      sym (dense_hit n t j i h hi e),
    )
    from none (miss absent) = (pos 0, refl, sym (dense_miss t j absent))
