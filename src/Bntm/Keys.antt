-- ===== src/Bntm/Keys.antt =====
-- What the derivation of the key material guarantees: shapes, reduced entries, sparse rows.
use secure_vector_search.Prelude.{
  ℕ, suc, ◌*◌, ◌^◌, ◌≤◌, ◌<◌, ◌≡◌, refl, arith, Bool-cases, inl, inr, ltb, List, [], ◌∷◌, ◌++◌,
  length, get_or, length-append, get_or-append_left, get_or-append_last, some, ◌>>=◌, for_loop_inv,
}
use secure_vector_search.Rng.{Rng}
use secure_vector_search.Float.{Float}
use secure_vector_search.Bntm.Field.{IsField}
use secure_vector_search.Bntm.Sparse.{SparseVec, SparseMatrix}
use secure_vector_search.Bntm.Sparse.Dense.{IsSparse, no_entries}
use secure_vector_search.Bntm.Sampling.{
  sample_sparse_pm1, generate_s, regenerate_h_s, generate_subspace,
}
use secure_vector_search.Bntm.Sampling.Shape.{Accepts, sample_fps_lem}
use secure_vector_search.Bntm.Sampling.Columns.{sample_sparse_pm1_lem}

-- `m` sparse rows of width `n`.
pub record IsSparseMatrix (m n : ℕ) (s : SparseMatrix) : Type 0 where
  pub count : length s.rows ≡ m
  pub sparse : (i : ℕ) → i < m → IsSparse n (get_or s.rows i no_entries)

-- A dense matrix, row-major, of reduced entries.
pub record IsMatrix (rows cols : ℕ) (mat : List ℕ) : Type 0 where
  pub shape : length mat ≡ rows * cols
  pub reduced : IsField mat

record AreRows {ℓ} {S : Type ℓ} (n i : ℕ) (v : List SparseVec × S) : Type 0 where
  count : length v.0 ≡ i
  sparse : (k : ℕ) → k < i → IsSparse n (get_or v.0 k no_entries)

AreRows-push :
    (n i : ℕ) (rows : List SparseVec) (row : SparseVec)
    → length rows ≡ i
    → ((k : ℕ) → k < i → IsSparse n (get_or rows k no_entries))
    → IsSparse n row
    → (k : ℕ) → k < suc i
    → IsSparse n (get_or (rows ++ row ∷ []) k no_entries)
AreRows-push n i rows row count sparse h k hk = elim (Bool-cases (ltb k i)) [
  | inl e ↦
      rw (get_or-append_left rows (row ∷ []) k no_entries (ground arith)) (sparse k (ground arith))
  | inr e ↦ rw (get_or-append_last rows row no_entries k (ground arith)) h
]

module _ (g : Rng) where
  open g use {State}

  -- The public subspace has its shape and reduced entries.
  pub generate_subspace-IsMatrix :
      (fuel : ℕ) (key_seed : List ℕ) (n n1 : ℕ)
      → Accepts g fuel
      → (l : List ℕ) × (generate_subspace g fuel key_seed n n1 ≡ some l) × IsMatrix n n1 l
  unfolding generate_subspace
  generate_subspace-IsMatrix fuel key_seed n n1 accepts =
      let (r, run, size, reduced) = sample_fps_lem g fuel (n * n1) (g.from_seed key_seed) accepts in
      (r.0, rw run, record { shape = size; reduced = reduced })

  module _ (f : Float) where
    open f use {F64}

    generate_s-IsSparseMatrix :
        (m n : ℕ) (mu : F64) (s : State)
        → n ≤ 2 ^ 32
        → (r : SparseMatrix × State) × (generate_s g f m n mu s ≡ some r) × IsSparseMatrix m n r.0
    unfolding generate_s
    generate_s-IsSparseMatrix m n mu s narrow =
        let (v, run, a) =
          for_loop_inv (AreRows n)
            (λ i v. sample_sparse_pm1 g f n mu v.1 >>= λ r. some (v.0 ++ r.0 ∷ [], r.1)) m
            (λ i v hi a.
              let (r, run, ok, _, _) = sample_sparse_pm1_lem g f n mu v.1 narrow in
              (
                (v.0 ++ r.0 ∷ [], r.1),
                rw run,
                record {
                  count = omega (arith, length-append {A = SparseVec} v.0 (r.0 ∷ []), a.count);
                  sparse = λ k hk. AreRows-push n i v.0 r.0 a.count a.sparse ok k hk;
                },
              ))
            ([], s) (record { count = refl; sparse = λ k hk. absurd (omega arith) }) in
        (
          (record { m = m; n = n; rows = v.0 }, v.1),
          rw run,
          record { count = a.count; sparse = a.sparse },
        )

    -- H is an m by n1 matrix of reduced entries, and S has m sparse rows of width n, at most 2^32.
    pub regenerate_h_s-shapes :
        (fuel : ℕ) (h_seed : List ℕ) (m n n1 : ℕ) (mu : F64)
        → Accepts g fuel
        → n ≤ 2 ^ 32
        → (r : List ℕ × SparseMatrix) × (regenerate_h_s g f fuel h_seed m n n1 mu ≡ some r)
          × IsMatrix m n1 r.0
          × IsSparseMatrix m n r.1
    unfolding regenerate_h_s
    regenerate_h_s-shapes fuel h_seed m n n1 mu accepts narrow =
        let (h, run, size, reduced) = sample_fps_lem g fuel (m * n1) (g.from_seed h_seed) accepts in
        let (s, run', ok) = generate_s-IsSparseMatrix m n mu h.1 narrow in
        ((h.0, s.0), rw (run, run'), record { shape = size; reduced = reduced }, ok)
