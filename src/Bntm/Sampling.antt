-- ===== src/Bntm/Sampling.antt =====
-- scorer-bntm/src/crypto.rs: sampling field elements and sparse vectors, and the derivation of
-- the key material.
pub mod Shape
pub mod Columns
use secure_vector_search.Prelude.{
  ℕ, zero, suc, ◌+◌, ◌-◌, ◌*◌, ◌/◌, ◌%◌, ◌^◌, min, bit_and, bit_xor, ltb, u32, ◌==◌, if◌then◌else◌,
  ℤ, pos, negsuc, List, [], ◌∷◌, ◌++◌, length, set, get_elem?, Option, some, none, ◌>>=◌, for_loop,
}
use secure_vector_search.Rng.{Rng}
use secure_vector_search.Float.{Float}
use secure_vector_search.Bntm.Field.{field_p}
use secure_vector_search.Bntm.Sparse.{SparseVec, SparseMatrix}

-- `out[i % 32] ^= b`
unfoldable pub separate_byte : List ℕ → ℕ → List ℕ → Option (List ℕ)
separate_byte tag i out = do
  b ← get_elem? tag i
  x ← get_elem? out (i % 32)
  some (set out (i % 32) (bit_xor x b))

module _ (g : Rng) where
  open g use {State, from_seed, next_u64, next_u32, random_seed}

  -- The tag mixed into the seed, then the first 32 bytes of a fresh generator.
  unfoldable pub domain_separate : List ℕ → List ℕ → Option (List ℕ)
  domain_separate seed tag = do
    out ← for_loop (length tag) (separate_byte tag) seed
    some (random_seed (from_seed out)).0

  -- The rejection loop, with fuel: `none` means that every draw was p.
  unfoldable pub sample_fp : ℕ → State → Option (ℕ × State)
  sample_fp zero s = none
  sample_fp (suc fuel) s =
      let x = bit_and (next_u64 s).0 field_p in
      let again = sample_fp fuel (next_u64 s).1 in
      if ltb x field_p then some (x, (next_u64 s).1) else again

  -- `(0..count).map(|_| sample_fp(rng)).collect()`
  unfoldable pub sample_fps : ℕ → ℕ → State → Option (List ℕ × State)
  sample_fps fuel count s =
      for_loop count (λ i (xs, s'). do (x, s'') ← sample_fp fuel s'; some (xs ++ x ∷ [], s''))
        ([], s)

  -- One column of `sample_sparse_pm1`.
  unfoldable pub sample_entry : ℕ → ℕ → List ℕ × List ℤ × State → List ℕ × List ℤ × State
  sample_entry threshold j (idx, sign, s) =
      let (r, s1) = next_u32 s in
      let (b, s2) = next_u32 s1 in
      if ltb r threshold
      then (idx ++ u32 j ∷ [], sign ++ (if bit_and b 1 == 0 then negsuc 0 else pos 1) ∷ [], s2)
      else (idx, sign, s1)

  module _ (f : Float) where
    open f use {F64, of_u64, to_u64, mul}

    abbrev pub sparse_threshold : F64 → ℕ
    sparse_threshold mu = min (to_u64 (mul mu (of_u64 (2 ^ 32)))) (2 ^ 32 - 1)

    unfoldable pub sample_sparse_pm1 : ℕ → F64 → State → Option (SparseVec × State)
    sample_sparse_pm1 n mu s = do
      (idx, sign, s') ←
          for_loop n (λ j v. some (sample_entry (sparse_threshold mu) j v)) ([], [], s)
      some (record { n = n; idx = idx; sign = sign }, s')

    unfoldable pub generate_s : ℕ → ℕ → F64 → State → Option (SparseMatrix × State)
    generate_s m n mu s = do
      (rows, s') ←
          for_loop m
            (λ i (rows, s'). do
              (row, s'') ← sample_sparse_pm1 n mu s'
              some (rows ++ row ∷ [], s''))
            ([], s)
      some (record { m = m; n = n; rows = rows }, s')

    -- H first, then S, from one generator.
    unfoldable pub regenerate_h_s : ℕ → List ℕ → ℕ → ℕ → ℕ → F64 → Option (List ℕ × SparseMatrix)
    regenerate_h_s fuel h_seed m n n1 mu = do
      (h, s1) ← sample_fps fuel (m * n1) (from_seed h_seed)
      (s, _) ← generate_s m n mu s1
      some (h, s)

  unfoldable pub generate_subspace : ℕ → List ℕ → ℕ → ℕ → Option (List ℕ)
  generate_subspace fuel key_seed n n1 = do
    (l, _) ← sample_fps fuel (n * n1) (from_seed key_seed)
    some l
