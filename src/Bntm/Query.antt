-- ===== src/Bntm/Query.antt =====
-- scorer-bntm/src/crypto.rs: the encoding of a query.
pub mod Encoded
use secure_vector_search.Prelude.{
  ℕ, ◌+◌, ◌*◌, min, List, length, get_elem?, set, Option, some, none, ◌>>=◌, collect, slice,
  for_loop,
}
use secure_vector_search.Rng.{Rng}
use secure_vector_search.Float.{Float}
use secure_vector_search.Bntm.Field.{add_mod, sub_mod}
use secure_vector_search.Bntm.Field.FoldedSum.{folded_sum}
use secure_vector_search.Bntm.Matvec.{wide_product}
use secure_vector_search.Bntm.Sparse.{SparseVec, match_sign}
use secure_vector_search.Bntm.Sampling.{sample_fps, sample_sparse_pm1}

pub record QueryEncoded : Type 0 where
  pub v_enc : List ℕ
  pub g : List ℕ
  pub t : SparseVec

-- Entry `j` of L · G.
unfoldable pub mask_entry : List ℕ → ℕ → List ℕ → ℕ → Option ℕ
mask_entry l_subspace n1 g j = do
  l_row ← slice l_subspace (j * n1) ((j + 1) * n1)
  folded_sum n1 (λ k. wide_product l_row k g k)

unfoldable pub add_sparse_entry : SparseVec → ℕ → List ℕ → Option (List ℕ)
add_sparse_entry t e v_enc = do
  j ← get_elem? t.idx e
  s ← get_elem? t.sign e
  x ← get_elem? v_enc j
  some (set v_enc j (match_sign s (add_mod x 1) (sub_mod x 1) x))

unfoldable pub add_plain_entry : List ℕ → ℕ → List ℕ → Option (List ℕ)
add_plain_entry v j v_enc = do
  x ← get_elem? v_enc j
  y ← get_elem? v j
  some (set v_enc j (add_mod x y))

-- `v + L · G + T` for the sampled `G` and `T`.
unfoldable pub mask_query : List ℕ → List ℕ → ℕ → ℕ → List ℕ → SparseVec → Option (List ℕ)
mask_query v l_subspace n n1 g t = do
  lg ← collect n (mask_entry l_subspace n1 g)
  noisy ← for_loop (min (length t.idx) (length t.sign)) (add_sparse_entry t) lg
  for_loop n (add_plain_entry v) noisy

module _ (r : Rng) (f : Float) where
  open r use {State}
  open f use {F64}

  unfoldable pub encode_query :
      ℕ → List ℕ → List ℕ → State → ℕ → ℕ → F64 → Option (QueryEncoded × State)
  encode_query fuel v l_subspace rng n n1 mu = do
    (g, s1) ← sample_fps r fuel n1 rng
    (t, s2) ← sample_sparse_pm1 r f n mu s1
    v_enc ← mask_query v l_subspace n n1 g t
    some (record { v_enc = v_enc; g = g; t = t }, s2)
