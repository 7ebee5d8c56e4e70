-- ===== src/Bntm/Sparse.antt =====
-- scorer-bntm/src/crypto.rs: sparse vectors and matrices with entries in {-1, 0, +1}, and the
-- products with them.
pub mod Search
pub mod Dense
pub mod Products
pub mod Columns
use secure_vector_search.Prelude.{
  ℕ, zero, suc, ◌+◌, ◌-◌, ◌*◌, ◌/◌, ◌<◌, min, ltb, ◌==◌, if◌then◌else◌, ℤ, pos, negsuc, List, [],
  length, get_elem?, set, map, replicate, Option, some, none, ◌>>=◌, for_loop, collect,
}
use secure_vector_search.Bntm.Field.{add_mod, sub_mod}

pub record SparseVec : Type 0 where
  pub n : ℕ
  pub idx : List ℕ
  pub sign : List ℤ

pub record SparseMatrix : Type 0 where
  pub m : ℕ
  pub n : ℕ
  pub rows : List SparseVec

unfoldable pub empty_matrix : ℕ → ℕ → SparseMatrix
empty_matrix m n = record {
  m = m;
  n = n;
  rows = replicate m (record { n = n; idx = []; sign = [] });
}

-- `match sign { 1 => …, -1 => …, _ => … }`
abbrev pub match_sign {ℓ} : {A : Type ℓ} → ℤ → A → A → A → A
match_sign (pos (suc zero)) plus minus other = plus
match_sign (negsuc zero) plus minus other = minus
match_sign _ plus minus other = other

-- The loop of the standard library's `binary_search`: `size` candidates from `base` on, the fuel
-- being the length of the list.
unfoldable pub search_loop : ℕ → List ℕ → ℕ → ℕ → ℕ → Option ℕ
search_loop zero xs key base size = some base
search_loop (suc fuel) xs key base size =
    let rest = get_elem? xs (base + size / 2) >>= λ x.
    search_loop fuel xs key (if ltb key x then base else base + size / 2) (size - size / 2) in
    if ltb 1 size then rest else some base

-- `none` is `Err`; an index out of range does not occur.
unfoldable pub binary_search : List ℕ → ℕ → Option ℕ
binary_search xs key = do
  base ← search_loop (length xs) xs key 0 (length xs)
  x ← get_elem? xs base
  (if x == key then some base else none)

-- The outer `none` is a panic.
unfoldable pub sparse_lookup : SparseVec → ℕ → Option ℤ
sparse_lookup row col = elim (binary_search row.idx col) [
  | some position ↦ get_elem? row.sign position
  | none ↦ some (pos 0)
]

-- Row `i` of one column, added to or taken from the output.
unfoldable pub update_cell : (ℕ → ℕ → ℕ) → List ℕ → ℕ → ℕ → ℕ → List ℕ → Option (List ℕ)
update_cell op mat cols col i out = do
  x ← get_elem? out i
  y ← get_elem? mat (i * cols + col)
  some (set out i (op x y))

-- Entry `e` of the sparse vector.
unfoldable pub update_column : List ℕ → ℕ → ℕ → SparseVec → ℕ → List ℕ → Option (List ℕ)
update_column mat rows cols t e out = do
  col ← get_elem? t.idx e
  s ← get_elem? t.sign e
  match_sign s (for_loop rows (update_cell add_mod mat cols col) out)
      (for_loop rows (update_cell sub_mod mat cols col) out) (some out)

unfoldable pub dense_times_sparse : List ℕ → ℕ → ℕ → SparseVec → Option (List ℕ)
dense_times_sparse mat rows cols t =
    for_loop (min (length t.idx) (length t.sign)) (update_column mat rows cols t) (replicate rows 0)

unfoldable pub sparse_row_step : SparseVec → List ℕ → ℕ → ℕ → Option ℕ
sparse_row_step row v e acc = do
  j ← get_elem? row.idx e
  s ← get_elem? row.sign e
  x ← get_elem? v j
  some (match_sign s (add_mod acc x) (sub_mod acc x) acc)

unfoldable pub sparse_row_times_dense : SparseVec → List ℕ → Option ℕ
sparse_row_times_dense row v =
    for_loop (min (length row.idx) (length row.sign)) (sparse_row_step row v) 0

unfoldable pub sparse_times_dense : SparseMatrix → List ℕ → Option (List ℕ)
sparse_times_dense s v =
    collect (length s.rows) λ i. do row ← get_elem? s.rows i; sparse_row_times_dense row v
