-- ===== src/Bntm/Params.antt =====
-- scorer-bntm/src/params.rs: the hardness parameters.
use secure_vector_search.Prelude.{
  ℕ, ◌+◌, ◌-◌, ◌*◌, ◌/◌, ◌^◌, ◌≤◌, arith, leb, ◌&&◌, shr, Option, some, assert, ◌>>◌,
}
use secure_vector_search.Float.{Float}

pub data BnTmParams : Type 0 where
  sec128 : BnTmParams
  sec128_delta : ℕ → BnTmParams

unfoldable pub delta_pow2 : BnTmParams → ℕ
delta_pow2 sec128 = 3
delta_pow2 (sec128_delta k) = k

unfoldable pub dimension : BnTmParams → ℕ
dimension params = 1024

-- A column fits the 32 bits of an index.
pub dimension-le : (params : BnTmParams) → dimension params ≤ 2 ^ 32
unfolding dimension
dimension-le params = omega arith

abbrev pub field_bytes : ℕ
field_bytes = 8

-- `div_ceil`
unfoldable pub verification_trials : BnTmParams → ℕ
verification_trials params =
    let log2_ring_lower = 8 * field_bytes - 4 in (128 + log2_ring_lower - 1) / log2_ring_lower

module _ (f : Float) where
  open f use {F64, decimal, of_u64, sub, mul, div, powf, lt}

  unfoldable pub delta : BnTmParams → F64
  unfolding delta_pow2
  delta params = div (decimal 1 0) (of_u64 (2 ^ delta_pow2 params))

  unfoldable pub epsilon : BnTmParams → F64
  epsilon params = decimal 7 1

  unfoldable pub mu : BnTmParams → F64
  unfolding dimension epsilon
  mu params = powf (of_u64 (dimension params)) (sub (epsilon params) (decimal 1 0))

  -- Both assertions, then the shift.
  unfoldable pub subspace_dimension : BnTmParams → Option ℕ
  unfolding delta_pow2 dimension delta mu
  subspace_dimension params = do
    let k = delta_pow2 params
    assert (leb 1 k && leb k 4)
    let floor = div (decimal 1 0) (mul (of_u64 (dimension params)) (mu params))
    assert (lt floor (delta params))
    some (shr (dimension params) k)
