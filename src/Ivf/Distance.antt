-- ===== src/Ivf/Distance.antt =====
-- ivf-index/src/distance.rs: the distance, by the scalar and by the vectorised kernel. A register of
-- 16 lanes is the list of its lanes; what the crate wide does with the lanes is a parameter.
pub mod Unrolled
use secure_vector_search.Prelude.{
  ℕ, ◌+◌, ◌*◌, ◌/◌, leb, if◌then◌else◌, Bool, Option, none, some, ◌>>=◌, List, length, drop,
  replicate, zip_with, for_loop, slice,
}
use secure_vector_search.Float32.{Float32}

pub record Lanes (F32 : Type 0) : Type 0 where
  -- one lane of `x.mul_add(y, z)`
  pub mul_add : F32 → F32 → F32 → F32
  pub reduce_add : List F32 → F32
  -- `iter.sum::<f32>()`
  pub sum32 : List F32 → F32

module _ (fl : Float32) (lanes : Lanes fl.F32) where
  open fl use {F32, zero32, add, sub, mul, sqrt}
  open lanes use {mul_add, reduce_add, sum32}

  abbrev pub squares : List F32 → List F32 → List F32
  squares = zip_with (λ x y. mul (sub x y) (sub x y))

  unfoldable pub l2_f32_scalar : List F32 → List F32 → F32
  l2_f32_scalar a b = sqrt (sum32 (squares a b))

  abbrev pub multiply_add : List F32 → List F32 → List F32
  multiply_add = zip_with (λ x acc. mul_add x x acc)

  unfoldable pub chunk_step : List F32 → List F32 → ℕ → List F32 → Option (List F32)
  chunk_step a b c acc = do
    av ← slice a (c * 16) (c * 16 + 16)
    bv ← slice b (c * 16) (c * 16 + 16)
    some (multiply_add (zip_with sub av bv) acc)

  unfoldable pub l2_f32_simd : List F32 → List F32 → Option F32
  l2_f32_simd a b = do
    let chunks = length a / 16
    acc ← for_loop chunks (chunk_step a b) (replicate 16 zero32)
    let tail_start = chunks * 16
    b_tail ← (if leb tail_start (length b) then some (drop tail_start b) else none)
    some (sqrt (add (reduce_add acc) (sum32 (squares (drop tail_start a) b_tail))))

  -- `avx512f` says how the crate is built.
  unfoldable pub l2_f32 : Bool → List F32 → List F32 → Option F32
  l2_f32 avx512f a b = if avx512f then l2_f32_simd a b else some (l2_f32_scalar a b)
