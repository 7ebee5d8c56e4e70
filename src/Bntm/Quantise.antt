-- ===== src/Bntm/Quantise.antt =====
-- scorer-bntm/src/crypto.rs: between f32 components, field elements and signed scores.
pub mod Vector
pub mod Signed
use secure_vector_search.Prelude.{
  ℕ, suc, ◌-◌, ◌/◌, ◌%◌, ltb, ◌==◌, if◌then◌else◌, ℤ, pos, negsuc, sub_ℕ, List, length, get_elem?,
  set, replicate, Option, some, none, ◌>>=◌, assert, ◌>>◌, for_loop,
}
use secure_vector_search.Float.{Float}
use secure_vector_search.Bntm.Field.{field_p}

-- A rounded component as a field element: `-k` is p - k.
unfoldable pub wrap_signed : ℤ → ℕ
wrap_signed (pos n) = n % field_p
wrap_signed (negsuc n) = let r = suc n % field_p in if r == 0 then 0 else field_p - r

unfoldable pub fp_to_signed : ℕ → ℤ
fp_to_signed s = if ltb s (field_p / 2) then pos s else sub_ℕ s field_p

module _ (f : Float) where
  open f use {F32, F64, of_u64, of_f32, mul, round_i64}

  unfoldable pub quantise_entry : List F32 → ℕ → ℕ → List ℕ → Option (List ℕ)
  quantise_entry v q i out = do
    x ← get_elem? v i
    assert (ltb i (length out))
    some (set out i (wrap_signed (round_i64 (mul (of_f32 x) (of_u64 q)))))

  unfoldable pub quantise_vector : List F32 → ℕ → ℕ → Option (List ℕ)
  quantise_vector v n q = for_loop (length v) (quantise_entry v q) (replicate n 0)
