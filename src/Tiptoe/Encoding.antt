-- ===== src/Tiptoe/Encoding.antt =====
-- scorer-tiptoe/src/encoding.rs: components as elements of Z_p, and back. The arithmetic on f32 is a
-- parameter.
pub mod Signed
mod Tests
use secure_vector_search.Prelude.{
  ℕ, suc, ◌-◌, ◌/◌, ◌%◌, ◌^◌, ltb, leb, ◌==◌, ◌||◌, if◌then◌else◌, Bool, ℤ, pos, negsuc, sub_ℕ,
  Option, some, none, ◌>>=◌, assert, ◌>>◌, Result, ok, err,
}

pub data EncodingError : Type 0 where
  quantisation_overflow : ℕ → ℕ → EncodingError
  non_finite : ℕ → EncodingError

-- `(1i32 << q) - 1`, which overflows from q = 31 on.
unfoldable pub max_magnitude : ℕ → Option ℕ
max_magnitude quantisation_bits = do
  assert (ltb quantisation_bits 31)
  some (2 ^ quantisation_bits - 1)

unfoldable pub validate_params : ℕ → ℕ → Result EncodingError (Unit {0})
validate_params quantisation_bits log2_p =
    if (log2_p == 0) || leb log2_p quantisation_bits
    then err (quantisation_overflow quantisation_bits log2_p)
    else ok tt

-- `z.clamp(-mag, mag)`
unfoldable pub clamp : ℕ → ℤ → ℤ
clamp mag (pos n) = if ltb mag n then pos mag else pos n
clamp mag (negsuc n) = if ltb mag (suc n) then sub_ℕ 0 mag else negsuc n

-- `z.rem_euclid(p as i64)`. The moduli are 2^log2_p with log2_p at most 63, hence not zero; the cast
-- keeps them, or changes the sign of 2^63, and the remainder does not depend on the sign.
unfoldable pub rem_euclid : ℤ → ℕ → ℕ
rem_euclid (pos n) p = n % p
rem_euclid (negsuc n) p = p - 1 - n % p

unfoldable pub signed_slot : ℕ → ℕ → ℤ
signed_slot z p = if leb (p / 2) z then sub_ℕ z p else pos z

-- `scale x mag` is `(x * mag as f32).round() as i64`, and `ratio z mag` is `z as f32 / mag`.
module _ {F32 : Type 0} (scale : F32 → ℕ → ℤ) (ratio : ℤ → ℕ → F32) where
  unfoldable pub quantise_component : F32 → ℕ → ℕ → Option ℕ
  quantise_component x quantisation_bits p = do
    mag ← max_magnitude quantisation_bits
    some (rem_euclid (clamp mag (scale x mag)) p)

  unfoldable pub dequantise_component : ℕ → ℕ → ℕ → Option F32
  dequantise_component z quantisation_bits p = do
    mag ← max_magnitude quantisation_bits
    some (ratio (signed_slot z p) mag)
