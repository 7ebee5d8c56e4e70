-- ===== src/Tiptoe/Encoding/Tests.antt =====
-- Four magnitude bits and a modulus of 2^17, with whole numbers for floats.
use secure_vector_search.Prelude.{
  ℕ, ◌-◌, ◌^◌, ◌/◌, ◌<◌, ◌≡◌, ◌↔◌, refl, arith, ℤ, negsuc, some, ◌>>=◌, ok,
}
use secure_vector_search.Tiptoe.Encoding.{
  clamp, validate_params, quantise_component, dequantise_component,
}
use secure_vector_search.Tiptoe.Encoding.Signed.{validate_params_iff, dequantise-quantise}

-- A float is an integer, which is scaled already.
abbrev as_is : ℤ → ℕ → ℤ
as_is x mag = x

four_bits : validate_params 4 17 ≡ ok tt
unfolding validate_params
four_bits = refl

dequantise-quantise_example :
    (quantise_component as_is as_is (negsuc 20) 4 (2 ^ 17) >>= λ z.
    dequantise_component as_is as_is z 4 (2 ^ 17))
    ≡ some (clamp (2 ^ 4 - 1) (negsuc 20))
dequantise-quantise_example =
    dequantise-quantise as_is as_is (negsuc 20) 4 16 (omega arith) four_bits

validate_params_iff_example : (validate_params 4 17 ≡ ok tt) ↔ (2 ^ 4 - 1 < 2 ^ 17 / 2)
validate_params_iff_example = validate_params_iff 4 16
