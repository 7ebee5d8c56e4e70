-- ===== src/Bntm/Field/Reduce.antt =====
-- The word operations agree with arithmetic modulo p.
use secure_vector_search.Prelude.{ℕ, ◌+◌, ◌/◌, ◌%◌, ◌^◌, ◌<◌, bit_and, ◌≡◌, arith, bit_and_mask}
use secure_vector_search.Bntm.Field.{field_p, mersenne_reduce}

low61 : (x : ℕ) → bit_and x field_p ≡ x % 2 ^ 61
low61 x = bit_and_mask 61 x

-- On every u128 the two foldings and two subtractions give the remainder modulo p.
pub mersenne_reduce-eq-mod : (x : ℕ) → x < 2 ^ 128 → mersenne_reduce x ≡ x % field_p
unfolding mersenne_reduce
mersenne_reduce-eq-mod x h = ground (arith, low61 x, low61 ((x % 2 ^ 61 + x / 2 ^ 61) % 2 ^ 128))
