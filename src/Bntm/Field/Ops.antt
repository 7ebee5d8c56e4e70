-- ===== src/Bntm/Field/Ops.antt =====
-- `add_mod`, `sub_mod` and `mul_mod` are the operations of the field, on reduced operands.
use secure_vector_search.Prelude.{ℕ, ◌+◌, ◌-◌, ◌*◌, ◌%◌, ◌^◌, ◌<◌, ◌≡◌, arith}
use secure_vector_search.Bntm.Field.{field_p, add_mod, sub_mod, mul_mod}
use secure_vector_search.Bntm.Field.Reduce.{mersenne_reduce-eq-mod}

pub add_mod-eq-mod : (a b : ℕ) → a < field_p → b < field_p → add_mod a b ≡ (a + b) % field_p
unfolding add_mod
add_mod-eq-mod a b ha hb = ground arith

pub sub_mod-eq-mod :
    (a b : ℕ) → a < field_p → b < field_p → sub_mod a b ≡ (a + field_p - b) % field_p
unfolding sub_mod
sub_mod-eq-mod a b ha hb = ground arith

mul-lt : (a b : ℕ) → a < field_p → b < field_p → a * b < 2 ^ 122
mul-lt a b ha hb = grind arith

pub mul_mod-eq-mod : (a b : ℕ) → a < field_p → b < field_p → mul_mod a b ≡ a * b % field_p
unfolding mul_mod
mul_mod-eq-mod a b ha hb = ground (arith, mul-lt a b, mersenne_reduce-eq-mod (a * b))

pub sub_mod-lt : (a b : ℕ) → a < field_p → b < field_p → sub_mod a b < field_p
sub_mod-lt a b ha hb = omega (arith, sub_mod-eq-mod a b ha hb)

pub add_mod-lt : (a b : ℕ) → a < field_p → b < field_p → add_mod a b < field_p
add_mod-lt a b ha hb = omega (arith, add_mod-eq-mod a b ha hb)

-- Taking away what was added, when the sum is known only modulo p.
pub sub_mod_cancel :
    (r a x : ℕ) → r < field_p → a < field_p → r ≡ (x + a) % field_p → sub_mod r a ≡ x % field_p
sub_mod_cancel r a x hr ha e = omega (arith, sub_mod-eq-mod r a hr ha)
