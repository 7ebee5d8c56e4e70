-- ===== src/Bntm/Field.antt =====
-- scorer-bntm/src/params.rs and crypto.rs: arithmetic modulo the Mersenne prime 2^61 - 1.
pub mod Reduce
pub mod Ops
pub mod FoldedSum
pub mod Vectors
use secure_vector_search.Prelude.{
  List, nth, ◌<◌, ℕ, ◌+◌, ◌-◌, ◌*◌, ◌/◌, ◌^◌, bit_and, leb, ltb, if◌then◌else◌, u64, u128, shr,
}

abbrev pub field_p : ℕ
field_p = 2 ^ 61 - 1

-- Both foldings, and the two conditional subtractions.
unfoldable pub mersenne_reduce : ℕ → ℕ
mersenne_reduce x =
    let lo1 = bit_and x field_p in
    let hi1 = shr x 61 in
    let s1 = u128 (lo1 + hi1) in
    let lo2 = u64 (bit_and s1 field_p) in
    let hi2 = u64 (shr s1 61) in
    let r = u64 (lo2 + hi2) in
    let r1 = if leb field_p r then r - field_p else r in if leb field_p r1 then r1 - field_p else r1

unfoldable pub add_mod : ℕ → ℕ → ℕ
add_mod a b = let s = u64 (a + b) in if leb field_p s then s - field_p else s

unfoldable pub sub_mod : ℕ → ℕ → ℕ
sub_mod a b = if leb b a then a - b else u64 (a + field_p) - b

unfoldable pub mul_mod : ℕ → ℕ → ℕ
mul_mod a b = mersenne_reduce (u128 (a * b))

-- A vector of reduced field elements.
abbrev pub IsField : List ℕ → Type 0
IsField xs = (i : ℕ) → nth xs i < field_p
