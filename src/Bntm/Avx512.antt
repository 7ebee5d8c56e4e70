-- ===== src/Bntm/Avx512.antt =====
-- scorer-bntm/src/crypto.rs: the AVX-512 row kernel. A register is its eight u64 lanes; each
-- intrinsic is the lane-wise function that its documentation gives.
pub mod Lane
pub mod Blocks
pub mod Row
use secure_vector_search.Prelude.{
  ℕ, ◌+◌, ◌*◌, ◌/◌, ◌%◌, ◌^◌, bit_and, leb, ◌==◌, if◌then◌else◌, u64, u128, shr, List, Option, some,
  none, ◌>>=◌, collect, slice, length, nth, for_loop, sum,
}
use secure_vector_search.Bntm.Field.{field_p, mersenne_reduce}

-- The lanes 0 to 7 of a __m512i.
abbrev pub Register : Type 0
Register = ℕ → ℕ

abbrev pub set1 : ℕ → Register
set1 x k = x

abbrev pub and_si512 : Register → Register → Register
and_si512 a b k = bit_and (a k) (b k)

abbrev pub srli_epi64 : ℕ → Register → Register
srli_epi64 bits a k = shr (a k) bits

abbrev pub add_epi64 : Register → Register → Register
add_epi64 a b k = u64 (a k + b k)

-- The product of the low halves.
abbrev pub mul_epu32 : Register → Register → Register
mul_epu32 a b k = (a k % 2 ^ 32) * (b k % 2 ^ 32)

-- `none`: the eight lanes are not all inside the slice.
abbrev pub loadu_si512 : List ℕ → ℕ → Option Register
loadu_si512 xs j = if leb (j + 8) (length xs) then some (λ k. nth xs (j + k)) else none

unfoldable pub avx512_fold : Register → Register → Register
avx512_fold v mask = add_epi64 (and_si512 v mask) (srli_epi64 61 v)

pub record Accumulators : Type 0 where
  pub acc_ll : Register
  pub acc_cross : Register
  pub acc_hh : Register

unfoldable pub accumulate : Register → ℕ → Register → Register → Accumulators → Accumulators
accumulate mask j a_v b_v s =
    let a_hi_v = srli_epi64 32 a_v in
    let b_hi_v = srli_epi64 32 b_v in
    let prod_ll = mul_epu32 a_v b_v in
    let prod_lh = mul_epu32 a_v b_hi_v in
    let prod_hl = mul_epu32 a_hi_v b_v in
    let prod_hh = mul_epu32 a_hi_v b_hi_v in
    let prod_cross = add_epi64 prod_lh prod_hl in
    let hh = add_epi64 s.acc_hh prod_hh in
    record {
      acc_ll = avx512_fold (add_epi64 s.acc_ll (avx512_fold prod_ll mask)) mask;
      acc_cross = avx512_fold (add_epi64 s.acc_cross (avx512_fold prod_cross mask)) mask;
      acc_hh = if ((j + 8) / 8) % 8 == 0 then avx512_fold hh mask else hh;
    }

-- `while j < cols { …; j += 8 }` is a loop of ⌈cols / 8⌉ rounds, `j` being 8 times the round.
unfoldable pub avx512_loop : List ℕ → List ℕ → ℕ → Option Accumulators
avx512_loop row v cols =
    for_loop ((cols + 7) / 8)
      (λ c s. do
        a_v ← loadu_si512 row (8 * c)
        b_v ← loadu_si512 v (8 * c)
        some (accumulate (set1 field_p) (8 * c) a_v b_v s))
      (record { acc_ll = set1 0; acc_cross = set1 0; acc_hh = set1 0 })

-- The sum of the eight stored lanes, in a u128.
unfoldable pub lane_sum : Register → ℕ
lane_sum v = u128 (sum 8 v)

unfoldable pub recombine : Accumulators → ℕ
recombine s =
    let r_ll = mersenne_reduce (lane_sum s.acc_ll) in
    let r_cross = mersenne_reduce (lane_sum s.acc_cross) in
    let r_hh = mersenne_reduce (lane_sum s.acc_hh) in
    mersenne_reduce (u128 (r_ll + u128 (r_cross * 2 ^ 32) + u128 (r_hh * 8)))

unfoldable pub avx512_row_dot : List ℕ → List ℕ → ℕ → Option ℕ
avx512_row_dot row v cols = do s ← avx512_loop row v cols; some (recombine s)

unfoldable pub mersenne_matvec_avx512 : List ℕ → ℕ → ℕ → List ℕ → Option (List ℕ)
mersenne_matvec_avx512 mat rows cols vec =
    collect rows λ i. do row ← slice mat (i * cols) ((i + 1) * cols); avx512_row_dot row vec cols
