-- ===== src/Bntm/Field/FoldedSum/Mod.antt =====
-- The folded accumulator never overflows, and gives the sum of the products modulo p.
use secure_vector_search.Prelude.{
  ℕ, suc, ◌+◌, ◌-◌, ◌*◌, ◌%◌, ◌≤◌, ◌<◌, ◌≡◌, ap, arith, bit_and_mask, Option, some, sum,
  for_loop_inv, ◌>>=◌,
}
use secure_vector_search.Bntm.Field.{field_p}
use secure_vector_search.Bntm.Field.Reduce.{mersenne_reduce-eq-mod}
use secure_vector_search.Bntm.Field.FoldedSum.{mac_step, folded_sum}

-- The largest product of two reduced factors.
abbrev pub square_bound : ℕ
square_bound = (field_p - 1) * (field_p - 1)

-- The accumulator after `j` rounds.
pub record IsPartial (g : ℕ → ℕ) (j acc : ℕ) : Type 0 where
  pub congruent : acc % field_p ≡ sum j g % field_p
  pub bounded : acc ≤ field_p + j % 32 * square_bound

pub IsPartial-mac_step :
    (g : ℕ → ℕ) (j acc : ℕ)
    → g j ≤ square_bound
    → IsPartial g j acc
    → IsPartial g (suc j) (mac_step j (g j) acc)
unfolding mac_step sum
IsPartial-mac_step g j acc small h =
    ground (arith, bit_and_mask 5 j, mersenne_reduce-eq-mod (acc + g j))

-- If no factor is out of range and each product is that of two reduced numbers, no u128 overflow
-- occurs and the result is the sum modulo p.
pub folded_sum-eq-sum :
    (n : ℕ) (product : ℕ → Option ℕ) (g : ℕ → ℕ)
    → ((j : ℕ) → j < n → product j ≡ some (g j))
    → ((j : ℕ) → j < n → g j ≤ square_bound)
    → folded_sum n product ≡ some (sum n g % field_p)
unfolding folded_sum sum
folded_sum-eq-sum n product g reads small =
    let (acc, run, inv) =
      for_loop_inv (IsPartial g) (λ j acc. (product j) >>= (λ t. some (mac_step j t acc))) n
        (λ j acc l inv.
          (mac_step j (g j) acc, rw (reads j l), IsPartial-mac_step g j acc (small j l) inv))
        0 (omega arith) in
    rw run (ap some (omega (arith, inv.congruent, inv.bounded, mersenne_reduce-eq-mod acc)))
