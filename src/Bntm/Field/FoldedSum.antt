-- ===== src/Bntm/Field/FoldedSum.antt =====
-- The accumulator that every dense kernel of crypto.rs runs: a u128 that is folded after each 32
-- products, and once more at the end.
pub mod Mod
use secure_vector_search.Prelude.{
  ℕ, ◌+◌, ◌*◌, ◌%◌, ◌^◌, bit_and, ◌==◌, if◌then◌else◌, u128, Option, some, none, ◌>>=◌, for_loop,
}
use secure_vector_search.Bntm.Field.{mersenne_reduce}

-- One round: `acc += product; if j & 31 == 31 { acc = mersenne_reduce(acc) as u128; }`
unfoldable pub mac_step : ℕ → ℕ → ℕ → ℕ
mac_step j product acc =
    let sum = u128 (acc + product) in if bit_and j 31 == 31 then mersenne_reduce sum else sum

unfoldable pub folded_sum : ℕ → (ℕ → Option ℕ) → Option ℕ
folded_sum n product = do
  acc ← for_loop n (λ j acc. do t ← product j; some (mac_step j t acc)) 0
  some (mersenne_reduce acc)
