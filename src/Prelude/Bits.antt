-- ===== src/Prelude/Bits.antt =====
-- `&` with a mask of low bits, as a remainder.
use Prim.Native.Nat.{
  ℕ, zero, suc, ◌+◌, ◌-◌, ◌*◌, ◌/◌, ◌%◌, ◌^◌, ◌≤◌, min, bit_and, digits, bit_and-bitwise,
}
use mathlib.Core.Path.{◌≡◌, sym, ap, ◌∙◌}
use native.Mathlib.Nat.{
  pow-suc, one-le-pow, div-add-mod, mul-add-mod_self_left, mod-eq_of_lt, mod-lt,
}
use native.Mathlib.Omega.{arith}

-- The digits of the larger power are those of half the number, and the last one.
remainder_halved : (k a : ℕ) → a % 2 ^ suc k ≡ a / 2 % 2 ^ k * 2 + a % 2
remainder_halved k a =
    let unit = 2 ^ k in
    let h = a / 2 in
    ap (λ (t : ℕ). t % 2 ^ suc k)
      (omega (arith, div-add-mod h unit, ap (λ (t : ℕ). t * (h / unit)) (pow-suc 2 k)))
    ∙ mul-add-mod_self_left (2 ^ suc k) (h / unit) (h % unit * 2 + a % 2)
    ∙ mod-eq_of_lt (omega (arith, pow-suc 2 k, mod-lt h {m = unit} (one-le-pow k 2 (omega arith))))

-- The loop over the digits that defines `&`, at a mask of `k` ones, with enough fuel.
masked_digits : (fuel k a : ℕ) → a ≤ fuel → digits (λ _. zero) min fuel a (2 ^ k - 1) ≡ a % 2 ^ k
masked_digits zero k zero h = sym (mod-eq_of_lt (one-le-pow k 2 (omega arith)))
masked_digits zero k (suc a) h = absurd (omega arith)
masked_digits (suc fuel) k zero h = sym (mod-eq_of_lt (one-le-pow k 2 (omega arith)))
masked_digits (suc fuel) zero (suc a) h =
    omega (arith, masked_digits fuel zero (suc a / 2) (omega arith))
masked_digits (suc fuel) (suc k) (suc a) h =
    let pos = one-le-pow k 2 (omega arith) in
    let shifted : (2 ^ suc k - 1) / 2 ≡ 2 ^ k - 1 = omega (arith, pow-suc 2 k, pos) in
    rw shifted (
      omega (
        arith,
        masked_digits fuel k (suc a / 2) (omega arith),
        remainder_halved k (suc a),
        pow-suc 2 k,
        pos,
      ))

-- A mask of `k` low bits is the remainder by `2 ^ k`.
pub bit_and_mask : (k a : ℕ) → bit_and a (2 ^ k - 1) ≡ a % 2 ^ k
bit_and_mask k a = bit_and-bitwise a (2 ^ k - 1) ∙ masked_digits a k a (omega arith)
