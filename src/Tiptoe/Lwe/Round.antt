-- ===== src/Tiptoe/Lwe/Round.antt =====
-- Rounding takes off a noise of less than half a step, of either sign.
use native.Mathlib.Nat.{one-le-pow, pow-suc, mul_assoc, mod-eq_of_lt, mul-add-div, div-eq_of_lt}
use secure_vector_search.Prelude.{
  ℕ, zero, suc, ◌+◌, ◌-◌, ◌*◌, ◌/◌, ◌%◌, ◌^◌, ◌≤◌, ◌<◌, ◌≡◌, ◌⊎◌, inl, inr, ap, ◌∙◌, arith,
}
use secure_vector_search.Tiptoe.Lwe.{Params, plaintext_modulus, delta, round}

-- The plaintext modulus divides the ciphertext modulus.
abbrev pub IsValid : Params → Type 0
IsValid params = (1 ≤ params.log2_p) × (params.log2_p ≤ 63)

-- A noise, as a 64-bit word, from -D/2 to D/2 - 1.
abbrev pub IsSmall : ℕ → ℕ → Type 0
IsSmall d e = (e < d / 2) ⊎ ((2 ^ 64 ≤ e + d / 2) × (e < 2 ^ 64))

pow_sum : (a b : ℕ) → 2 ^ a * 2 ^ b ≡ 2 ^ (a + b)
pow_sum a zero = let e : a + zero ≡ a = omega arith in rw e (omega arith)
pow_sum a (suc b) =
    let e : a + suc b ≡ suc (a + b) = omega arith in
    rw e (
      omega (
        arith,
        pow_sum a b,
        pow-suc 2 b,
        pow-suc 2 (a + b),
        mul_assoc (2 ^ a) (2 ^ b) 2,
        ap (λ (t : ℕ). 2 ^ a * t) (pow-suc 2 b),
      ))

step_fits : (d p m : ℕ) → m < p → d * m + d ≤ d * p
step_fits d p m h = grind arith

pub step_times_modulus :
    (params : Params) → IsValid params → delta params * plaintext_modulus params ≡ 2 ^ 64
unfolding delta plaintext_modulus
step_times_modulus params (lo, hi) =
    pow_sum (64 - params.log2_p) params.log2_p
    ∙ ap (λ (k : ℕ). 2 ^ k) {x = 64 - params.log2_p + params.log2_p} {y = 64} (omega arith)

round_quotient : (d p m r : ℕ) → r < d → m < p → (d * m + r) / d % p ≡ m
round_quotient d p m r hr hm =
    ap (λ (t : ℕ). t % p) (mul-add-div {m = d} (omega arith) m r ∙ omega (arith, div-eq_of_lt hr))
    ∙ mod-eq_of_lt hm

-- A step and a modulus whose product is the ciphertext modulus: the noise rounds away.
round_noise :
    (d p m e x : ℕ)
    → d * p ≡ 2 ^ 64
    → 2 ≤ d
    → d % 2 ≡ 0
    → m < p
    → IsSmall d e
    → x ≡ (d * m + e) % 2 ^ 64
    → (x + d / 2) % 2 ^ 64 / d % p ≡ m
round_noise d p m e x w d2 even hm (inl small) ex =
    let fits : d * m + d ≤ 2 ^ 64 = omega (arith, step_fits d p m hm) in
    let same : (x + d / 2) % 2 ^ 64 ≡ d * m + (e + d / 2) = omega arith in
    rw same (round_quotient d p m (e + d / 2) (omega arith) hm)
round_noise d p m e x w d2 even hm (inr (small, word)) ex =
    let fits : d * m + d ≤ 2 ^ 64 = omega (arith, step_fits d p m hm) in
    let same : (x + d / 2) % 2 ^ 64 ≡ d * m + (e + d / 2 - 2 ^ 64) = omega arith in
    rw same (round_quotient d p m (e + d / 2 - 2 ^ 64) (omega arith) hm)

-- The rounding of a message with small noise is the message.
pub round_lem :
    (params : Params) (m e x : ℕ)
    → IsValid params
    → m < plaintext_modulus params
    → IsSmall (delta params) e
    → x ≡ (delta params * m + e) % 2 ^ 64
    → round params x ≡ m
unfolding round delta plaintext_modulus
round_lem params m e x valid hm small ex =
    let half = 63 - params.log2_p in
    let double : delta params ≡ 2 ^ half * 2 =
      ap (λ (k : ℕ). 2 ^ k) {x = 64 - params.log2_p} {y = suc half} (omega arith)
      ∙ pow-suc 2 half in
    let pos = one-le-pow half 2 (omega arith) in
    round_noise (delta params) (plaintext_modulus params) m e x (step_times_modulus params valid)
      (omega (arith, double, pos)) (omega (arith, double)) hm small ex

pub plaintext_modulus-pos : (params : Params) → 1 ≤ plaintext_modulus params
unfolding plaintext_modulus
plaintext_modulus-pos params = one-le-pow params.log2_p 2 (omega arith)
