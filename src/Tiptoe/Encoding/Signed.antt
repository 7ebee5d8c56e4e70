-- ===== src/Tiptoe/Encoding/Signed.antt =====
-- Valid parameters keep the sign: a slot read back is the clamped integer.
use native.Mathlib.Nat.{pow-suc, pow-le-pow_right, one-le-pow, mod-eq_of_lt}
use secure_vector_search.Prelude.{
  ℕ, zero, suc, ◌-◌, ◌/◌, ◌%◌, ◌^◌, ◌≤◌, ◌<◌, ◌≡◌, ◌↔◌, refl, ap, arith, ltb, leb, ◌==◌, ◌||◌, true,
  false, Bool-cases, inl, inr, ℤ, pos, negsuc, sub_ℕ, some, ◌>>=◌, ok,
}
use secure_vector_search.Tiptoe.Encoding.{
  max_magnitude, validate_params, clamp, rem_euclid, signed_slot, quantise_component,
  dequantise_component,
}

validate_params_ok : (q log2_p : ℕ) → (validate_params q log2_p ≡ ok tt) ↔ (q < log2_p)
unfolding validate_params
validate_params_ok q log2_p = elim (Bool-cases ((log2_p == 0) || leb log2_p q)) [
  | inl e ↦
      rw (validate_params, e) ((λ h. absurd (ground (arith, h))), (λ h. absurd (ground arith)))
  | inr e ↦ rw (validate_params, e) ((λ h. ground arith), (λ h. refl))
]

half_of : (k : ℕ) → 2 ^ suc k / 2 ≡ 2 ^ k
half_of k = omega (arith, pow-suc 2 k)

-- The parameters are accepted exactly when the largest magnitude is below half the modulus.
pub validate_params_iff :
    (q k : ℕ) → (validate_params q (suc k) ≡ ok tt) ↔ (2 ^ q - 1 < 2 ^ suc k / 2)
validate_params_iff q k = (
  (λ h.
      let below : q < suc k = (validate_params_ok q (suc k)).0 h in
      omega (
        arith,
        half_of k,
        one-le-pow q 2 (omega arith),
        pow-le-pow_right {n = 2} (omega arith) {i = q} {j = k} (omega arith),
      )),
  (λ h. (validate_params_ok q (suc k)).1 (elim (Bool-cases (ltb q (suc k))) [
    | inl e ↦ ground arith
    | inr e ↦ absurd (
        omega (
          arith,
          half_of k,
          pow-suc 2 k,
          one-le-pow k 2 (omega arith),
          h,
          pow-le-pow_right {n = 2} (omega arith) {i = suc k} {j = q} (ground arith),
        ))
  ])),
)

slot_pos : (n p : ℕ) → n < p / 2 → signed_slot (rem_euclid (pos n) p) p ≡ pos n
unfolding rem_euclid signed_slot
slot_pos n p h =
    let low : leb (p / 2) n ≡ false = ground arith in
    let small : n % p ≡ n = mod-eq_of_lt (omega arith) in rw (small, low) refl

slot_neg : (n p : ℕ) → suc n < p / 2 → signed_slot (rem_euclid (negsuc n) p) p ≡ negsuc n
unfolding rem_euclid signed_slot
slot_neg n p h =
    let high : leb (p / 2) (p - 1 - n) ≡ true = ground arith in
    let below : leb p (p - 1 - n) ≡ false = ground arith in
    let small : n % p ≡ n = mod-eq_of_lt (omega arith) in
    rw (small, high, below) (ap negsuc (omega arith))

slot_low : (mag p : ℕ) → mag < p / 2 → signed_slot (rem_euclid (sub_ℕ 0 mag) p) p ≡ sub_ℕ 0 mag
slot_low zero p h = slot_pos 0 p h
slot_low (suc m) p h =
    let over : leb (suc m) 0 ≡ false = ground arith in
    let e : sub_ℕ 0 (suc m) ≡ negsuc m = rw over (ap negsuc (omega arith)) in rw e (slot_neg m p h)

-- A clamped integer survives the slot.
signed_slot-clamp :
    (z : ℤ) (mag p : ℕ) → mag < p / 2 → signed_slot (rem_euclid (clamp mag z) p) p ≡ clamp mag z
unfolding clamp
signed_slot-clamp (pos n) mag p h = elim (Bool-cases (ltb mag n)) [
  | inl e ↦ rw e (slot_pos mag p h)
  | inr e ↦ rw e (slot_pos n p (ground arith))
]
signed_slot-clamp (negsuc n) mag p h = elim (Bool-cases (ltb mag (suc n))) [
  | inl e ↦ rw e (slot_low mag p h)
  | inr e ↦ rw e (slot_neg n p (ground arith))
]

module _ {F32 : Type 0} (scale : F32 → ℕ → ℤ) (ratio : ℤ → ℕ → F32) where
  -- With accepted parameters of at most 30 bits, a component that is quantised and read back is the
  -- clamped integer over the magnitude: no sign is lost and nothing wraps.
  pub dequantise-quantise :
      (x : F32) (q k : ℕ)
      → q ≤ 30
      → validate_params q (suc k) ≡ ok tt
      → (quantise_component scale ratio x q (2 ^ suc k) >>= λ z.
          dequantise_component scale ratio z q (2 ^ suc k))
        ≡ some (ratio (clamp (2 ^ q - 1) (scale x (2 ^ q - 1))) (2 ^ q - 1))
  unfolding quantise_component dequantise_component max_magnitude
  dequantise-quantise x q k small valid =
      let narrow : ltb q 31 ≡ true = ground arith in
      rw
        (
          narrow,
          signed_slot-clamp (scale x (2 ^ q - 1)) (2 ^ q - 1) (2 ^ suc k)
              ((validate_params_iff q k).0 valid),
        )
        refl
