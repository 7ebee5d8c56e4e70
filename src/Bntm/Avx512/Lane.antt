-- ===== src/Bntm/Avx512/Lane.antt =====
-- One lane of the AVX-512 kernel: no accumulator leaves 64 bits, and each holds its part of the
-- sum of products modulo p.
use secure_vector_search.Prelude.{
  ℕ, suc, ◌+◌, ◌-◌, ◌*◌, ◌/◌, ◌%◌, ◌^◌, ◌≤◌, ◌<◌, ◌≡◌, ap, ap₂, arith, bit_and_mask, sum,
  Bool-cases, inl, inr, ◌==◌,
}
use native.Mathlib.Nat.{mod-eq_of_lt, mul_comm}
use secure_vector_search.Bntm.Field.{field_p}
use secure_vector_search.Bntm.Avx512.{
  Register, set1, avx512_fold, Accumulators, accumulate, add_epi64, mul_epu32, srli_epi64,
}

abbrev pub low : ℕ → ℕ
low x = x % 2 ^ 32

abbrev pub high : ℕ → ℕ
high x = x / 2 ^ 32

abbrev pub cross : ℕ → ℕ → ℕ
cross x y = low x * high y + high x * low y

-- Folding a u64 keeps it modulo p, and leaves at most three bits above 61.
fold_lem :
    (v : Register) (k : ℕ)
    → v k < 2 ^ 64
    → (avx512_fold v (set1 field_p) k ≡ v k % 2 ^ 61 + v k / 2 ^ 61)
unfolding avx512_fold
fold_lem v k h = omega (arith, bit_and_mask 61 (v k))

-- Lane `k` after `c` rounds, `f c` and `g c` being the factors that round `c` loads into it.
pub record IsLane (f g : ℕ → ℕ) (k c : ℕ) (s : Accumulators) : Type 0 where
  pub ll_mod : s.acc_ll k % field_p ≡ sum c (λ i. low (f i) * low (g i)) % field_p
  pub ll_bound : s.acc_ll k ≤ 2 ^ 61 + 6
  pub cross_mod : s.acc_cross k % field_p ≡ sum c (λ i. cross (f i) (g i)) % field_p
  pub cross_bound : s.acc_cross k ≤ 2 ^ 61 + 6
  pub hh_mod : s.acc_hh k % field_p ≡ sum c (λ i. high (f i) * high (g i)) % field_p
  pub hh_bound : s.acc_hh k ≤ 2 ^ 61 + 6 + c % 8 * 2 ^ 58

mul_le : (x y m n : ℕ) → x ≤ m → y ≤ n → x * y ≤ m * n
mul_le x y m n h k = grind arith

low_mul-lt : (a b : ℕ) → low a * low b < 2 ^ 64
low_mul-lt a b =
    omega (arith, mul_le (low a) (low b) (2 ^ 32 - 1) (2 ^ 32 - 1) (omega arith) (omega arith))

half_mul-lt : (a b : ℕ) → b < field_p → low a * high b < 2 ^ 61
half_mul-lt a b hb =
    omega (arith, mul_le (low a) (high b) (2 ^ 32 - 1) (2 ^ 29 - 1) (omega arith) (omega arith))

high_mul-lt : (a b : ℕ) → a < field_p → b < field_p → high a * high b < 2 ^ 58
high_mul-lt a b ha hb =
    omega (arith, mul_le (high a) (high b) (2 ^ 29 - 1) (2 ^ 29 - 1) (omega arith) (omega arith))

module _ (f g : ℕ → ℕ) (k c : ℕ) (a b : Register) (s : Accumulators) (ea : a k ≡ f c)
    (eb : b k ≡ g c) (ha : f c < field_p) (hb : g c < field_p) (h : IsLane f g k c s) where
  abbrev mask : Register
  mask = set1 field_p

  abbrev after : Accumulators
  after = accumulate mask (8 * c) a b s

  abbrev prod_cross : Register
  prod_cross = add_epi64 (mul_epu32 a (srli_epi64 32 b)) (mul_epu32 (srli_epi64 32 a) b)

  ll_step :
      (after.acc_ll k % field_p ≡ sum (suc c) (λ i. low (f i) * low (g i)) % field_p)
      × (after.acc_ll k ≤ 2 ^ 61 + 6)
  unfolding accumulate sum
  ll_step =
      let product = ap₂ (λ (x y : ℕ). low x * low y) ea eb in
      let fits = low_mul-lt (a k) (b k) in
      let inner = fold_lem (mul_epu32 a b) k fits in
      let outer =
        fold_lem (add_epi64 s.acc_ll (avx512_fold (mul_epu32 a b) mask)) k (omega arith) in
      (omega (arith, h.ll_mod, h.ll_bound), omega (arith, h.ll_bound))

  cross_product : prod_cross k ≡ cross (f c) (g c)
  cross_product = omega (
    arith,
    ap₂ (λ (x y : ℕ). low x * (high y % 2 ^ 32)) ea eb,
    ap₂ (λ (x y : ℕ). high x % 2 ^ 32 * low y) ea eb,
    ap (λ (t : ℕ). low (f c) * t) (mod-eq_of_lt {n = high (g c)} {m = 2 ^ 32} (omega arith)),
    ap (λ (t : ℕ). t * low (g c)) (mod-eq_of_lt {n = high (f c)} {m = 2 ^ 32} (omega arith)),
    half_mul-lt (f c) (g c) hb,
    half_mul-lt (g c) (f c) ha,
    mul_comm (high (f c)) (low (g c)),
  )

  cross_step :
      (after.acc_cross k % field_p ≡ sum (suc c) (λ i. cross (f i) (g i)) % field_p)
      × (after.acc_cross k ≤ 2 ^ 61 + 6)
  unfolding accumulate sum
  cross_step =
      let fits : prod_cross k < 2 ^ 64 = omega (
        arith,
        cross_product,
        half_mul-lt (f c) (g c) hb,
        half_mul-lt (g c) (f c) ha,
        mul_comm (high (f c)) (low (g c)),
      ) in
      let inner = fold_lem prod_cross k fits in
      let outer = fold_lem (add_epi64 s.acc_cross (avx512_fold prod_cross mask)) k (omega arith) in
      (
        omega (arith, cross_product, h.cross_mod, h.cross_bound),
        omega (arith, cross_product, h.cross_bound),
      )

  hh_product : mul_epu32 (srli_epi64 32 a) (srli_epi64 32 b) k ≡ high (f c) * high (g c)
  hh_product = omega (
    arith,
    ap₂ (λ (x y : ℕ). high x % 2 ^ 32 * (high y % 2 ^ 32)) ea eb,
    ap (λ (t : ℕ). high (f c) % 2 ^ 32 * t)
        (mod-eq_of_lt {n = high (g c)} {m = 2 ^ 32} (omega arith)),
    ap (λ (t : ℕ). t * high (g c)) (mod-eq_of_lt {n = high (f c)} {m = 2 ^ 32} (omega arith)),
  )

  abbrev hh : Register
  hh = add_epi64 s.acc_hh (mul_epu32 (srli_epi64 32 a) (srli_epi64 32 b))

  hh_sum : hh k ≡ s.acc_hh k + high (f c) * high (g c)
  hh_sum = omega (arith, hh_product, high_mul-lt (f c) (g c) ha hb, h.hh_bound)

  hh_step :
      (after.acc_hh k % field_p ≡ sum (suc c) (λ i. high (f i) * high (g i)) % field_p)
      × (after.acc_hh k ≤ 2 ^ 61 + 6 + suc c % 8 * 2 ^ 58)
  unfolding accumulate sum
  hh_step =
      let small = high_mul-lt (f c) (g c) ha hb in
      let exact = hh_sum in
      let fits : hh k < 2 ^ 64 = omega (arith, h.hh_bound) in
      elim (Bool-cases (((8 * c + 8) / 8) % 8 == 0)) [
        | inl e ↦
            let last : suc c % 8 ≡ 0 = ground arith in
            rw e (
              omega (arith, fold_lem hh k fits, h.hh_mod, h.hh_bound),
              omega (arith, fold_lem hh k fits, h.hh_bound),
            )
        | inr e ↦
            let more : suc c % 8 ≡ c % 8 + 1 = ground arith in
            rw e (omega (arith, h.hh_mod), omega (arith, h.hh_bound))
      ]

  pub accumulate-IsLane : IsLane f g k (suc c) (accumulate (set1 field_p) (8 * c) a b s)
  accumulate-IsLane = record {
    ll_mod = ll_step.0;
    ll_bound = ll_step.1;
    cross_mod = cross_step.0;
    cross_bound = cross_step.1;
    hh_mod = hh_step.0;
    hh_bound = hh_step.1;
  }
