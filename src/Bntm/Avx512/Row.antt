-- ===== src/Bntm/Avx512/Row.antt =====
-- The AVX-512 row kernel computes what the scalar one does.
use secure_vector_search.Prelude.{
  ℕ, ◌+◌, ◌*◌, ◌/◌, ◌%◌, ◌^◌, ◌≤◌, ◌<◌, ◌≡◌, refl, ap, ap₂, ◌∙◌, sym, arith, List, some, length,
  nth, sum, sum_congr, sum_congr_mod, sum-add, mul-sum, sum-le, for_loop_inv, le→leb,
}
use secure_vector_search.Bntm.Field.{field_p, IsField, mersenne_reduce}
use secure_vector_search.Bntm.Field.Reduce.{mersenne_reduce-eq-mod}
use secure_vector_search.Bntm.Avx512.{
  Register, set1, Accumulators, accumulate, loadu_si512, avx512_loop, lane_sum, recombine,
  avx512_row_dot,
}
use secure_vector_search.Bntm.Avx512.Lane.{IsLane, accumulate-IsLane, low, high, cross}
use secure_vector_search.Bntm.Avx512.Blocks.{sum-lanes}

loadu_lem :
    (xs : List ℕ) (j : ℕ) → j + 8 ≤ length xs → loadu_si512 xs j ≡ some (λ k. nth xs (j + k))
loadu_lem xs j h = rw (le→leb (j + 8) (length xs) h)

start : Accumulators
start = record { acc_ll = set1 0; acc_cross = set1 0; acc_hh = set1 0 }

module _ (row v : List ℕ) (q : ℕ) (fits_row : 8 * q ≤ length row) (fits_v : 8 * q ≤ length v)
    (reduced_row : IsField row) (reduced_v : IsField v) where
  abbrev AllLanes : ℕ → Accumulators → Type 0
  AllLanes c s = (k : ℕ) → IsLane (λ i. nth row (8 * i + k)) (λ i. nth v (8 * i + k)) k c s

  loop_lanes : (s : Accumulators) × (avx512_loop row v (8 * q) ≡ some s) × AllLanes q s
  unfolding avx512_loop sum
  loop_lanes =
      let rounds : (8 * q + 7) / 8 ≡ q = omega arith in
      rw rounds (
        for_loop_inv AllLanes _ q
          (λ c s hc lanes. (
            accumulate (set1 field_p) (8 * c) (λ k. nth row (8 * c + k)) (λ k. nth v (8 * c + k)) s,
            rw (loadu_lem row (8 * c) (omega arith), loadu_lem v (8 * c) (omega arith)),
            λ k.
                accumulate-IsLane _ _ k c _ _ s refl refl (reduced_row (8 * c + k))
                  (reduced_v (8 * c + k)) (lanes k),
          ))
          _ (λ k. omega arith))

lane_sum-eq : (r : Register) → ((k : ℕ) → k < 8 → r k < 2 ^ 63) → lane_sum r ≡ sum 8 r
unfolding lane_sum
lane_sum-eq r h = omega (arith, sum-le 8 (2 ^ 63) r (λ k hk. omega (arith, h k hk)))

halves : (a : ℕ) → a ≡ low a + 2 ^ 32 * high a
halves a = omega arith

split_product : (a b : ℕ) → a * b ≡ low a * low b + 2 ^ 32 * cross a b + 2 ^ 64 * (high a * high b)
split_product a b = omega (arith, ap₂ ◌*◌ (halves a) (halves b))

-- Sums of the three kinds of partial product, recombined.
split_sum :
    (n : ℕ) (f g : ℕ → ℕ)
    → sum n (λ i. f i * g i)
      ≡ sum n (λ i. low (f i) * low (g i))
        + 2 ^ 32 * sum n (λ i. cross (f i) (g i))
        + 2 ^ 64 * sum n (λ i. high (f i) * high (g i))
split_sum n f g =
    sum_congr n _ _ (λ i l. split_product (f i) (g i))
    ∙ sum-add n _ (λ i. 2 ^ 64 * (high (f i) * high (g i)))
    ∙ omega (
      arith,
      sum-add n (λ i. low (f i) * low (g i)) (λ i. 2 ^ 32 * cross (f i) (g i)),
      mul-sum n (2 ^ 32) (λ i. cross (f i) (g i)),
      mul-sum n (2 ^ 64) (λ i. high (f i) * high (g i)),
    )

-- The three accumulators hold the three partial sums over the 8 * q columns.
record HoldsSums (n : ℕ) (f g : ℕ → ℕ) (s : Accumulators) : Type 0 where
  ll : lane_sum s.acc_ll % field_p ≡ sum n (λ i. low (f i) * low (g i)) % field_p
  ll_fits : lane_sum s.acc_ll < 2 ^ 128
  mid : lane_sum s.acc_cross % field_p ≡ sum n (λ i. cross (f i) (g i)) % field_p
  mid_fits : lane_sum s.acc_cross < 2 ^ 128
  hh : lane_sum s.acc_hh % field_p ≡ sum n (λ i. high (f i) * high (g i)) % field_p
  hh_fits : lane_sum s.acc_hh < 2 ^ 128

recombine-HoldsSums :
    (n : ℕ) (f g : ℕ → ℕ) (s : Accumulators)
    → HoldsSums n f g s
    → recombine s ≡ sum n (λ i. f i * g i) % field_p
unfolding recombine
recombine-HoldsSums n f g s h =
    let e1 = mersenne_reduce-eq-mod (lane_sum s.acc_ll) h.ll_fits in
    let e2 = mersenne_reduce-eq-mod (lane_sum s.acc_cross) h.mid_fits in
    let e3 = mersenne_reduce-eq-mod (lane_sum s.acc_hh) h.hh_fits in
    let total =
      lane_sum s.acc_ll % field_p
      + lane_sum s.acc_cross % field_p * 2 ^ 32
      + lane_sum s.acc_hh % field_p * 8 in
    rw (e1, e2, e3)
      (ap mersenne_reduce {y = total} (omega arith)
        ∙ mersenne_reduce-eq-mod total (omega arith)
        ∙ omega (arith, h.ll, h.mid, h.hh, split_sum n f g))

module _ (q : ℕ) where
  lane_total :
      (r : Register) (w : ℕ → ℕ)
      → ((k : ℕ) → r k % field_p ≡ sum q (λ c. w (8 * c + k)) % field_p)
      → ((k : ℕ) → r k < 2 ^ 63)
      → lane_sum r % field_p ≡ sum (8 * q) w % field_p
  lane_total r w same small =
      ap (λ (t : ℕ). t % field_p) (lane_sum-eq r (λ k hk. small k))
      ∙ sum_congr_mod field_p 8 r (λ k. sum q (λ c. w (8 * c + k))) (λ k hk. same k)
      ∙ ap (λ (t : ℕ). t % field_p) (sym (sum-lanes q w))

module _ (row v : List ℕ) (q : ℕ) (fits_row : 8 * q ≤ length row) (fits_v : 8 * q ≤ length v)
    (reduced_row : IsField row) (reduced_v : IsField v) where
  lanes_hold :
      (s : Accumulators)
      → AllLanes row v q fits_row fits_v reduced_row reduced_v q s
      → HoldsSums (8 * q) (nth row) (nth v) s
  lanes_hold s lanes =
      let fits : (r : Register) → ((k : ℕ) → r k < 2 ^ 63) → lane_sum r < 2 ^ 128 = λ r h.
        omega
          (arith, lane_sum-eq r (λ k hk. h k), sum-le 8 (2 ^ 63) r (λ k hk. omega (arith, h k))) in
      let ll_small : (k : ℕ) → s.acc_ll k < 2 ^ 63 = λ k. omega (arith, (lanes k).ll_bound) in
      let mid_small : (k : ℕ) → s.acc_cross k < 2 ^ 63 =
        λ k. omega (arith, (lanes k).cross_bound) in
      let hh_small : (k : ℕ) → s.acc_hh k < 2 ^ 63 = λ k. omega (arith, (lanes k).hh_bound) in
      record {
        ll = lane_total q s.acc_ll _ (λ k. (lanes k).ll_mod) ll_small;
        ll_fits = fits s.acc_ll ll_small;
        mid = lane_total q s.acc_cross _ (λ k. (lanes k).cross_mod) mid_small;
        mid_fits = fits s.acc_cross mid_small;
        hh = lane_total q s.acc_hh _ (λ k. (lanes k).hh_mod) hh_small;
        hh_fits = fits s.acc_hh hh_small;
      }

  -- The vectorised dot product of the first 8 q entries is the exact sum modulo p, when both rows
  -- have that many entries and all are reduced.
  pub avx512_row_dot-eq-sum :
      avx512_row_dot row v (8 * q) ≡ some (sum (8 * q) (λ j. nth row j * nth v j) % field_p)
  unfolding avx512_row_dot
  avx512_row_dot-eq-sum =
      let (s, run, lanes) = loop_lanes row v q fits_row fits_v reduced_row reduced_v in
      rw run (ap some (recombine-HoldsSums (8 * q) (nth row) (nth v) s (lanes_hold s lanes)))
