-- ===== src/Ivf/Distance/Unrolled.antt =====
-- What the kernels compute, component by component, whatever the arithmetic.
use secure_vector_search.Prelude.{
  ℕ, zero, suc, ◌+◌, ◌-◌, ◌*◌, ◌/◌, ◌≤◌, ◌<◌, ◌≡◌, refl, ap, ap₂, sym, ◌∙◌, arith, leb,
  if◌then◌else◌, Bool, true, false, some, List, length, drop, take, get_or, get_or_ext, get_or-drop,
  get_or-take-drop, length-drop, length-take-drop, get_or-replicate, length-replicate, replicate,
  tabulate, tabulate_congr, length-tabulate, get_or-tabulate, zip_with, for_loop_inv, slice_lem,
}
use secure_vector_search.Float32.{Float32}
use secure_vector_search.Ivf.Batch.Zip.{length-zip_with, get_or-zip_with}
use secure_vector_search.Ivf.Distance.{
  Lanes, squares, l2_f32_scalar, chunk_step, l2_f32_simd, l2_f32,
}

module _ (fl : Float32) (lanes : Lanes fl.F32) (a b : List fl.F32)
    (same : length a ≡ length b) where
  open fl use {F32, zero32, add, sub, mul, sqrt}
  open lanes use {mul_add, reduce_add, sum32}

  abbrev pub difference : ℕ → F32
  difference i = sub (get_or a i zero32) (get_or b i zero32)

  abbrev pub square : ℕ → F32
  square i = mul (difference i) (difference i)

  -- Lane `l` after `c` chunks: the fused squares of the components l, 16 + l, and so on, in order.
  abbrev pub lane : ℕ → ℕ → F32
  lane zero l = zero32
  lane (suc c) l = mul_add (difference (c * 16 + l)) (difference (c * 16 + l)) (lane c l)

  abbrev pub tail_start : ℕ
  tail_start = length a / 16 * 16

  -- The squares of the components from `k` on.
  squares_from :
      (k : ℕ)
      → k ≤ length a
      → squares fl lanes (drop k a) (drop k b) ≡ tabulate (length a - k) (λ i. square (k + i))
  squares_from k h =
      let left = length-drop k a in
      let right = length-drop k b in
      let size =
        length-zip_with (λ x y. mul (sub x y) (sub x y)) (drop k a) (drop k b)
          (omega (arith, left, right)) in
      get_or_ext zero32 _ _
        (size
          ∙ right
          ∙ ap (λ (n : ℕ). n - k) (sym same)
          ∙ sym (length-tabulate (length a - k) (λ i. square (k + i))))
        (λ i l.
          get_or-zip_with (λ x y. mul (sub x y) (sub x y)) (drop k a) (drop k b) i zero32 zero32
            zero32 (omega (arith, left, right)) (omega (arith, size))
          ∙ ap₂ (λ (x y : F32). mul (sub x y) (sub x y)) (get_or-drop k a i zero32)
              (get_or-drop k b i zero32)
          ∙ sym (
              get_or-tabulate (length a - k) (λ i. square (k + i)) i zero32
                (omega (arith, size, right))))

  -- One round of the loop.
  chunk_step_lem :
      (c : ℕ) (acc : List F32)
      → c * 16 + 16 ≤ length a
      → acc ≡ tabulate 16 (lane c)
      → chunk_step fl lanes a b c acc ≡ some (tabulate 16 (lane (suc c)))
  unfolding chunk_step
  chunk_step_lem c acc h e =
      let av = take 16 (drop (c * 16) a) in
      let bv = take 16 (drop (c * 16) b) in
      let wide_a = length-take-drop a (c * 16) 16 h in
      let wide_b = length-take-drop b (c * 16) 16 (omega arith) in
      let d = zip_with sub av bv in
      let wide_d = length-zip_with sub av bv (wide_a ∙ sym wide_b) in
      let wide_acc : length acc ≡ 16 = ap length e ∙ length-tabulate 16 (lane c) in
      let size =
        length-zip_with (λ x t. mul_add x x t) d acc (omega (arith, wide_d, wide_b, wide_acc)) in
      rw
        (
          slice_lem a (c * 16) (c * 16 + 16) 16 refl h,
          slice_lem b (c * 16) (c * 16 + 16) 16 refl (omega arith),
        )
        (ap some (
          get_or_ext zero32 _ _ (size ∙ wide_acc ∙ sym (length-tabulate 16 (lane (suc c)))) (λ l hl.
            let inside : l < 16 = omega (arith, size, wide_acc) in
            get_or-zip_with (λ x t. mul_add x x t) d acc l zero32 zero32 zero32
              (omega (arith, wide_d, wide_b, wide_acc)) (omega (arith, wide_acc))
            ∙ ap₂ (λ (x t : F32). mul_add x x t)
                (get_or-zip_with sub av bv l zero32 zero32 zero32 (wide_a ∙ sym wide_b)
                    (omega (arith, wide_b))
                  ∙ ap₂ sub (get_or-take-drop a (c * 16) 16 l zero32 inside)
                      (get_or-take-drop b (c * 16) 16 l zero32 inside))
                (ap (λ (xs : List F32). get_or xs l zero32) e
                  ∙ get_or-tabulate 16 (lane c) l zero32 inside)
            ∙ sym (get_or-tabulate 16 (lane (suc c)) l zero32 inside))))

  lanes_start : replicate 16 zero32 ≡ tabulate 16 (lane 0)
  lanes_start =
      get_or_ext zero32 _ _ (length-replicate 16 zero32 ∙ sym (length-tabulate 16 (lane 0)))
        (λ l hl.
          get_or-replicate 16 zero32 l
          ∙ sym (get_or-tabulate 16 (lane 0) l zero32 (omega (arith, length-replicate 16 zero32))))

  -- For vectors of one length both kernels return, whatever the arithmetic. The scalar kernel sums the
  -- squared differences of all components, in order. The vectorised one sums 16 lanes, where lane l
  -- gathers the components l, 16 + l, and so on of the whole chunks, in order, and adds the sum of the
  -- squares of the components after the last whole chunk.
  pub l2_f32_lem :
      (avx512f : Bool)
      → l2_f32 fl lanes avx512f a b
        ≡ some (
            sqrt (
              if avx512f
              then add
                  (reduce_add (tabulate 16 (lane (length a / 16))))
                  (sum32 (tabulate (length a - tail_start) (λ i. square (tail_start + i))))
              else sum32 (tabulate (length a) square)))
  unfolding l2_f32 l2_f32_simd l2_f32_scalar
  l2_f32_lem false =
      let whole : squares fl lanes a b ≡ tabulate (length a) square =
        squares_from 0 (omega arith)
        ∙ ap (λ (n : ℕ). tabulate n (λ i. square (0 + i))) {x = length a - 0} {y = length a}
            (omega arith)
        ∙ tabulate_congr (length a) (λ i. square (0 + i)) square
            (λ i l. ap square {x = 0 + i} {y = i} (omega arith)) in
      ap (λ (xs : List F32). some (sqrt (sum32 xs))) whole
  l2_f32_lem true =
      let (acc, ran, e) =
        for_loop_inv (λ c acc. acc ≡ tabulate 16 (lane c)) (chunk_step fl lanes a b) (length a / 16)
          (λ c acc l h. (tabulate 16 (lane (suc c)), chunk_step_lem c acc (omega arith) h, refl))
          (replicate 16 zero32) lanes_start in
      let long : leb tail_start (length b) ≡ true = ground arith in
      rw (ran, long, e, squares_from tail_start (omega arith)) refl
