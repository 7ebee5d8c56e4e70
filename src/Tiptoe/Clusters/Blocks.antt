-- ===== src/Tiptoe/Clusters/Blocks.antt =====
-- Writing a block over a list: the block is there, and the rest is as it was.
use native.Mathlib.Nat.{mul-le-mul_right}
use secure_vector_search.Prelude.{
  ℕ, suc, ◌+◌, ◌-◌, ◌*◌, ◌≤◌, ◌<◌, ◌≡◌, ◌≢◌, ap, ◌∙◌, arith, ltb, Bool-cases, inl, inr, List, ◌++◌,
  length, take, drop, nth, get_or-take, get_or-drop, get_or-append_left, get_or-append_right,
  length-append, length-take, length-drop,
}
use secure_vector_search.Tiptoe.Clusters.{splice}

module _ (xs : List ℕ) (at : ℕ) (ys : List ℕ) (h : at + length ys ≤ length xs) where
  taken : length (take at xs) ≡ at
  taken = omega (arith, length-take at xs, h)

  pub length-splice : length (splice xs at ys) ≡ length xs
  length-splice = omega (
    arith,
    h,
    taken,
    length-append (take at xs) (ys ++ drop (at + length ys) xs),
    length-append ys (drop (at + length ys) xs),
    length-drop (at + length ys) xs,
  )

  pub nth-splice_before : (i : ℕ) → i < at → nth (splice xs at ys) i ≡ nth xs i
  nth-splice_before i l =
      get_or-append_left (take at xs) (ys ++ drop (at + length ys) xs) i 0 (omega (arith, taken))
      ∙ get_or-take at xs i 0 l

  pub nth-splice_inside : (j : ℕ) → j < length ys → nth (splice xs at ys) (at + j) ≡ nth ys j
  nth-splice_inside j l =
      ap (λ (k : ℕ). nth (splice xs at ys) k) {x = at + j} {y = length (take at xs) + j}
        (omega (arith, taken))
      ∙ get_or-append_right (take at xs) (ys ++ drop (at + length ys) xs) j 0
      ∙ get_or-append_left ys (drop (at + length ys) xs) j 0 l

  pub nth-splice_after : (i : ℕ) → at + length ys ≤ i → nth (splice xs at ys) i ≡ nth xs i
  nth-splice_after i l =
      let k = i - (at + length ys) in
      ap (λ (n : ℕ). nth (splice xs at ys) n) {x = i} {y = length (take at xs) + (length ys + k)}
        (omega (arith, taken))
      ∙ get_or-append_right (take at xs) (ys ++ drop (at + length ys) xs) (length ys + k) 0
      ∙ get_or-append_right ys (drop (at + length ys) xs) k 0
      ∙ get_or-drop (at + length ys) xs k 0
      ∙ ap (nth xs) (omega arith)

-- Blocks of `d` entries: one is written, and the others are as they were.
module _ (d : ℕ) (xs : List ℕ) (b : ℕ) (ys : List ℕ) (size : length ys ≡ d)
    (h : b * d + d ≤ length xs) where
  fits : b * d + length ys ≤ length xs
  fits = omega (arith, size, h)

  pub written_block : (j : ℕ) → j < d → nth (splice xs (b * d) ys) (b * d + j) ≡ nth ys j
  written_block j l = nth-splice_inside xs (b * d) ys fits j (omega (arith, size))

  pub other_block :
      (a j : ℕ) → a ≢ b → j < d → nth (splice xs (b * d) ys) (a * d + j) ≡ nth xs (a * d + j)
  other_block a j ne l = elim (Bool-cases (ltb a b)) [
    | inl below ↦
        let less : suc a ≤ b = ground arith in
        nth-splice_before xs (b * d) ys fits (a * d + j)
          (omega (arith, mul-le-mul_right d less, suc_mul a))
    | inr above ↦
        let more : suc b ≤ a = ground (arith, ne) in
        nth-splice_after xs (b * d) ys fits (a * d + j)
          (omega (arith, size, mul-le-mul_right d more, suc_mul b))
  ]
    where
      suc_mul : (n : ℕ) → suc n * d ≡ n * d + d
      suc_mul n = grind arith
