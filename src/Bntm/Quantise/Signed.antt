-- ===== src/Bntm/Quantise/Signed.antt =====
-- Signed integers survive the field: the score lifted back is the integer inner product.
use native.Mathlib.Nat.{mul_assoc, mul-add, add-mul, mul-add-mod_self_left}
use secure_vector_search.Prelude.{
  ℕ, ◌+◌, ◌-◌, ◌*◌, ◌/◌, ◌%◌, ◌≤◌, ◌<◌, ◌≡◌, ap, ◌∙◌, sym, arith, ℤ, pos, negsuc, pos_part,
  neg_part, sub_ℕ, sum, sum_congr_mod, mul_congr_mod, mul_congr_mod_right, sum-add, mul-sum,
}
use secure_vector_search.Bntm.Field.{field_p}
use secure_vector_search.Bntm.Quantise.{wrap_signed, fp_to_signed}

-- An integer modulo p, its negative part by p - 1.
wrap_signed-mod :
    (z : ℤ) → wrap_signed z % field_p ≡ (pos_part z + (field_p - 1) * neg_part z) % field_p
unfolding wrap_signed
wrap_signed-mod (pos n) = ground arith
wrap_signed-mod (negsuc n) = ground arith

-- The two parts of a product of integers, and of an inner product.
abbrev pub product_pos : ℤ → ℤ → ℕ
product_pos a b = pos_part a * pos_part b + neg_part a * neg_part b

abbrev pub product_neg : ℤ → ℤ → ℕ
product_neg a b = pos_part a * neg_part b + neg_part a * pos_part b

-- The integer inner product of the first `n` components.
abbrev pub inner_product : ℕ → (ℕ → ℤ) → (ℕ → ℤ) → ℤ
inner_product n a b =
    sub_ℕ (sum n (λ j. product_pos (a j) (b j))) (sum n (λ j. product_neg (a j) (b j)))

expand_product :
    (x x' y y' : ℕ)
    → (x + (field_p - 1) * x') * (y + (field_p - 1) * y')
      ≡ field_p * ((field_p - 2) * (x' * y'))
        + (x * y + x' * y' + (field_p - 1) * (x * y' + x' * y))
expand_product x x' y y' = omega (
  arith,
  mul-add (x + (field_p - 1) * x') y ((field_p - 1) * y'),
  add-mul x ((field_p - 1) * x') y,
  add-mul x ((field_p - 1) * x') ((field_p - 1) * y'),
  mul_assoc (field_p - 1) x' y,
)

wrap_product :
    (a b : ℤ)
    → wrap_signed a * wrap_signed b % field_p
      ≡ (product_pos a b + (field_p - 1) * product_neg a b) % field_p
wrap_product a b =
    mul_congr_mod field_p (wrap_signed a) (pos_part a + (field_p - 1) * neg_part a) (wrap_signed b)
      (wrap_signed-mod a)
    ∙ mul_congr_mod_right field_p (wrap_signed b) (pos_part b + (field_p - 1) * neg_part b)
        (pos_part a + (field_p - 1) * neg_part a) (wrap_signed-mod b)
    ∙ ap (λ (t : ℕ). t % field_p)
        (expand_product (pos_part a) (neg_part a) (pos_part b) (neg_part b))
    ∙ mul-add-mod_self_left field_p ((field_p - 2) * (neg_part a * neg_part b))
        (product_pos a b + (field_p - 1) * product_neg a b)

pub lift :
    (x y s : ℕ)
    → s ≡ (x + (field_p - 1) * y) % field_p
    → x < y + field_p / 2
    → y ≤ x + (field_p - field_p / 2)
    → fp_to_signed s ≡ sub_ℕ x y
unfolding fp_to_signed
lift x y s e lo hi = ground arith

-- The score of integer vectors is their inner product, when it is in the range of the lift.
pub signed_score :
    (n : ℕ) (a b : ℕ → ℤ) (s : ℕ)
    → s ≡ sum n (λ j. wrap_signed (a j) * wrap_signed (b j)) % field_p
    → sum n (λ j. product_pos (a j) (b j)) < sum n (λ j. product_neg (a j) (b j)) + field_p / 2
    → sum n (λ j. product_neg (a j) (b j))
      ≤ sum n (λ j. product_pos (a j) (b j)) + (field_p - field_p / 2)
    → fp_to_signed s ≡ inner_product n a b
signed_score n a b s e lo hi =
    lift (sum n (λ j. product_pos (a j) (b j))) (sum n (λ j. product_neg (a j) (b j))) s
      (e
        ∙ sum_congr_mod field_p n _
            (λ j. product_pos (a j) (b j) + (field_p - 1) * product_neg (a j) (b j))
            (λ j _. wrap_product (a j) (b j))
        ∙ ap (λ (t : ℕ). t % field_p)
            (sum-add n (λ j. product_pos (a j) (b j)) (λ j. (field_p - 1) * product_neg (a j) (b j))
              ∙ ap (λ (t : ℕ). sum n (λ j. product_pos (a j) (b j)) + t)
                  (sym (mul-sum n (field_p - 1) (λ j. product_neg (a j) (b j))))))
      lo hi

pub wrap_signed-lt : (z : ℤ) → wrap_signed z < field_p
unfolding wrap_signed
wrap_signed-lt (pos n) = omega arith
wrap_signed-lt (negsuc n) = ground arith
