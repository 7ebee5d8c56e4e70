-- ===== src/Prelude/Sums.antt =====
-- Finite sums of natural numbers, and how `%` passes through them.
use Prim.Native.Nat.{ℕ, zero, suc, ◌+◌, ◌*◌, ◌/◌, ◌%◌, ◌<◌, ◌≤◌}
use mathlib.Core.Path.{◌≡◌, refl, sym, ap, ap₂, ◌∙◌}
use mathlib.Core.Logic.{inl, inr}
use secure_vector_search.Prelude.Tests.{ltb, ◌==◌, if◌then◌else◌, Bool-cases}
use native.Mathlib.Omega.{arith}
use native.Mathlib.Nat.{
  add-mod, mul-add, add-mul, mul-zero, zero-mul, div-add-mod, mul_assoc, mul_comm,
  mul-add-mod_self_left,
}

unfoldable pub sum : ℕ → (ℕ → ℕ) → ℕ
sum zero f = 0
sum (suc n) f = sum n f + f n

pub sum_congr : (n : ℕ) (f g : ℕ → ℕ) → ((i : ℕ) → i < n → f i ≡ g i) → sum n f ≡ sum n g
unfolding sum
sum_congr zero f g h = refl
sum_congr (suc n) f g h =
    omega (arith, sum_congr n f g (λ i l. h i (omega arith)), h n (omega arith))

pub sum-zero : (n : ℕ) → sum n (λ _. 0) ≡ 0
unfolding sum
sum-zero zero = refl
sum-zero (suc n) = omega (arith, sum-zero n)

pub sum-add : (n : ℕ) (f g : ℕ → ℕ) → sum n (λ i. f i + g i) ≡ sum n f + sum n g
unfolding sum
sum-add zero f g = refl
sum-add (suc n) f g = omega (arith, sum-add n f g)

pub sum-append : (n m : ℕ) (f : ℕ → ℕ) → sum (n + m) f ≡ sum n f + sum m (λ k. f (n + k))
unfolding sum
sum-append n zero f = let e : n + zero ≡ n = omega arith in rw e (omega arith)
sum-append n (suc m) f =
    let e : n + suc m ≡ suc (n + m) = omega arith in rw e (omega (arith, sum-append n m f))

pub mul-sum : (n a : ℕ) (f : ℕ → ℕ) → a * sum n f ≡ sum n (λ i. a * f i)
unfolding sum
mul-sum zero a f = mul-zero a
mul-sum (suc n) a f = mul-add a (sum n f) (f n) ∙ omega (arith, mul-sum n a f)

pub sum-mul : (n : ℕ) (f : ℕ → ℕ) (a : ℕ) → sum n f * a ≡ sum n (λ i. f i * a)
unfolding sum
sum-mul zero f a = zero-mul a
sum-mul (suc n) f a = add-mul (sum n f) (f n) a ∙ omega (arith, sum-mul n f a)

-- The cells of a table may be added by rows or by columns.
pub sum_comm :
    (rows cols : ℕ) (cell : ℕ → ℕ → ℕ)
    → sum rows (λ r. sum cols (cell r)) ≡ sum cols (λ c. sum rows (λ r. cell r c))
unfolding sum
sum_comm zero cols cell = sym (sum-zero cols)
sum_comm (suc rows) cols cell =
    ap (λ (t : ℕ). t + sum cols (cell rows)) (sum_comm rows cols cell)
    ∙ sym (sum-add cols (λ c. sum rows (λ r. cell r c)) (cell rows))

-- Terms that agree modulo `p` have sums that do.
pub sum_congr_mod :
    (p n : ℕ) (f g : ℕ → ℕ) → ((i : ℕ) → i < n → f i % p ≡ g i % p) → sum n f % p ≡ sum n g % p
unfolding sum
sum_congr_mod p zero f g h = refl
sum_congr_mod p (suc n) f g h =
    add-mod (sum n f) (f n) p
    ∙ ap (λ (t : ℕ). (t + f n % p) % p) (sum_congr_mod p n f g (λ i l. h i (omega arith)))
    ∙ ap (λ (t : ℕ). (sum n g % p + t) % p) (h n (omega arith))
    ∙ sym (add-mod (sum n g) (g n) p)

pub sum-le : (n b : ℕ) (f : ℕ → ℕ) → ((i : ℕ) → i < n → f i ≤ b) → sum n f ≤ n * b
unfolding sum
sum-le zero b f h = omega arith
sum-le (suc n) b f h = omega (arith, sum-le n b f (λ i l. h i (omega arith)), h n (omega arith))

-- Only the term at `k` survives.
pub sum_single :
    (n k : ℕ) (f : ℕ → ℕ) → sum n (λ i. if i == k then f i else 0) ≡ (if ltb k n then f k else 0)
unfolding sum
sum_single zero k f = ground arith
sum_single (suc n) k f = elim (Bool-cases (n == k)) [
  | inl e ↦ let same : n ≡ k = ground arith in rw (sum_single n k f, e) (rw same (ground arith))
  | inr e ↦ rw (sum_single n k f, e) (ground arith)
]

-- Factors may be replaced by congruent ones.
pub mul-mod_left : (p a b : ℕ) → a * b % p ≡ a % p * b % p
mul-mod_left p a b =
    ap (λ (t : ℕ). t % p)
      (ap (λ (t : ℕ). t * b) (sym (div-add-mod a p))
        ∙ add-mul (p * (a / p)) (a % p) b
        ∙ ap (λ (t : ℕ). t + a % p * b) (mul_assoc p (a / p) b))
    ∙ mul-add-mod_self_left p (a / p * b) (a % p * b)

pub mul_congr_mod : (p a c b : ℕ) → a % p ≡ c % p → a * b % p ≡ c * b % p
mul_congr_mod p a c b e =
    mul-mod_left p a b ∙ ap (λ (t : ℕ). t * b % p) e ∙ sym (mul-mod_left p c b)

pub mul_congr_mod_right : (p a c b : ℕ) → a % p ≡ c % p → b * a % p ≡ b * c % p
mul_congr_mod_right p a c b e =
    ap (λ (t : ℕ). t % p) (mul_comm b a)
    ∙ mul_congr_mod p a c b e
    ∙ ap (λ (t : ℕ). t % p) (mul_comm c b)

pub add_congr_mod : (p a b c d : ℕ) → a % p ≡ c % p → b % p ≡ d % p → (a + b) % p ≡ (c + d) % p
add_congr_mod p a b c d e f =
    add-mod a b p ∙ ap₂ (λ (s t : ℕ). (s + t) % p) e f ∙ sym (add-mod c d p)

-- Σ_j (Σ_k a k · b j k) · c j = Σ_k a k · (Σ_j c j · b j k)
pub sum_exchange :
    (n m : ℕ) (a c : ℕ → ℕ) (b : ℕ → ℕ → ℕ)
    → sum n (λ j. sum m (λ k. a k * b j k) * c j) ≡ sum m (λ k. a k * sum n (λ j. c j * b j k))
sum_exchange n m a c b =
    sum_congr n _ _ (λ j hj.
      sum-mul m (λ k. a k * b j k) (c j)
      ∙ sum_congr m _ (λ k. a k * (c j * b j k))
          (λ k hk.
            mul_assoc (a k) (b j k) (c j) ∙ ap (λ (t : ℕ). a k * t) (mul_comm (b j k) (c j))))
    ∙ sum_comm n m (λ j k. a k * (c j * b j k))
    ∙ sum_congr m _ _ (λ k hk. sym (mul-sum n (a k) (λ j. c j * b j k)))
