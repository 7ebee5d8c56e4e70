-- ===== src/Ivf/Toy.antt =====
-- A small arithmetic in which the assumptions on floats hold: the numbers 0 to 3, with their codes as
-- bits.
use secure_vector_search.Prelude.{
  ℕ, suc, ◌+◌, ◌-◌, ◌*◌, ◌^◌, ◌<◌, ◌≡◌, ◌⊎◌, inl, inr, refl, arith, ltb, leb, ◌==◌, if◌then◌else◌,
  true, false, Bool-cases, List, [], ◌∷◌,
}
use secure_vector_search.Float32.{Float32, IsFloat32}
use secure_vector_search.Sorting.{Sorting}
use secure_vector_search.Sorting.Insertion.{insertion}
use secure_vector_search.Ivf.Probe.{nearer}
use secure_vector_search.Ivf.Kmeans.{Random}

pub data Toy : Type 0 where
  n0 n1 n2 n3 : Toy

abbrev pub bits : Toy → ℕ
bits n0 = 0
bits n1 = 1
bits n2 = 2
bits n3 = 3

abbrev pub toy : ℕ → Toy
toy n = if n == 0 then n0 else if n == 1 then n1 else if n == 2 then n2 else n3

abbrev pub toy_float32 : Float32
toy_float32 = record {
  F32 = Toy;
  zero32 = n0;
  add = λ a b. toy (bits a + bits b);
  sub = λ a b. toy (bits a - bits b);
  mul = λ a b. toy (bits a * bits b);
  div = λ a b. a;
  neg = λ a. a;
  sqrt = λ a. a;
  of_usize = toy;
  le = λ a b. leb (bits a) (bits b);
  lt = λ a b. ltb (bits a) (bits b);
  eq = λ a b. bits a == bits b;
  total_le = λ a b. leb (bits a) (bits b);
  to_bits = bits;
  from_bits = toy;
}

leb_total : (a b : ℕ) → (leb a b ≡ true) ⊎ (leb b a ≡ true)
leb_total a b = elim (Bool-cases (leb a b)) [ inl e ↦ inl e | inr e ↦ inr (ground arith) ]

pub leb_trans : (a b c : ℕ) → leb a b ≡ true → leb b c ≡ true → leb a c ≡ true
leb_trans a b c h h' = ground arith

bits-lt : (a : Toy) → bits a < 2 ^ 32
bits-lt n0 = omega arith
bits-lt n1 = omega arith
bits-lt n2 = omega arith
bits-lt n3 = omega arith

toy-bits : (a : Toy) → toy (bits a) ≡ a
toy-bits n0 = refl
toy-bits n1 = refl
toy-bits n2 = refl
toy-bits n3 = refl

pub toy-IsFloat32 : IsFloat32 toy_float32
toy-IsFloat32 = record {
  total_le_total = λ a b. leb_total (bits a) (bits b);
  total_le_trans = λ a b c. leb_trans (bits a) (bits b) (bits c);
  to_bits-lt = bits-lt;
  from-to_bits = toy-bits;
}

-- The distance of the first components.
abbrev pub toy_l2 : List Toy → List Toy → Toy
toy_l2 [] b = n0
toy_l2 (x ∷ a) [] = n0
toy_l2 (x ∷ a) (y ∷ b) = toy (bits x - bits y + (bits y - bits x))

pub flip_leb : (a b : ℕ) → leb a b ≡ false → leb b a ≡ true
flip_leb a b h = ground arith

pub toy_sort : Sorting (ℕ × Toy) (nearer toy_float32)
toy_sort =
    insertion (nearer toy_float32) (λ x y. flip_leb (bits x.1) (bits y.1))
      (λ x y z. leb_trans (bits x.1) (bits y.1) (bits z.1))

abbrev pub toy_random : Random Toy
toy_random = record {
  State = ℕ;
  seed_from_u64 = λ seed. seed;
  random_range = λ n s. (n - 1, suc s);
  random_f32 = λ s. (n1, suc s);
}
