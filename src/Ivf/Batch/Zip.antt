-- ===== src/Ivf/Batch/Zip.antt =====
-- Two lists walked together.
use secure_vector_search.Prelude.{
  zip_with, ℕ, zero, suc, ◌<◌, ◌≡◌, refl, ap, arith, List, [], ◌∷◌, map, length, get_or,
}

module _ {ℓ κ μ} {A : Type ℓ} {B : Type κ} {C : Type μ} where
  pub length-zip_with :
      (f : A → B → C) (xs : List A) (ys : List B)
      → length xs ≡ length ys
      → length (zip_with f xs ys) ≡ length ys
  length-zip_with f [] [] h = refl
  length-zip_with f [] (y ∷ ys) h = absurd (omega arith)
  length-zip_with f (x ∷ xs) [] h = absurd (omega arith)
  length-zip_with f (x ∷ xs) (y ∷ ys) h = ap suc (length-zip_with f xs ys (omega arith))

  pub get_or-zip_with :
      (f : A → B → C) (xs : List A) (ys : List B) (i : ℕ) (a : A) (b : B) (c : C)
      → length xs ≡ length ys
      → i < length ys
      → get_or (zip_with f xs ys) i c ≡ f (get_or xs i a) (get_or ys i b)
  get_or-zip_with f [] [] i a b c h l = absurd (omega arith)
  get_or-zip_with f [] (y ∷ ys) i a b c h l = absurd (omega arith)
  get_or-zip_with f (x ∷ xs) [] i a b c h l = absurd (omega arith)
  get_or-zip_with f (x ∷ xs) (y ∷ ys) zero a b c h l = refl
  get_or-zip_with f (x ∷ xs) (y ∷ ys) (suc i) a b c h l =
      get_or-zip_with f xs ys i a b c (omega arith) (omega arith)

pub map-zip_with {ℓ κ μ ν} :
    {A : Type ℓ} {B : Type κ} {C : Type μ} {D : Type ν} (g : C → D) (f : A → B → C) (xs : List A)
    (ys : List B)
    → map g (zip_with f xs ys) ≡ zip_with (λ x y. g (f x y)) xs ys
map-zip_with g f [] ys = refl
map-zip_with g f (x ∷ xs) [] = refl
map-zip_with g f (x ∷ xs) (y ∷ ys) = rw (map-zip_with g f xs ys) refl

pub zip_with-map {ℓ κ μ} :
    {A : Type ℓ} {B : Type κ} {C : Type μ} (f : A → B → C) (g : A → B) (xs : List A)
    → zip_with f xs (map g xs) ≡ map (λ x. f x (g x)) xs
zip_with-map f g [] = refl
zip_with-map f g (x ∷ xs) = rw (zip_with-map f g xs) refl
