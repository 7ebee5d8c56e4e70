-- ===== src/Bntm/Decode/ZipMap.antt =====
-- Pointwise operations on tables.
use secure_vector_search.Prelude.{
  ℕ, zero, suc, ◌<◌, ◌≡◌, refl, ap, ◌∙◌, sym, arith, List, [], ◌∷◌, length, nth, tabulate,
  length-tabulate, get_or-tabulate, get_or_ext,
}
use secure_vector_search.Bntm.Decode.{zip_map}

length-zip_map :
    (op : ℕ → ℕ → ℕ) (xs ys : List ℕ)
    → length xs ≡ length ys
    → length (zip_map op xs ys) ≡ length xs
length-zip_map op [] [] h = refl
length-zip_map op [] (y ∷ ys) h = refl
length-zip_map op (x ∷ xs) [] h = absurd (omega arith)
length-zip_map op (x ∷ xs) (y ∷ ys) h = omega (arith, length-zip_map op xs ys)

nth-zip_map :
    (op : ℕ → ℕ → ℕ) (xs ys : List ℕ) (i : ℕ)
    → length xs ≡ length ys
    → i < length xs
    → nth (zip_map op xs ys) i ≡ op (nth xs i) (nth ys i)
nth-zip_map op [] ys i e h = absurd (omega arith)
nth-zip_map op (x ∷ xs) [] i e h = absurd (omega arith)
nth-zip_map op (x ∷ xs) (y ∷ ys) zero e h = refl
nth-zip_map op (x ∷ xs) (y ∷ ys) (suc i) e h = nth-zip_map op xs ys i (omega arith) (omega arith)

pub zip_map-tabulate :
    (op : ℕ → ℕ → ℕ) (n : ℕ) (f g : ℕ → ℕ)
    → zip_map op (tabulate n f) (tabulate n g) ≡ tabulate n (λ i. op (f i) (g i))
zip_map-tabulate op n f g =
    let same : length (tabulate n f) ≡ length (tabulate n g) =
      length-tabulate n f ∙ sym (length-tabulate n g) in
    let size = length-zip_map op (tabulate n f) (tabulate n g) same ∙ length-tabulate n f in
    get_or_ext 0 _ _ (size ∙ sym (length-tabulate n (λ i. op (f i) (g i)))) (λ i hi.
      let hi' : i < n = omega (arith, size) in
      nth-zip_map op (tabulate n f) (tabulate n g) i same (omega (arith, length-tabulate n f))
      ∙ ap (λ (x : ℕ). op x (nth (tabulate n g) i)) (get_or-tabulate n f i 0 hi')
      ∙ ap (op (f i)) (get_or-tabulate n g i 0 hi')
      ∙ sym (get_or-tabulate n (λ i. op (f i) (g i)) i 0 hi'))
