-- ===== src/Ivf/Kmeans/Shapes.antt =====
-- The groups of one round of the training: the shapes of their sums and means, and what is chosen.
use secure_vector_search.Prelude.{
  zip_with, ℕ, zero, suc, ◌+◌, ◌-◌, ◌≤◌, ◌<◌, ◌≡◌, refl, ap, ◌∙◌, arith, ◌==◌, Bool-cases, inl, inr,
  some, List, [], ◌∷◌, ◌++◌, length, get_elem?, set, replicate, length-set, length-replicate,
  length-map,
}
use secure_vector_search.Float32.{Float32}
use secure_vector_search.Ivf.Kmeans.{add_components, accumulate, mean, recompute, choose}

-- Every vector has `dim` components.
abbrev pub AllDim {ℓ} : {A : Type ℓ} → ℕ → List (List A) → Type 0
AllDim dim [] = Unit {0}
AllDim dim (x ∷ xs) = (length x ≡ dim) × AllDim dim xs

abbrev pub AllBelow : ℕ → List ℕ → Type 0
AllBelow k [] = Unit {0}
AllBelow k (c ∷ cs) = (c < k) × AllBelow k cs

pub get_elem?-total {ℓ} :
    {A : Type ℓ} (xs : List A) (i : ℕ) → i < length xs → (x : A) × (get_elem? xs i ≡ some x)
get_elem?-total [] i h = absurd (omega arith)
get_elem?-total (x ∷ xs) zero h = (x, refl)
get_elem?-total (x ∷ xs) (suc i) h = get_elem?-total xs i (omega arith)

pub length-zip_with_le {ℓ κ μ} :
    {A : Type ℓ} {B : Type κ} {C : Type μ} (f : A → B → C) (xs : List A) (ys : List B)
    → length (zip_with f xs ys) ≤ length ys
length-zip_with_le f [] ys = omega arith
length-zip_with_le f (x ∷ xs) [] = omega arith
length-zip_with_le f (x ∷ xs) (y ∷ ys) = omega (arith, length-zip_with_le f xs ys)

module _ {ℓ} {A : Type ℓ} where
  pub get_elem?-AllDim :
      (dim : ℕ) (xs : List (List A)) (i : ℕ)
      → AllDim dim xs
      → i < length xs
      → (x : List A) × (get_elem? xs i ≡ some x) × (length x ≡ dim)
  get_elem?-AllDim dim [] i a h = absurd (omega arith)
  get_elem?-AllDim dim (x ∷ xs) zero a h = (x, refl, a.0)
  get_elem?-AllDim dim (x ∷ xs) (suc i) a h = get_elem?-AllDim dim xs i a.1 (omega arith)

  set-AllDim :
      (dim : ℕ) (xs : List (List A)) (i : ℕ) (v : List A)
      → AllDim dim xs
      → length v ≡ dim
      → AllDim dim (set xs i v)
  set-AllDim dim [] i v a h = tt
  set-AllDim dim (x ∷ xs) zero v a h = (h, a.1)
  set-AllDim dim (x ∷ xs) (suc i) v a h = (a.0, set-AllDim dim xs i v a.1 h)

  replicate-AllDim : (dim n : ℕ) (x : List A) → length x ≡ dim → AllDim dim (replicate n x)
  replicate-AllDim dim zero x h = tt
  replicate-AllDim dim (suc n) x h = (h, replicate-AllDim dim n x h)

  pub append-AllDim :
      (dim : ℕ) (xs : List (List A)) (x : List A)
      → AllDim dim xs
      → length x ≡ dim
      → AllDim dim (xs ++ x ∷ [])
  append-AllDim dim [] x a h = (h, tt)
  append-AllDim dim (y ∷ ys) x a h = (a.0, append-AllDim dim ys x a.1 h)

module _ (fl : Float32) where
  open fl use {F32, zero32, le, sub, of_usize, div}

  length-add_components : (s v : List F32) → length (add_components fl s v) ≡ length s
  unfolding add_components
  length-add_components [] v = refl
  length-add_components (s ∷ ss) [] = refl
  length-add_components (s ∷ ss) (x ∷ v) = ap suc (length-add_components ss v)

  accumulate-total :
      (vs : List (List F32)) (cs : List ℕ) (k dim : ℕ) (sums : List (List F32)) (counts : List ℕ)
      → AllBelow k cs
      → length sums ≡ k
      → length counts ≡ k
      → AllDim dim sums
      → (sums' : List (List F32)) × (counts' : List ℕ) × (accumulate fl vs cs sums counts
          ≡ some (sums', counts'))
        × (length sums' ≡ k)
        × (length counts' ≡ k)
        × AllDim dim sums'
  unfolding accumulate
  accumulate-total [] cs k dim sums counts b ls lc a = (sums, counts, refl, ls, lc, a)
  accumulate-total (v ∷ vs) [] k dim sums counts b ls lc a = (sums, counts, refl, ls, lc, a)
  accumulate-total (v ∷ vs) (c ∷ cs) k dim sums counts b ls lc a =
      let (s, es, ds) = get_elem?-AllDim dim sums c a (omega arith) in
      let (n, en) = get_elem?-total counts c (omega arith) in
      let (sums', counts', e, ls', lc', a') =
        accumulate-total vs cs k dim (set sums c (add_components fl s v)) (set counts c (n + 1)) b.1
          (length-set sums c (add_components fl s v) ∙ ls) (length-set counts c (n + 1) ∙ lc)
          (set-AllDim dim sums c (add_components fl s v) a (length-add_components s v ∙ ds)) in
      (sums', counts', rw (es, en) e, ls', lc', a')

  length-mean : (dim : ℕ) (s : List F32) (n : ℕ) → length s ≡ dim → length (mean fl dim s n) ≡ dim
  unfolding mean
  length-mean dim s n h = elim (Bool-cases (n == 0)) [
    | inl e ↦ rw e (length-replicate dim zero32)
    | inr e ↦ rw e (length-map s (λ x. div x (of_usize n)) ∙ h)
  ]

  means-AllDim :
      (dim k : ℕ) (sums : List (List F32)) (counts : List ℕ)
      → length sums ≡ k
      → length counts ≡ k
      → AllDim dim sums
      → (length (zip_with (mean fl dim) sums counts) ≡ k)
        × AllDim dim (zip_with (mean fl dim) sums counts)
  means-AllDim dim k [] counts ls lc a = (ls, tt)
  means-AllDim dim k (s ∷ sums) [] ls lc a = absurd (omega arith)
  means-AllDim dim k (s ∷ sums) (n ∷ counts) ls lc a =
      let (l, a') = means-AllDim dim (k - 1) sums counts (omega arith) (omega arith) a.1 in
      (omega arith, (length-mean dim s n a.0, a'))

  -- The means of k groups, of vectors of one dimension, if the groups are below k.
  pub recompute-total :
      (vs : List (List F32)) (cs : List ℕ) (k dim : ℕ)
      → AllBelow k cs
      → (new : List (List F32)) × (recompute fl vs cs k dim ≡ some new)
        × (length new ≡ k)
        × AllDim dim new
  unfolding recompute
  recompute-total vs cs k dim b =
      let zeros = replicate dim zero32 in
      let (sums, counts, e, ls, lc, a) =
        accumulate-total vs cs k dim (replicate k zeros) (replicate k 0) b
          (length-replicate k zeros) (length-replicate k 0)
          (replicate-AllDim dim k zeros (length-replicate dim zero32)) in
      let (l, a') = means-AllDim dim k sums counts ls lc a in
      (zip_with (mean fl dim) sums counts, rw e refl, l, a')

  pub choose-lt :
      (t : F32) (chosen i n : ℕ) (ds : List F32)
      → chosen < n
      → i + length ds ≤ n
      → choose fl t chosen i ds < n
  unfolding choose
  choose-lt t chosen i n [] h l = h
  choose-lt t chosen i n (d ∷ ds) h l = elim (Bool-cases (le (sub t d) zero32)) [
    | inl e ↦ rw e (omega arith)
    | inr e ↦ rw e (choose-lt (sub t d) chosen (suc i) n ds h (omega arith))
  ]
