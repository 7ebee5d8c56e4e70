-- ===== src/Ivf/Kmeans.antt =====
-- ivf-index/src/kmeans.rs: assign, recompute, kmeans_plus_plus_init and train. The generator is a
-- parameter, and so is `sum_par`, rayon's sum, which adds in an order of its choice. The callbacks that
-- report progress are left out.
pub mod Nearest
pub mod Shapes
pub mod Trained
use secure_vector_search.Prelude.{
  ℕ, zero, suc, ◌+◌, ◌-◌, ◌==◌, if◌then◌else◌, Bool, true, false, ◌&&◌, Option, none, some, ◌>>=◌,
  List, [], ◌∷◌, ◌++◌, map, length, get_elem?, set, replicate, zip_with,
}
use secure_vector_search.Float32.{Float32}
use secure_vector_search.Ivf.Probe.{enumerate_from, map_list}

pub record Random (F32 : Type 0) : Type 1 where
  pub State : Type 0
  pub seed_from_u64 : ℕ → State
  -- `random_range(0..n)`, for a positive n
  pub random_range : ℕ → State → ℕ × State
  pub random_f32 : State → F32 × State

module _ (fl : Float32) where
  open fl use {F32, zero32, add, sub, mul, div, of_usize, le, lt, eq, total_le}

  -- `min_by` keeps the first of equal minima.
  unfoldable pub closer : (ℕ × F32) → (ℕ × F32) → (ℕ × F32)
  closer best next = if total_le best.1 next.1 then best else next

  unfoldable pub min_from : (ℕ × F32) → List (ℕ × F32) → ℕ × F32
  min_from best [] = best
  min_from best (x ∷ xs) = min_from (closer best x) xs

  unfoldable pub min_by : List (ℕ × F32) → Option (ℕ × F32)
  min_by [] = none
  min_by (x ∷ xs) = some (min_from x xs)

  -- `for (s, x) in sums[c].iter_mut().zip(v) { *s += x; }`
  unfoldable pub add_components : List F32 → List F32 → List F32
  add_components [] v = []
  add_components (s ∷ ss) [] = s ∷ ss
  add_components (s ∷ ss) (x ∷ v) = add s x ∷ add_components ss v

  unfoldable pub accumulate :
      List (List F32) → List ℕ → List (List F32) → List ℕ → Option (List (List F32) × List ℕ)
  accumulate [] cs sums counts = some (sums, counts)
  accumulate (v ∷ vs) [] sums counts = some (sums, counts)
  accumulate (v ∷ vs) (c ∷ cs) sums counts = do
    s ← get_elem? sums c
    n ← get_elem? counts c
    accumulate vs cs (set sums c (add_components s v)) (set counts c (n + 1))

  unfoldable pub mean : ℕ → List F32 → ℕ → List F32
  mean dim s n = if n == 0 then replicate dim zero32 else map (λ x. div x (of_usize n)) s

  unfoldable pub recompute : List (List F32) → List ℕ → ℕ → ℕ → Option (List (List F32))
  recompute vectors assignments k dim = do
    (sums, counts) ←
        accumulate vectors assignments (replicate k (replicate dim zero32)) (replicate k 0)
    some (zip_with (mean dim) sums counts)

  -- The first index at which the threshold is used up; `chosen` if there is none.
  unfoldable pub choose : F32 → ℕ → ℕ → List F32 → ℕ
  choose threshold chosen i [] = chosen
  choose threshold chosen i (d ∷ ds) =
      let threshold' = sub threshold d in
      let rest = choose threshold' chosen (suc i) ds in if le threshold' zero32 then i else rest

  unfoldable pub same_vector : List F32 → List F32 → Bool
  same_vector [] [] = true
  same_vector [] (y ∷ ys) = false
  same_vector (x ∷ xs) [] = false
  same_vector (x ∷ xs) (y ∷ ys) = eq x y && same_vector xs ys

  -- `new_centroids == centroids`
  unfoldable pub same_centroids : List (List F32) → List (List F32) → Bool
  same_centroids [] [] = true
  same_centroids [] (y ∷ ys) = false
  same_centroids (x ∷ xs) [] = false
  same_centroids (x ∷ xs) (y ∷ ys) = same_vector x y && same_centroids xs ys

  module _ (l2_f32 : List F32 → List F32 → F32) where
    unfoldable pub nearest : List (List F32) → List F32 → Option ℕ
    nearest centroids v = do
      best ← min_by (map (λ (p : ℕ × List F32). (p.0, l2_f32 v p.1)) (enumerate_from 0 centroids))
      some best.0

    unfoldable pub assign : List (List F32) → List (List F32) → Option (List ℕ)
    assign vectors centroids = map_list (nearest centroids) vectors

    unfoldable pub squared : List F32 → List F32 → F32
    squared v c = let d = l2_f32 v c in mul d d

    unfoldable pub lower : List F32 → F32 → List F32 → F32
    lower new_c m v = let d_sq = squared v new_c in if lt d_sq m then d_sq else m

    unfoldable pub round : List (List F32) → ℕ → ℕ → List (List F32) → Option (List (List F32))
    round vectors k dim centroids = do
      assignments ← assign vectors centroids
      recompute vectors assignments k dim

    -- `for i in 0..max_iter`, with its `break`.
    unfoldable pub lloyd : List (List F32) → ℕ → ℕ → ℕ → List (List F32) → Option (List (List F32))
    lloyd vectors k dim zero centroids = some centroids
    lloyd vectors k dim (suc left) centroids = do
      new_centroids ← round vectors k dim centroids
      let rest = lloyd vectors k dim left new_centroids
      if same_centroids new_centroids centroids then some centroids else rest

    module _ (g : Random F32) (sum_par : List F32 → F32) where
      open g use {State, seed_from_u64, random_range, random_f32}

      -- `for ci in 1..k`
      unfoldable pub add_centroids :
          List (List F32)
          → ℕ
          → List (List F32)
          → List F32
          → State
          → Option (List (List F32) × State)
      add_centroids vectors zero centroids min_dist_sq rng = some (centroids, rng)
      add_centroids vectors (suc left) centroids min_dist_sq rng = do
        let (r, rng') = random_f32 rng
        let threshold = mul r (sum_par min_dist_sq)
        let chosen = choose threshold (length vectors - 1) 0 min_dist_sq
        new_c ← get_elem? vectors chosen
        add_centroids vectors left (centroids ++ new_c ∷ [])
            (zip_with (lower new_c) min_dist_sq vectors) rng'

      unfoldable pub kmeans_plus_plus_init :
          List (List F32) → ℕ → State → Option (List (List F32) × State)
      kmeans_plus_plus_init vectors k rng =
          let n = length vectors in
          if n == 0 then none else (do
            let (first, rng') = random_range n rng
            c ← get_elem? vectors first
            add_centroids vectors (k - 1) (c ∷ []) (map (λ v. squared v c) vectors) rng')

      unfoldable pub train : List (List F32) → ℕ → ℕ → ℕ → Option (List (List F32))
      train vectors k seed max_iter = do
        (centroids, rng) ← kmeans_plus_plus_init vectors k (seed_from_u64 seed)
        first ← get_elem? vectors 0
        lloyd vectors k (length first) max_iter centroids
