-- ===== src/Ivf/Probe.antt =====
-- ivf-index/src/ivf.rs: probing one query. `sort_dists` and `sort_centroids` are the unstable sorts,
-- and `l2_f32` is the distance: on vectors of one length it returns (Ivf/Distance). The form of the
-- code that also takes the time, probe_with_breakdown, is `probe`.
pub mod Nearest
use secure_vector_search.Prelude.{
  ℕ, zero, suc, ◌==◌, if◌then◌else◌, min, Bool, Option, none, some, ◌>>=◌, List, [], ◌∷◌, ◌++◌, map,
  length, take, get_elem?,
}
use secure_vector_search.Float32.{Float32}
use secure_vector_search.Sorting.{Sorting}
use secure_vector_search.Ivf.Index.{IvfIndex}

pub record Hit (F32 : Type 0) : Type 0 where
  pub id : ℕ
  pub score : F32

-- `xs.iter().enumerate()`, from `i` on.
abbrev pub enumerate_from {ℓ} : {A : Type ℓ} → ℕ → List A → List (ℕ × A)
enumerate_from i [] = []
enumerate_from i (x ∷ xs) = (i, x) ∷ enumerate_from (suc i) xs

-- `xs.iter().flat_map(f)`, where `f` may panic.
unfoldable pub flat_map_list {ℓ κ} :
    {A : Type ℓ} {B : Type κ} → (A → Option (List B)) → List A → Option (List B)
flat_map_list f [] = some []
flat_map_list f (x ∷ xs) = do ys ← f x; zs ← flat_map_list f xs; some (ys ++ zs)

-- `xs.iter().map(f).collect()`, where `f` may panic.
unfoldable pub map_list {ℓ κ} :
    {A : Type ℓ} {B : Type κ} → (A → Option B) → List A → Option (List B)
map_list f [] = some []
map_list f (x ∷ xs) = do y ← f x; ys ← map_list f xs; some (y ∷ ys)

module _ (fl : Float32) where
  open fl use {F32, neg, total_le}

  -- `a.1.total_cmp(&b.1)`
  abbrev pub nearer : (ℕ × F32) → (ℕ × F32) → Bool
  nearer a b = total_le a.1 b.1

  module _ (s : Sorting (ℕ × F32) nearer) where
    unfoldable pub probe_merge : List (ℕ × F32) → ℕ → List (Hit F32)
    probe_merge dists k =
        let k' = min k (length dists) in
        if k' == 0
        then []
        else map (λ (p : ℕ × F32). record { id = p.0; score = neg p.1 }) (take k' (s.sort dists))

    module _ (l2_f32 : List F32 → List F32 → F32) where
      unfoldable pub probe_route : IvfIndex F32 → List F32 → ℕ → List ℕ
      probe_route index query nprobe =
          let centroid_dists =
            map (λ (p : ℕ × List F32). (p.0, l2_f32 query p.1))
              (enumerate_from 0 index.centroids) in
          map (λ (p : ℕ × F32). p.0)
            (take (min nprobe (length index.centroids)) (s.sort centroid_dists))

      unfoldable pub probe_distance : IvfIndex F32 → List F32 → List ℕ → Option (List (ℕ × F32))
      probe_distance index query probe_set =
          flat_map_list
            (λ c. do
              cluster ← get_elem? index.clusters c
              some (map (λ (p : ℕ × List F32). (p.0, l2_f32 query p.1)) cluster))
            probe_set

      unfoldable pub probe : IvfIndex F32 → List F32 → ℕ → ℕ → Option (List (Hit F32))
      probe index query nprobe k = do
        let probe_set = probe_route index query nprobe
        dists ← probe_distance index query probe_set
        some (probe_merge dists k)

      unfoldable pub probe_with_route :
          IvfIndex F32 → List F32 → ℕ → ℕ → Option (List (Hit F32) × List ℕ)
      probe_with_route index query nprobe k = do
        let probe_set = probe_route index query nprobe
        dists ← probe_distance index query probe_set
        let hits = probe_merge dists k
        some (hits, probe_set)
