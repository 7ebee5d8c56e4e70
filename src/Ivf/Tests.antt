-- ===== src/Ivf/Tests.antt =====
-- Concrete indexes, files, batches and data for ivf-index.
use secure_vector_search.Prelude.{
  ℕ, zero, suc, ◌+◌, ◌-◌, ◌*◌, ◌<◌, ◌≡◌, ◌==◌, ltb, leb, refl, arith, if◌then◌else◌, true, some,
  none, ok, err, List, [], ◌∷◌, ◌++◌, map, length, get_or, concat_map, zip_with, tabulate,
}
use mathlib.Core.List.{Perm}
use secure_vector_search.Core.Cache.{fingerprint64}
use secure_vector_search.Float32.{Float32}
use secure_vector_search.Sorting.TopK.{IsTopK}
use secure_vector_search.Ivf.Toy.{
  Toy, n0, n1, n2, n3, toy_float32, toy-IsFloat32, toy_l2, toy_sort, toy_random,
}
use secure_vector_search.Ivf.Index.{IvfIndex}
use secure_vector_search.Ivf.Codec.{
  write_each, write_index_to, save_index, load_index, save_index_with_header,
  load_index_with_header,
}
use secure_vector_search.Ivf.Codec.Loops.{append_to}
use secure_vector_search.Ivf.Codec.Layout.{IsStorable}
use secure_vector_search.Ivf.Codec.RoundTrip.{load-save, load-save_with_header}
use secure_vector_search.Ivf.Codec.Truncated.{load_truncated}
use secure_vector_search.Ivf.Probe.{Hit, enumerate_from, map_list, nearer, probe}
use secure_vector_search.Ivf.Probe.Nearest.{
  distances, centroid_distances, cluster_distances, to_hit, probe_lem,
}
use secure_vector_search.Ivf.Build.{build_index}
use secure_vector_search.Ivf.Build.Partition.{concat, members, build_index_lem}
use secure_vector_search.Ivf.Build.Exhaustive.{probe-build_index}
use secure_vector_search.Ivf.Batch.{probe_batch, probe_batch_split}
use secure_vector_search.Ivf.Batch.Agree.{probe_batch-eq-probes, split_probe, probe_batch_split_lem}
use secure_vector_search.Ivf.Kmeans.{assign, nearest, kmeans_plus_plus_init, train}
use secure_vector_search.Ivf.Kmeans.Nearest.{nearest_lem, distance_to, IsFirstLeast}
use secure_vector_search.Ivf.Kmeans.Trained.{IsTrained, train_lem}
use secure_vector_search.Ivf.Distance.{Lanes, l2_f32}
use secure_vector_search.Ivf.Distance.Unrolled.{lane, square, l2_f32_lem}

abbrev small : IvfIndex Toy
small = record {
  centroids = (n0 ∷ n1 ∷ []) ∷ (n3 ∷ n2 ∷ []) ∷ [];
  clusters = ((0, n0 ∷ n0 ∷ []) ∷ (2, n1 ∷ n3 ∷ []) ∷ []) ∷ ((1, n3 ∷ n0 ∷ []) ∷ []) ∷ [];
}

small-IsStorable : IsStorable toy_float32 small
small-IsStorable = record {
  dim_fits = omega arith;
  centroids_fit = omega arith;
  clusters_fit = omega arith;
  centroids_dim = omega arith;
  clusters_dim = omega arith;
}

load-save_example :
    (bytes : List ℕ) × (save_index toy_float32 append_to small [] ≡ ok bytes)
    × (load_index toy_float32 (bytes ++ 7 ∷ []) ≡ ok small)
load-save_example = load-save toy_float32 toy-IsFloat32 small (7 ∷ []) small-IsStorable

abbrev tags : List (List ℕ)
tags = (105 ∷ 118 ∷ 102 ∷ []) ∷ []

load-save_with_header_example :
    (bytes : List ℕ) × (save_index_with_header toy_float32 append_to small tags [] ≡ ok bytes)
    × (load_index_with_header toy_float32 bytes []
        ≡ ok (if fingerprint64 tags == fingerprint64 [] then some small else none))
load-save_with_header_example =
    load-save_with_header toy_float32 toy-IsFloat32 small tags [] small-IsStorable

-- An index without clusters: its payload is 24 bytes of zero.
abbrev nothing : IvfIndex Toy
nothing = record { centroids = []; clusters = [] }

nothing-IsStorable : IsStorable toy_float32 nothing
nothing-IsStorable = record {
  dim_fits = omega arith;
  centroids_fit = omega arith;
  clusters_fit = omega arith;
  centroids_dim = tt;
  clusters_dim = tt;
}

abbrev zeros : ℕ → List ℕ
zeros zero = []
zeros (suc n) = 0 ∷ zeros n

nothing_saved : save_index toy_float32 append_to nothing [] ≡ ok (zeros 23 ++ 0 ∷ [])
unfolding save_index write_index_to write_each
nothing_saved = refl

load_truncated_example : load_index toy_float32 (zeros 23) ≡ err tt
load_truncated_example =
    load_truncated toy_float32 toy-IsFloat32 nothing (zeros 23) [] 0 nothing-IsStorable
      nothing_saved

probe_lem_example :
    (probed best : List (ℕ × Toy)) × IsTopK
      (nearer toy_float32)
      1
      (centroid_distances toy_float32 toy_l2 small (n2 ∷ n0 ∷ []))
      probed
    × IsTopK
        (nearer toy_float32)
        2
        (concat_map
          (λ (p : ℕ × Toy). cluster_distances toy_float32 toy_l2 small (n2 ∷ n0 ∷ []) p.0)
          probed)
        best
    × (probe toy_float32 toy_sort toy_l2 small (n2 ∷ n0 ∷ []) 1 2
        ≡ some (map (to_hit toy_float32 toy_l2) best))
probe_lem_example = probe_lem toy_float32 toy_l2 toy_sort small (n2 ∷ n0 ∷ []) 1 2 refl

abbrev points : List (List Toy)
points = (n0 ∷ []) ∷ (n3 ∷ []) ∷ (n1 ∷ []) ∷ []

abbrev means : List (List Toy)
means = (n0 ∷ []) ∷ (n2 ∷ []) ∷ []

build_index_lem_example :
    (index : IvfIndex Toy) × (assignments : List ℕ) × (build_index toy_float32 toy_l2 points means
      ≡ some index)
    × (assign toy_float32 toy_l2 points means ≡ some assignments)
    × (index.centroids ≡ means)
    × (length index.clusters ≡ length means)
    × ((c : ℕ) → c < length means → get_or index.clusters c [] ≡ members c 0 points assignments)
    × Perm (concat index.clusters) (enumerate_from 0 points)
build_index_lem_example =
    build_index_lem toy_float32 toy-IsFloat32 toy_l2 points means (omega arith) (omega arith)

probe-build_index_example :
    (index : IvfIndex Toy) × (best : List (ℕ × Toy)) × (build_index toy_float32 toy_l2 points means
      ≡ some index)
    × IsTopK
        (nearer toy_float32)
        2
        (distances toy_float32 toy_l2 (n2 ∷ []) (enumerate_from 0 points))
        best
    × (probe toy_float32 toy_sort toy_l2 index (n2 ∷ []) 2 2
        ≡ some (map (to_hit toy_float32 toy_l2) best))
probe-build_index_example =
    probe-build_index toy_float32 toy_l2 toy-IsFloat32 toy_sort points means (n2 ∷ []) 2 2
      (omega arith) (omega arith) (omega arith)

probe_batch-eq-probes_example :
    (hits : List (List (Hit Toy))) × (probe_batch toy_float32 toy_l2 toy_sort small
        ((n2 ∷ n0 ∷ []) ∷ (n0 ∷ n0 ∷ []) ∷ [])
        2
        2
      ≡ some hits)
    × (map_list
          (λ q. probe toy_float32 toy_sort toy_l2 small q 2 2)
          ((n2 ∷ n0 ∷ []) ∷ (n0 ∷ n0 ∷ []) ∷ [])
        ≡ some hits)
probe_batch-eq-probes_example =
    probe_batch-eq-probes toy_float32 toy_l2 toy_sort small ((n2 ∷ n0 ∷ []) ∷ (n0 ∷ n0 ∷ []) ∷ []) 2
      2 refl

probe_batch_split_lem_example :
    probe_batch_split toy_float32 toy_l2 toy_sort small ((n2 ∷ []) ∷ []) ((n1 ∷ n0 ∷ []) ∷ []) 1 2
    ≡ (if length ((n2 ∷ []) ∷ []) == length ((n1 ∷ n0 ∷ []) ∷ [])
        then map_list
            (split_probe toy_float32 toy_l2 toy_sort small 1 2)
            (zip_with (λ r q. (r, q)) ((n2 ∷ []) ∷ []) ((n1 ∷ n0 ∷ []) ∷ []))
        else none)
probe_batch_split_lem_example =
    probe_batch_split_lem toy_float32 toy_l2 toy_sort small ((n2 ∷ []) ∷ []) ((n1 ∷ n0 ∷ []) ∷ []) 1
      2 refl

nearest_lem_example :
    (i : ℕ) × (nearest toy_float32 toy_l2 means (n1 ∷ []) ≡ some i)
    × IsFirstLeast toy_float32 toy-IsFloat32
        (distance_to toy_float32 toy-IsFloat32 toy_l2 means (n1 ∷ []))
        2
        i
nearest_lem_example = nearest_lem toy_float32 toy-IsFloat32 toy_l2 means (n1 ∷ []) (omega arith)

last_in_range : (n s : ℕ) → 0 < n → n - 1 < n
last_in_range n s h = omega arith

train_lem_example :
    (init cs : List (List Toy)) × (rng : ℕ) × (kmeans_plus_plus_init toy_float32 toy_l2 toy_random
        (λ xs. n3)
        points
        2
        5
      ≡ some (init, rng))
    × (train toy_float32 toy_l2 toy_random (λ xs. n3) points 2 5 4 ≡ some cs)
    × IsTrained toy_float32 toy-IsFloat32 toy_l2 points 2 1 4 init cs
train_lem_example =
    train_lem toy_float32 toy-IsFloat32 toy_l2 toy_random (λ xs. n3) points 1 2 5 4 (omega arith)
      (omega arith) (omega arith) last_in_range

-- Whole numbers, in which the arithmetic is exact.
abbrev whole : Float32
whole = record {
  F32 = ℕ;
  zero32 = 0;
  add = λ a b. a + b;
  sub = λ a b. a - b;
  mul = λ a b. a * b;
  div = λ a b. a;
  neg = λ a. a;
  sqrt = λ a. a;
  of_usize = λ n. n;
  le = leb;
  lt = ltb;
  eq = λ a b. a == b;
  total_le = leb;
  to_bits = λ a. a;
  from_bits = λ a. a;
}

abbrev sum_of : List ℕ → ℕ
sum_of [] = 0
sum_of (x ∷ xs) = x + sum_of xs

abbrev whole_lanes : Lanes ℕ
whole_lanes = record { mul_add = λ x y z. x * y + z; reduce_add = sum_of; sum32 = sum_of }

abbrev long : List ℕ
long = 9 ∷ zeros 17

abbrev other : List ℕ
other = 5 ∷ zeros 17

-- One whole chunk of 16 components, and a tail of two.
l2_f32_lem_example :
    l2_f32 whole whole_lanes true long other
    ≡ some (
        sum_of (tabulate 16 (lane whole whole_lanes long other refl 1))
        + sum_of (tabulate 2 (λ i. square whole whole_lanes long other refl (16 + i))))
l2_f32_lem_example = l2_f32_lem whole whole_lanes long other refl true
