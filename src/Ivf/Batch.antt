-- ===== src/Ivf/Batch.antt =====
-- ivf-index/src/ivf.rs: probe_batch and probe_batch_split, which visit each cluster once for a batch.
pub mod Invert
pub mod Bins
pub mod Gather
pub mod Zip
pub mod Whole
pub mod Scatter
pub mod Agree
use secure_vector_search.Prelude.{
  ℕ, suc, ◌==◌, ltb, if◌then◌else◌, Bool, Option, none, some, ◌>>=◌, ◌>>◌, assert, List, [], ◌∷◌,
  ◌++◌, map, length, get_elem?, set, replicate, concat_map,
}
use secure_vector_search.Float32.{Float32}
use secure_vector_search.Sorting.{Sorting}
use secure_vector_search.Ivf.Index.{IvfIndex}
use secure_vector_search.Ivf.Probe.{Hit, enumerate_from, map_list, nearer, probe_route, probe_merge}
use secure_vector_search.Ivf.Build.{push_at}

-- For each cluster, the queries that probe it, each with the position in its probe set.
abbrev pub Visits : Type 0
Visits = List (List (ℕ × ℕ))

unfoldable pub invert_probes : ℕ → ℕ → List ℕ → Visits → Option Visits
invert_probes q_idx pos [] table = some table
invert_probes q_idx pos (c_idx ∷ probes) table = do
  table' ← push_at table c_idx (q_idx, pos)
  invert_probes q_idx (suc pos) probes table'

unfoldable pub invert : ℕ → List (List ℕ) → Visits → Option Visits
invert q_idx [] table = some table
invert q_idx (probes ∷ sets) table = do
  table' ← invert_probes q_idx 0 probes table
  invert (suc q_idx) sets table'

module _ {A : Type 0} where
  -- `bins_per_query[q_idx][pos] = bin`
  unfoldable pub write_bin : ℕ → ℕ → A → List (List A) → Option (List (List A))
  write_bin q_idx pos bin rows = do
    row ← get_elem? rows q_idx
    assert (ltb pos (length row))
    some (set rows q_idx (set row pos bin))

  unfoldable pub scatter : List (ℕ × ℕ × A) → List (List A) → Option (List (List A))
  scatter [] rows = some rows
  scatter ((q_idx, pos, bin) ∷ bins) rows = do
    rows' ← write_bin q_idx pos bin rows
    scatter bins rows'

module _ (fl : Float32) where
  open fl use {F32}

  -- A query, a position in its probe set, and the distances that go there.
  abbrev pub Bin : Type 0
  Bin = ℕ × ℕ × List (ℕ × F32)

  module _ (l2_f32 : List F32 → List F32 → F32) where
    -- `for entry in bins.iter_mut()`
    unfoldable pub push_distances : List (List F32) → ℕ → List F32 → List Bin → Option (List Bin)
    push_distances queries id v [] = some []
    push_distances queries id v ((q_idx, pos, bin) ∷ bins) = do
      query ← get_elem? queries q_idx
      bins' ← push_distances queries id v bins
      some ((q_idx, pos, bin ++ (id, l2_f32 query v) ∷ []) ∷ bins')

    -- `for (id, v) in cluster`
    unfoldable pub fill_bins : List (List F32) → List (ℕ × List F32) → List Bin → Option (List Bin)
    fill_bins queries [] bins = some bins
    fill_bins queries ((id, v) ∷ cluster) bins = do
      bins' ← push_distances queries id v bins
      fill_bins queries cluster bins'

    unfoldable pub cluster_bins :
        IvfIndex F32 → List (List F32) → (ℕ × List (ℕ × ℕ)) → Option (List Bin)
    cluster_bins index queries (c_idx, []) = some []
    cluster_bins index queries (c_idx, visit ∷ visits) = do
      cluster ← get_elem? index.clusters c_idx
      fill_bins queries cluster (map (λ (p : ℕ × ℕ). (p.0, p.1, [])) (visit ∷ visits))

    module _ (s : Sorting (ℕ × F32) (nearer fl)) where
      -- What both functions do after the routing.
      unfoldable pub gather :
          IvfIndex F32 → List (List ℕ) → List (List F32) → ℕ → Option (List (List (Hit F32)))
      gather index probe_sets queries k = do
        per_cluster_qpos ← invert 0 probe_sets (replicate (length index.clusters) [])
        cluster_contribs ← map_list (cluster_bins index queries) (enumerate_from 0 per_cluster_qpos)
        bins_per_query ←
            scatter (concat_map (λ bins. bins) cluster_contribs)
              (map (λ (ps : List ℕ). replicate (length ps) []) probe_sets)
        some (map (λ bins. probe_merge fl s (concat_map (λ bin. bin) bins) k) bins_per_query)

      unfoldable pub probe_batch :
          IvfIndex F32 → List (List F32) → ℕ → ℕ → Option (List (List (Hit F32)))
      probe_batch index queries nprobe k =
          if length queries == 0
          then some []
          else gather index (map (λ q. probe_route fl s l2_f32 index q nprobe) queries) queries k

      unfoldable pub probe_batch_split :
          IvfIndex F32 → List (List F32) → List (List F32) → ℕ → ℕ → Option (List (List (Hit F32)))
      probe_batch_split index routing_queries scoring_queries nprobe k = do
        assert (length routing_queries == length scoring_queries)
        let sets = map (λ q. probe_route fl s l2_f32 index q nprobe) routing_queries
        let scored = gather index sets scoring_queries k
        (if length routing_queries == 0 then some [] else scored)
