-- ===== src/Bntm/Scorer.antt =====
-- scorer-bntm/src/lib.rs: the flat scorer on the CPU, from `upload_cluster` to `score`.
pub mod Upload
pub mod Honest
pub mod Scores
use secure_vector_search.Prelude.{
  ℕ, ◌-◌, ◌*◌, ◌≤◌, min, ltb, if◌then◌else◌, ℤ, pos, negsuc, leb, Bool, true, false, List, [], ◌∷◌,
  length, get_elem?, get_or, map, take, tabulate, nth, Option, some, none, ◌>>=◌, collect_flat,
  Result, ok, err, and_then, u32,
}
use secure_vector_search.Rng.{Rng}
use secure_vector_search.Float.{Float}
use secure_vector_search.Sorting.{Sorting}
use secure_vector_search.Bntm.Params.{
  BnTmParams, dimension, subspace_dimension, mu, verification_trials,
}
use secure_vector_search.Bntm.Sampling.{generate_subspace, domain_separate}
use secure_vector_search.Bntm.Cluster.{EncryptedCluster, encrypt_cluster}
use secure_vector_search.Bntm.Query.{QueryEncoded, encode_query}
use secure_vector_search.Bntm.Kernel.{compute_products}
use secure_vector_search.Bntm.Decode.{Verdict, decode_scores, verify_response}
use secure_vector_search.Bntm.Quantise.{quantise_vector, fp_to_signed}

pub data BnTmError : Type 0 where
  dimension_too_large : ℕ → ℕ → BnTmError
  quantisation_overflow : ℕ → BnTmError
  verification_failed : ℕ → BnTmError
  spawn_panic : BnTmError
  gpu_feature_not_enabled : BnTmError

pub data Device : Type 0 where
  cpu : Device
  gpu : Device

pub record BnTmConfig : Type 0 where
  pub params : BnTmParams
  pub key_seed : List ℕ
  pub verification_enabled : Bool
  pub quantisation_q : ℕ
  pub device : Device

pub record BnTmHandle : Type 0 where
  pub cluster : EncryptedCluster
  pub l_subspace : List ℕ
  pub params : BnTmParams
  pub dim : ℕ
  pub verification_enabled : Bool
  pub quantisation_q : ℕ

-- A panic inside the closure becomes `SpawnPanic`.
abbrev pub spawn_blocking : {A : Type 0} → Option A → Result BnTmError A
spawn_blocking (some a) = ok a
spawn_blocking none = err spawn_panic

abbrev pub protocol2 : List ℕ
protocol2 = 112 ∷ 114 ∷ 111 ∷ 116 ∷ 111 ∷ 99 ∷ 111 ∷ 108 ∷ 50 ∷ []

abbrev pub check_verdict : {A : Type 0} → Verdict → Result BnTmError A → Result BnTmError A
check_verdict (ok _) next = next
check_verdict (err trial) next = err (verification_failed trial)

-- Descending by score.
abbrev pub le_ℤ : ℤ → ℤ → Bool
le_ℤ (pos a) (pos b) = leb a b
le_ℤ (pos a) (negsuc b) = false
le_ℤ (negsuc a) (pos b) = true
le_ℤ (negsuc a) (negsuc b) = leb b a

abbrev pub before : ℕ × ℤ → ℕ × ℤ → Bool
before x y = le_ℤ y.1 x.1

module _ (f : Float) where
  open f use {F32}

  pub record Hit : Type 0 where
    pub id : ℕ
    pub score : F32

module _ (g : Rng) (f : Float) (fuel : ℕ) where
  open g use {State, from_seed}
  open f use {F32}

  -- The two branches of `device`; this build has no `gpu` feature.
  abbrev pub attach_device : Device → BnTmHandle → Result BnTmError BnTmHandle
  attach_device cpu handle = ok handle
  attach_device gpu handle = err gpu_feature_not_enabled

  unfoldable pub quantise_row : List (List F32) → ℕ → ℕ → ℕ → Option (List ℕ)
  quantise_row vectors n q i = do v ← get_elem? vectors i; quantise_vector f v n q

  unfoldable pub build_cluster :
      BnTmParams → List ℕ → List ℕ → List ℕ → ℕ → Option (List ℕ × EncryptedCluster)
  build_cluster params key_seed h_seed m_q m = do
    n1 ← subspace_dimension f params
    l_subspace ← generate_subspace g fuel key_seed (dimension params) n1
    cluster ← encrypt_cluster g f fuel m_q m l_subspace h_seed (dimension params) n1 (mu f params)
    some (l_subspace, cluster)

  -- `h_seed` is what `sample_h_seed` drew.
  unfoldable pub upload_cluster :
      BnTmConfig → List (List F32) → List ℕ → Option (Result BnTmError BnTmHandle)
  upload_cluster config vectors h_seed =
      let n = dimension config.params in
      let m = length vectors in
      let dim = length (get_or vectors 0 []) in
      let build = collect_flat m (quantise_row vectors n config.quantisation_q) >>= λ m_q. some (
        and_then (spawn_blocking (build_cluster config.params config.key_seed h_seed m_q m))
          (λ (l_subspace, cluster). attach_device config.device (record {
            cluster = cluster;
            l_subspace = l_subspace;
            params = config.params;
            dim = dim;
            verification_enabled = config.verification_enabled;
            quantisation_q = config.quantisation_q;
          }))) in
      if ltb n dim then some (err (dimension_too_large dim n)) else build

  module _ (avx512f : Bool) (to_f32 : ℤ → F32) (s : Sorting (ℕ × ℤ) before) where
    unfoldable pub respond : BnTmHandle → List ℕ → List ℕ → Option (List ℕ × QueryEncoded)
    respond handle v_q q_seed = do
      n1 ← subspace_dimension f handle.params
      (encoded, _) ←
          encode_query g f fuel v_q handle.l_subspace (from_seed q_seed) (dimension handle.params)
            n1 (mu f handle.params)
      r ←
          compute_products avx512f handle.cluster.m_enc handle.cluster.m (dimension handle.params)
            encoded.v_enc
      some (r, encoded)

    unfoldable pub verify : BnTmHandle → List ℕ → List ℕ → QueryEncoded → Option Verdict
    verify handle q_seed r encoded = do
      seed ← domain_separate g q_seed protocol2
      (verdict, _) ←
          verify_response g fuel r handle.cluster.m_enc handle.cluster.m (dimension handle.params)
            encoded.v_enc (verification_trials handle.params) (from_seed seed)
      some verdict

    -- Decode, lift, rank in descending order and truncate.
    unfoldable pub rank : BnTmHandle → ℕ → List ℕ → QueryEncoded → Option (List (Hit f))
    rank handle k r encoded = do
      n1 ← subspace_dimension f handle.params
      mv ←
          decode_scores avx512f r handle.cluster handle.l_subspace encoded (dimension handle.params)
            n1
      let scored = tabulate (length mv) (λ id. (id, fp_to_signed (nth mv id)))
      let indexed = take (min k handle.cluster.m) (s.sort scored)
      some (map (λ (id, score). record { id = u32 id; score = to_f32 score }) indexed)

    unfoldable pub finish :
        BnTmHandle → ℕ → List ℕ → List ℕ × QueryEncoded → Result BnTmError (List (Hit f))
    finish handle k q_seed (r, encoded) =
        let checked = spawn_blocking (verify handle q_seed r encoded) in
        let ranked = spawn_blocking (rank handle k r encoded) in
        if handle.verification_enabled
        then and_then checked (λ verdict. check_verdict verdict ranked)
        else ranked

    -- `q_seed` is what `sample_h_seed` drew.
    unfoldable pub score :
        BnTmHandle → List F32 → ℕ → List ℕ → Option (Result BnTmError (List (Hit f)))
    score handle query k q_seed =
        let n = dimension handle.params in
        let answer = quantise_vector f query n handle.quantisation_q >>= λ v_q.
        some (and_then (spawn_blocking (respond handle v_q q_seed)) (finish handle k q_seed)) in
        if ltb n (length query) then some (err (dimension_too_large (length query) n)) else answer
