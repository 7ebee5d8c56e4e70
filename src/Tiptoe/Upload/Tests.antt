-- ===== src/Tiptoe/Upload/Tests.antt =====
-- A corpus of three vectors of one component, its file, and a second corpus of the same size.
use secure_vector_search.Prelude.{
  ℕ, ◌-◌, ◌<◌, ◌≡◌, ◌==◌, ==_refl, refl, arith, if◌then◌else◌, true, false, some, none, ok, err,
  Result, List, [], ◌∷◌, replicate, length-replicate,
}
use secure_vector_search.Tiptoe.Toy.{counter, scaled, ratio, always}
use secure_vector_search.Core.Cache.{fingerprint64}
use secure_vector_search.Ivf.Index.{IvfIndex}
use secure_vector_search.Ivf.Toy.{
  Toy, n0, n1, n2, n3, toy_float32, toy-IsFloat32, toy_l2, toy_random,
}
use secure_vector_search.Ivf.Codec.Loops.{append_to}
use secure_vector_search.Tiptoe.Encoding.{validate_params}
use secure_vector_search.Tiptoe.SimplePir.{PirSetup}
use secure_vector_search.Tiptoe.Ranking.{empty_cluster}
use secure_vector_search.Tiptoe.Upload.{
  TiptoeConfig, CacheEntry, TiptoeScorer, any_empty, parts_of, handle_of, after_memory,
  upload_cluster, from_disk,
}
use secure_vector_search.Tiptoe.Upload.Cache.{save_tiptoe_cache, load_tiptoe_cache}
use secure_vector_search.Tiptoe.Upload.Cache.RoundTrip.{load-save_tiptoe_cache}
use secure_vector_search.Tiptoe.Upload.Serves.{IsBuilt, upload_cluster_lem}
use secure_vector_search.Tiptoe.Upload.Repeated.{upload-upload}

abbrev small_index : IvfIndex Toy
small_index = record {
  centroids = (n0 ∷ []) ∷ (n3 ∷ []) ∷ [];
  clusters = ((0, n0 ∷ []) ∷ (1, n1 ∷ []) ∷ []) ∷ ((2, n3 ∷ []) ∷ []) ∷ [];
}

abbrev small_setup : PirSetup
small_setup = record { seed = replicate 32 7; hint = 5 ∷ 6 ∷ []; r = 2; c = 2; n = 1 }

load-save_tiptoe_cache_example :
    (bytes : List ℕ) × (save_tiptoe_cache toy_float32 append_to
        ((1 ∷ []) ∷ [])
        small_index
        small_setup
        []
      ≡ ok bytes)
    × (load_tiptoe_cache toy_float32 bytes ((2 ∷ []) ∷ []) ≡ (
        if fingerprint64 ((1 ∷ []) ∷ []) == fingerprint64 ((2 ∷ []) ∷ [])
        then some (small_index, small_setup)
        else none))
load-save_tiptoe_cache_example =
    load-save_tiptoe_cache toy_float32 toy-IsFloat32 small_index small_setup ((1 ∷ []) ∷ [])
      ((2 ∷ []) ∷ [])
      (record {
        dim_fits = omega arith;
        centroids_fit = omega arith;
        clusters_fit = omega arith;
        centroids_dim = omega arith;
        clusters_dim = omega arith;
      })
      (record {
        rows_fit = omega arith;
        dimension_fits = omega arith;
        seed_size = length-replicate {A = ℕ} 32 7;
        hint_size = refl;
        hint_words = omega arith;
        columns = refl;
      })

abbrev total : List Toy → Toy
total xs = n3

abbrev takes : List ℕ → ℕ → ℕ → Result ℕ (Unit {0})
takes hint m_max n = ok tt

abbrev two_centroids : TiptoeConfig
two_centroids = record { n_centroids = 2; train_seed = 5; max_iter = 4; quantisation_bits = 2 }

abbrev corpus : List (List Toy)
corpus = (n0 ∷ []) ∷ (n1 ∷ []) ∷ (n3 ∷ []) ∷ []

abbrev other_corpus : List (List Toy)
other_corpus = (n2 ∷ []) ∷ (n2 ∷ []) ∷ (n2 ∷ []) ∷ []

last_in_range : (n s : ℕ) → 0 < n → n - 1 < n
last_in_range n s h = omega arith

upload_cluster_lem_example :
    (entry : CacheEntry Toy) × IsBuilt toy_float32 toy-IsFloat32 toy_l2 toy_random total counter
      scaled ratio ratio always 0 [] takes two_centroids corpus 1
      (omega arith)
      entry
    × ((upload_cluster toy_float32 toy_l2 toy_random total counter scaled ratio always 0 [] takes
          true
          (record { cache = []; cache_dir = none })
          two_centroids
          corpus).0
        ≡ (if any_empty entry.index.clusters
            then err empty_cluster
            else ok (handle_of two_centroids corpus entry, false)))
unfolding from_disk
upload_cluster_lem_example =
    upload_cluster_lem toy_float32 toy-IsFloat32 toy_l2 toy_random total counter scaled ratio ratio
      always 0 [] takes two_centroids corpus 1 (omega arith) true
      (record { cache = []; cache_dir = none }) (refl, (refl, (refl, tt)))
      ((refl, tt), ((refl, tt), ((refl, tt), tt))) (omega arith) (omega arith) (omega arith)
      (omega arith) last_in_range (λ hint m_max n. refl) refl refl

abbrev small_entry : CacheEntry Toy
small_entry = record {
  index = small_index;
  encoded = record {
    matrix = 0 ∷ 3 ∷ 1 ∷ 0 ∷ [];
    m_max = 2;
    d = 1;
    n_centroids = 2;
    cluster_membership = (0 ∷ 1 ∷ []) ∷ (2 ∷ []) ∷ [];
  };
  pir_setup = small_setup;
}

abbrev filled : TiptoeScorer Toy
filled = record {
  cache = (fingerprint64 (parts_of 0 [] two_centroids corpus), small_entry) ∷ [];
  cache_dir = none;
}

filled-upload :
    upload_cluster toy_float32 toy_l2 toy_random total counter scaled ratio always 0 [] takes true
      filled two_centroids corpus
    ≡ (ok (handle_of two_centroids corpus small_entry, true), filled)
unfolding upload_cluster after_memory validate_params
filled-upload =
    let found = ==_refl (fingerprint64 (parts_of 0 [] two_centroids corpus)) in rw found refl

upload-upload_example :
    upload_cluster toy_float32 toy_l2 toy_random total counter scaled ratio always 0 [] takes false
      filled two_centroids other_corpus
    ≡ (ok (handle_of two_centroids corpus small_entry, true), filled)
upload-upload_example =
    upload-upload toy_float32 toy_l2 toy_random total counter scaled ratio always 0 [] takes
      two_centroids corpus true false true filled filled
      (handle_of two_centroids corpus small_entry) other_corpus refl refl filled-upload
