-- ===== src/Gpu/Store/Tests.antt =====
-- Concrete stores: a full one, and two uploads that race.
use secure_vector_search.Prelude.{ℕ, ◌≤◌, ◌≡◌, refl, arith, true, ltb, Result, ok}
use secure_vector_search.Gpu.Store.{
  LruInner, ClusterStoreStats, ClusterStoreError, new_lru, insert, evict_one, evict_loop,
  pre_evict_for, touch, lookup_section, insert_section, get_or_upload,
}
use secure_vector_search.Gpu.Store.Invariant.{
  IsConsistent, new_lru-IsConsistent, insert-IsConsistent,
}
use secure_vector_search.Gpu.Store.Evict.{IsEvicted, pre_evict-IsEvicted}
use secure_vector_search.Gpu.Store.Resolve.{IsResolved, get_or_upload_lem}

-- A payload is its size in bytes.
abbrev size : ℕ → ℕ
size n = n

abbrev empty_store : LruInner ℕ
empty_store = new_lru 10

abbrev one_store : LruInner ℕ
one_store = (insert size 1 4 empty_store).1

-- Clusters 1 and 2 of four and five bytes, of a budget of ten.
abbrev full_store : LruInner ℕ
full_store = (insert size 2 5 one_store).1

abbrev no_stats : ClusterStoreStats
no_stats = record { gets = 0; uploads = 0; evictions = 0; bytes_uploaded = 0 }

one_store-IsConsistent : IsConsistent one_store
unfolding new_lru
one_store-IsConsistent =
    insert-IsConsistent size 1 4 empty_store (omega arith) (new_lru-IsConsistent 10)

full_store-IsConsistent : IsConsistent full_store
unfolding new_lru insert
full_store-IsConsistent =
    insert-IsConsistent size 2 5 one_store (omega arith) one_store-IsConsistent

full_store_bytes : full_store.resident_bytes ≡ 9
unfolding new_lru insert
full_store_bytes = refl

full_store_budget : full_store.budget_bytes ≡ 10
unfolding new_lru insert
full_store_budget = refl

pre_evict-IsEvicted_example :
    (t : LruInner ℕ) × (stats : ClusterStoreStats) × (pre_evict_for {E = ℕ} {S = ℕ} 4
        (full_store, no_stats)
      ≡ ((t, stats), ok tt))
    × IsEvicted 4 full_store t
pre_evict-IsEvicted_example =
    pre_evict-IsEvicted ℕ ℕ 4 full_store no_stats (omega (arith, full_store_budget))
      (omega (arith, full_store_bytes)) full_store-IsConsistent

upload_fits : (payload : ℕ) → ◌≡◌ {A = Result ℕ ℕ} (ok 4) (ok payload) → size payload ≤ 4
upload_fits payload e = ground (arith, e)

get_or_upload_lem_example :
    (t : LruInner ℕ) × (stats : ClusterStoreStats) × (r : Result (ClusterStoreError ℕ ℕ) ℕ)
    × (get_or_upload size 3 4 (ok 4) (ok tt) (full_store, no_stats) ≡ ((t, stats), r))
    × IsResolved size 3 4
        (ok 4)
        (ok tt)
        full_store
        full_store-IsConsistent
        (omega (arith, full_store_bytes, full_store_budget))
        (omega (arith, full_store_budget))
        upload_fits
        t
        r
get_or_upload_lem_example =
    get_or_upload_lem size 3 4 (ok 4) (ok tt) full_store full_store-IsConsistent
      (omega (arith, full_store_bytes, full_store_budget)) (omega (arith, full_store_budget))
      upload_fits no_stats

-- Two misses look up before either inserts: each finds room for eight bytes in an empty store.
abbrev racing : LruInner ℕ
racing =
    let (s1, _) = lookup_section {E = ℕ} {S = ℕ} 1 8 (empty_store, no_stats) in
    let (s2, _) = lookup_section {E = ℕ} {S = ℕ} 2 8 s1 in
    let (_, s3, stats) = insert_section size 1 8 s2 in (insert_section size 2 8 (s3, stats)).1

racing_exceeds_budget : ltb racing.budget_bytes racing.resident_bytes ≡ true
unfolding new_lru insert lookup_section insert_section touch pre_evict_for evict_loop evict_one
racing_exceeds_budget = refl
