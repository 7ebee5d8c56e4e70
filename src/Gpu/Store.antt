-- ===== src/Gpu/Store.antt =====
-- scorer-gpu-common/src/store.rs: the least-recently-used bookkeeping, and `get_or_upload` over it.
pub mod Entries
pub mod Invariant
pub mod Evict
pub mod Resolve
mod Tests
use secure_vector_search.Prelude.{
  ℕ, suc, ◌+◌, ◌-◌, ◌==◌, ltb, leb, if◌then◌else◌, not, Bool, true, false, List, [], ◌∷◌, ◌++◌,
  Option, some, none, Result, ok, err, u64, wrapping_sub64,
}

pub record ClusterEntry (C : Type 0) : Type 0 where
  pub payload : C
  pub bytes : ℕ

-- The hash map is an association list; `order` has the least recently used cluster first.
pub record LruInner (C : Type 0) : Type 0 where
  pub entries : List (ℕ × ClusterEntry C)
  pub order : List ℕ
  pub resident_bytes : ℕ
  pub budget_bytes : ℕ

pub record ClusterStoreStats : Type 0 where
  pub gets : ℕ
  pub uploads : ℕ
  pub evictions : ℕ
  pub bytes_uploaded : ℕ

pub data ClusterStoreError (E S : Type 0) : Type 0 where
  upload_error : E → ClusterStoreError E S
  budget_too_small : ℕ → ℕ → ClusterStoreError E S
  sync_error : S → ClusterStoreError E S

module _ {C : Type 0} where
  abbrev pub find_entry : ℕ → List (ℕ × ClusterEntry C) → Option (ClusterEntry C)
  find_entry id [] = none
  find_entry id ((k, e) ∷ es) = if k == id then some e else find_entry id es

  abbrev pub remove_entry : ℕ → List (ℕ × ClusterEntry C) → List (ℕ × ClusterEntry C)
  remove_entry id [] = []
  remove_entry id ((k, e) ∷ es) =
      let rest = remove_entry id es in if k == id then rest else ((k, e) ∷ rest)

  unfoldable pub new_lru : ℕ → LruInner C
  new_lru budget = record { entries = []; order = []; resident_bytes = 0; budget_bytes = budget }

-- `position` and `remove`: the first occurrence goes.
abbrev pub remove_position : ℕ → List ℕ → List ℕ
remove_position id [] = []
remove_position id (x ∷ xs) = let rest = remove_position id xs in if x == id then xs else (x ∷ rest)

module _ {C : Type 0} where
  unfoldable pub touch : LruInner C → ℕ → Option C × LruInner C
  touch s id = elim (find_entry id s.entries) [
    | none ↦ (none, s)
    | some entry ↦ (some entry.payload, record s { order = remove_position id s.order ++ id ∷ [] })
  ]

  -- One turn of the loop, after `evicted_id` left the queue.
  unfoldable pub evict_one :
      ℕ → List ℕ → LruInner C × ClusterStoreStats → LruInner C × ClusterStoreStats
  evict_one evicted_id rest (s, stats) = elim (find_entry evicted_id s.entries) [
    | none ↦ (record s { order = rest }, stats)
    | some evicted ↦ (
      record s {
        entries = remove_entry evicted_id s.entries;
        order = rest;
        resident_bytes = wrapping_sub64 s.resident_bytes evicted.bytes;
      },
      record stats { evictions = u64 (stats.evictions + 1) },
    )
  ]

  module _ {E S : Type 0} where
    -- The loop, by the queue that it pops.
    unfoldable pub evict_loop :
        List ℕ
        → ℕ
        → LruInner C × ClusterStoreStats
        → (LruInner C × ClusterStoreStats) × Result (ClusterStoreError E S) (Unit {0})
    evict_loop [] requested s =
        if ltb s.0.budget_bytes (u64 (s.0.resident_bytes + requested))
        then (s, err (budget_too_small s.0.budget_bytes requested))
        else (s, ok tt)
    evict_loop (id ∷ rest) requested s =
        let after = evict_loop rest requested (evict_one id rest s) in
        if ltb s.0.budget_bytes (u64 (s.0.resident_bytes + requested)) then after else (s, ok tt)

    unfoldable pub pre_evict_for :
        ℕ
        → LruInner C × ClusterStoreStats
        → (LruInner C × ClusterStoreStats) × Result (ClusterStoreError E S) (Unit {0})
    pre_evict_for requested s =
        if ltb s.0.budget_bytes requested
        then (s, err (budget_too_small s.0.budget_bytes requested))
        else evict_loop s.0.order requested s

  unfoldable pub insert : (C → ℕ) → ℕ → C → LruInner C → C × LruInner C
  insert device_bytes id payload s = elim (find_entry id s.entries) [
    | some entry ↦ (entry.payload, s)
    | none ↦ (
      payload,
      record s {
        entries = (id, record { payload = payload; bytes = device_bytes payload }) ∷ s.entries;
        order = s.order ++ id ∷ [];
        resident_bytes = u64 (s.resident_bytes + device_bytes payload);
      },
    )
  ]

  -- The second critical section, and the counters.
  unfoldable pub insert_section :
      (C → ℕ) → ℕ → C → LruInner C × ClusterStoreStats → C × LruInner C × ClusterStoreStats
  insert_section device_bytes id payload (s, stats) =
      let (kept, s') = insert device_bytes id payload s in
      (
        kept,
        s',
        record stats {
          uploads = u64 (stats.uploads + 1);
          bytes_uploaded = u64 (stats.bytes_uploaded + device_bytes payload);
        },
      )

  module _ {E S : Type 0} where
    abbrev pub after_evict :
        ℕ
        → (LruInner C × ClusterStoreStats) × Result (ClusterStoreError E S) (Unit {0})
        → (LruInner C × ClusterStoreStats) × Result (ClusterStoreError E S) (Option C × Bool)
    after_evict before (t, ok _) = (t, ok (none, ltb t.0.resident_bytes before))
    after_evict before (t, err e) = (t, err e)

    abbrev pub after_touch :
        ℕ
        → ClusterStoreStats
        → Option C × LruInner C
        → (LruInner C × ClusterStoreStats) × Result (ClusterStoreError E S) (Option C × Bool)
    after_touch hint stats (some payload, s) = ((s, stats), ok (some payload, false))
    after_touch hint stats (none, s) = after_evict s.resident_bytes (pre_evict_for hint (s, stats))

    -- The first critical section: the payload on a hit, and otherwise whether a cluster left.
    unfoldable pub lookup_section :
        ℕ
        → ℕ
        → LruInner C × ClusterStoreStats
        → (LruInner C × ClusterStoreStats) × Result (ClusterStoreError E S) (Option C × Bool)
    lookup_section id hint (s, stats) = after_touch hint stats (touch s id)

    -- Outside the lock, then the second critical section. `upload` and `sync` are what the device
    -- answers.
    abbrev pub after_sync :
        (C → ℕ)
        → ℕ
        → LruInner C × ClusterStoreStats
        → Result S (Unit {0})
        → Result E C
        → (LruInner C × ClusterStoreStats) × Result (ClusterStoreError E S) C
    after_sync device_bytes id t (err e) upload = (t, err (sync_error e))
    after_sync device_bytes id t (ok _) (err e) = (t, err (upload_error e))
    after_sync device_bytes id t (ok _) (ok payload) =
        let (kept, s, stats) = insert_section device_bytes id payload t in ((s, stats), ok kept)

    abbrev pub after_lookup :
        (C → ℕ)
        → ℕ
        → Result E C
        → Result S (Unit {0})
        → (LruInner C × ClusterStoreStats) × Result (ClusterStoreError E S) (Option C × Bool)
        → (LruInner C × ClusterStoreStats) × Result (ClusterStoreError E S) C
    after_lookup device_bytes id upload sync (t, err e) = (t, err e)
    after_lookup device_bytes id upload sync (t, ok (some payload, _)) = (t, ok payload)
    after_lookup device_bytes id upload sync (t, ok (none, evicted)) =
        after_sync device_bytes id t (if evicted then sync else ok tt) upload

    unfoldable pub get_or_upload :
        (C → ℕ)
        → ℕ
        → ℕ
        → Result E C
        → Result S (Unit {0})
        → LruInner C × ClusterStoreStats
        → (LruInner C × ClusterStoreStats) × Result (ClusterStoreError E S) C
    get_or_upload device_bytes id hint upload sync (s, stats) =
        after_lookup device_bytes id upload sync
          (lookup_section id hint (s, record stats { gets = u64 (stats.gets + 1) }))
