-- ===== src/Gpu/Store/Resolve.antt =====
-- Resolving a cluster, for every answer of the device.
use secure_vector_search.Prelude.{
  ℕ, ◌+◌, ◌^◌, ◌≤◌, ◌<◌, ◌≡◌, refl, ap, subst, arith, ==_refl, if◌then◌else◌, Bool, true, false,
  ltb, Bool-cases, inl, inr, List, [], ◌∷◌, ◌++◌, Option, some, none, Option-cases, Result, ok, err,
  u64,
}
use secure_vector_search.Gpu.Store.{
  ClusterEntry, LruInner, ClusterStoreStats, ClusterStoreError, budget_too_small, upload_error,
  sync_error, find_entry, remove_position, touch, insert, insert_section, lookup_section,
  get_or_upload, after_sync,
}
use secure_vector_search.Gpu.Store.Entries.{member, member-append}
use secure_vector_search.Gpu.Store.Invariant.{
  IsConsistent, is_some, touch-IsConsistent, insert-IsConsistent,
}
use secure_vector_search.Gpu.Store.Evict.{IsEvicted, pre_evict_too_small, pre_evict-IsEvicted}

module _ {C : Type 0} where
  -- The cluster is resident with the returned payload, and is the most recently used.
  pub record IsResident (id : ℕ) (kept : C) (t : LruInner C) : Type 0 where
    pub entry : ClusterEntry C
    pub found : find_entry id t.entries ≡ some entry
    pub payload : entry.payload ≡ kept
    pub older : List ℕ
    pub newest : t.order ≡ older ++ id ∷ []

  touch_hit :
      (s : LruInner C) (id : ℕ) (entry : ClusterEntry C)
      → find_entry id s.entries ≡ some entry
      → touch s id
        ≡ (some entry.payload, record s { order = remove_position id s.order ++ id ∷ [] })
  unfolding touch
  touch_hit s id entry e = rw (touch, e) refl

  touch_miss : (s : LruInner C) (id : ℕ) → find_entry id s.entries ≡ none → touch s id ≡ (none, s)
  unfolding touch
  touch_miss s id e = rw (touch, e) refl

  abbrev inserted : (C → ℕ) → ℕ → C → LruInner C → LruInner C
  inserted device_bytes id payload t = record t {
    entries = (id, record { payload = payload; bytes = device_bytes payload }) ∷ t.entries;
    order = t.order ++ id ∷ [];
    resident_bytes = u64 (t.resident_bytes + device_bytes payload);
  }

  insert_miss :
      (device_bytes : C → ℕ) (id : ℕ) (payload : C) (t : LruInner C)
      → find_entry id t.entries ≡ none
      → insert device_bytes id payload t ≡ (payload, inserted device_bytes id payload t)
  unfolding insert
  insert_miss device_bytes id payload t e = rw (insert, e) refl

  still_missing :
      (hint id : ℕ) (s t : LruInner C)
      → IsConsistent s
      → IsEvicted hint s t
      → find_entry id s.entries ≡ none
      → find_entry id t.entries ≡ none
  still_missing hint id s t h a e = elim (Option-cases (find_entry id t.entries)) [
    | inl missing ↦ missing
    | inr (entry, found) ↦ absurd (
        ground (
          arith,
          h.tracked id,
          ap is_some e,
          ap (λ (ids : List ℕ). member id ids) a.oldest_first,
          member-append id a.dropped t.order,
          a.consistent.tracked id,
          ap is_some found,
        ))
  ]

module _ {C E S : Type 0} where
  -- An error is that of the upload or of the synchronisation, or the hint exceeds the budget.
  abbrev pub Answer :
      ℕ
      → ℕ
      → ℕ
      → Result E C
      → Result S (Unit {0})
      → LruInner C
      → Result (ClusterStoreError E S) C
      → Type 0
  Answer id hint budget upload sync t (ok kept) = IsResident id kept t
  Answer id hint budget upload sync t (err (budget_too_small b r)) = budget < hint
  Answer id hint budget upload sync t (err (upload_error e)) = upload ≡ err e
  Answer id hint budget upload sync t (err (sync_error e)) = sync ≡ err e

  module _ (device_bytes : C → ℕ) (id hint : ℕ) (upload : Result E C) (sync : Result S (Unit {0}))
      (s : LruInner C) (h : IsConsistent s) (within : s.resident_bytes ≤ s.budget_bytes)
      (small : s.budget_bytes < 2 ^ 63)
      (honest : (payload : C) → upload ≡ ok payload → device_bytes payload ≤ hint) where
    -- What resolving leaves and returns.
    pub record IsResolved (t : LruInner C) (r : Result (ClusterStoreError E S) C) : Type 0 where
      pub consistent : IsConsistent t
      pub within_budget : t.resident_bytes ≤ s.budget_bytes
      pub same_budget : t.budget_bytes ≡ s.budget_bytes
      pub answer : Answer id hint s.budget_bytes upload sync t r

    abbrev Resolves : (LruInner C × ClusterStoreStats) × Result (ClusterStoreError E S) C → Type 0
    Resolves ((t, _), r) =
        IsConsistent t
        × (t.resident_bytes ≤ s.budget_bytes)
        × (t.budget_bytes ≡ s.budget_bytes)
        × Answer id hint s.budget_bytes upload sync t r

    after_insert :
        (t : LruInner C) (stats : ClusterStoreStats) (payload : C)
        → IsEvicted hint s t
        → find_entry id t.entries ≡ none
        → upload ≡ ok payload
        → Resolves (after_sync device_bytes id (t, stats) (ok tt) (ok payload))
    unfolding insert_section
    after_insert t stats payload a missing e =
        let bytes = honest payload e in
        let kept =
          insert-IsConsistent device_bytes id payload t (omega (arith, a.fits)) a.consistent in
        let run = insert_miss device_bytes id payload t missing in
        rw run (
          subst (λ (p : C × LruInner C). IsConsistent p.1) run kept,
          omega (arith, a.fits),
          a.budget,
          record {
            entry = record { payload = payload; bytes = device_bytes payload };
            found = rw (==_refl id) refl;
            payload = refl;
            older = t.order;
            newest = refl;
          },
        )

    after_eviction :
        (t : LruInner C) (stats : ClusterStoreStats) (gate : Result S (Unit {0})) (up : Result E C)
        → IsEvicted hint s t
        → find_entry id t.entries ≡ none
        → upload ≡ up
        → ((e : S) → gate ≡ err e → sync ≡ err e)
        → Resolves (after_sync device_bytes id (t, stats) gate up)
    after_eviction t stats (err e) up a missing eu es =
        (a.consistent, omega (arith, a.fits), a.budget, es e refl)
    after_eviction t stats (ok x) (err e) a missing eu es =
        (a.consistent, omega (arith, a.fits), a.budget, eu)
    after_eviction t stats (ok x) (ok payload) a missing eu es =
        after_insert t stats payload a missing eu

    resolves :
        (stats : ClusterStoreStats)
        → Resolves (get_or_upload device_bytes id hint upload sync (s, stats))
    unfolding get_or_upload lookup_section
    resolves stats = elim (Option-cases (find_entry id s.entries)) [
      | inr (entry, found) ↦
          let run = touch_hit s id entry found in
          rw run (
            subst (λ (p : Option C × LruInner C). IsConsistent p.1) run (touch-IsConsistent s id h),
            within,
            refl,
            record {
              entry = entry;
              found = found;
              payload = refl;
              older = remove_position id s.order;
              newest = refl;
            },
          )
      | inl missing ↦ rw (touch_miss s id missing) (elim (Bool-cases (ltb s.budget_bytes hint)) [
        | inl large ↦
            rw
              (pre_evict_too_small E S hint s (record stats { gets = u64 (stats.gets + 1) })
                (ground arith))
              (h, within, refl, ground arith)
        | inr enough ↦
            let (t, stats', run, a) =
              pre_evict-IsEvicted E S hint s (record stats { gets = u64 (stats.gets + 1) })
                (ground arith) (ground arith) h in
            rw run (
              after_eviction t stats'
                (if ltb t.resident_bytes s.resident_bytes then sync else ok tt) upload a
                (still_missing hint id s t h a missing) refl
                (gate (ltb t.resident_bytes s.resident_bytes)))
      ])
    ]
      where
        gate : (b : Bool) (e : S) → (if b then sync else ok tt) ≡ err e → sync ≡ err e
        gate true e eq = eq
        gate false e eq = absurd (ground (arith, eq))

    -- Whatever the device answers, a consistent store within its budget stays so; a success
    -- returns the payload that is then resident and most recently used; an error is the device's,
    -- or the hint exceeds the budget. The budget is below 2^63 and the hint not below the size.
    pub get_or_upload_lem :
        (stats : ClusterStoreStats)
        → (t : LruInner C) × (stats' : ClusterStoreStats) × (r : Result (ClusterStoreError E S) C)
          × (get_or_upload device_bytes id hint upload sync (s, stats) ≡ ((t, stats'), r))
          × IsResolved t r
    get_or_upload_lem stats =
        let ((t, stats'), r) = get_or_upload device_bytes id hint upload sync (s, stats) in
        let (consistent, within_budget, same_budget, answer) = resolves stats in
        (
          t,
          stats',
          r,
          refl,
          record {
            consistent = consistent;
            within_budget = within_budget;
            same_budget = same_budget;
            answer = answer;
          },
        )
