-- ===== src/Gpu/Store/Evict.antt =====
-- Eviction makes room, from the least recently used end of the queue.
use secure_vector_search.Prelude.{
  ℕ, ◌+◌, ◌^◌, ◌≤◌, ◌<◌, ◌≡◌, refl, ap, ◌∙◌, sym, subst, arith, ◌==◌, ==_refl, ◌||◌, Bool, true,
  false, ltb, Bool-cases, inl, inr, List, [], ◌∷◌, ◌++◌, Option, some, Option-cases, ok, err, u64,
  wrapping_sub64,
}
use secure_vector_search.Gpu.Store.{
  ClusterEntry, LruInner, ClusterStoreStats, budget_too_small, find_entry, remove_entry, evict_one,
  evict_loop, pre_evict_for,
}
use secure_vector_search.Gpu.Store.Entries.{
  member, member-append, IsDistinct, find-remove_same, find-remove_other,
}
use secure_vector_search.Gpu.Store.Invariant.{
  IsConsistent, is_some, size_of, total_bytes, total_congr,
}

module _ {C : Type 0} where
  -- What evicting for `requested` bytes makes of `s`.
  pub record IsEvicted (requested : ℕ) (s t : LruInner C) : Type 0 where
    pub consistent : IsConsistent t
    pub fits : t.resident_bytes + requested ≤ s.budget_bytes
    pub budget : t.budget_bytes ≡ s.budget_bytes
    pub dropped : List ℕ
    pub oldest_first : s.order ≡ dropped ++ t.order
    pub kept :
        (id : ℕ) → member id t.order ≡ true → find_entry id t.entries ≡ find_entry id s.entries
    pub needed : s.resident_bytes + requested ≤ s.budget_bytes → t ≡ s

  module _ (id : ℕ) (rest : List ℕ) (s : LruInner C) (stats : ClusterStoreStats)
      (e : ClusterEntry C) (found : find_entry id s.entries ≡ some e) (front : s.order ≡ id ∷ rest)
      (small : s.resident_bytes < 2 ^ 64) (h : IsConsistent s) where
    abbrev evicted : LruInner C
    evicted = record s {
      entries = remove_entry id s.entries;
      order = rest;
      resident_bytes = wrapping_sub64 s.resident_bytes e.bytes;
    }

    absent : member id rest ≡ false
    absent = (subst IsDistinct front h.distinct).0

    others : (k : ℕ) → member k rest ≡ true → (id == k) ≡ false
    others k m = elim (Bool-cases (id == k)) [
      | inl c ↦
          let same : id ≡ k = ground arith in
          absurd (ground (arith, absent, ap (λ (x : ℕ). member x rest) same))
      | inr c ↦ c
    ]

    resident : s.resident_bytes ≡ e.bytes + total_bytes rest s.entries
    resident =
        h.counted
        ∙ ap (λ (ids : List ℕ). total_bytes ids s.entries) front
        ∙ ap (λ (o : Option (ClusterEntry C)). size_of o + total_bytes rest s.entries) found

    evicted-IsConsistent : IsConsistent evicted
    evicted-IsConsistent = record {
      distinct = (subst IsDistinct front h.distinct).1;
      tracked = λ k. elim (Bool-cases (id == k)) [
        | inl c ↦
            let same : id ≡ k = ground arith in
            rw (← same) (absent ∙ sym (ap is_some (find-remove_same id s.entries)))
        | inr c ↦
            sym (ap (λ (b : Bool). b || member k rest) c)
            ∙ ap (λ (ids : List ℕ). member k ids) (sym front)
            ∙ h.tracked k
            ∙ ap is_some (sym (find-remove_other id k s.entries c))
      ];
      counted = omega (
        arith,
        resident,
        total_congr rest s.entries (remove_entry id s.entries)
            (λ k m. sym (find-remove_other id k s.entries (others k m))),
      );
    }

    evict_one_lem :
        evict_one id rest (s, stats)
        ≡ (evicted, record stats { evictions = u64 (stats.evictions + 1) })
    unfolding evict_one
    evict_one_lem = rw (evict_one, found) refl

  module _ (E S : Type 0) where
    abbrev EvictsFor : List ℕ → ℕ → LruInner C → ClusterStoreStats → Type 0
    EvictsFor ids requested s stats =
        (t : LruInner C) × (stats' : ClusterStoreStats) × (evict_loop {E = E} {S = S} ids requested
            (s, stats)
          ≡ ((t, stats'), ok tt))
        × IsEvicted requested s t

    evict_loop_lem :
        (ids : List ℕ) (requested : ℕ) (s : LruInner C) (stats : ClusterStoreStats)
        → s.order ≡ ids
        → requested ≤ s.budget_bytes
        → s.resident_bytes + requested < 2 ^ 64
        → IsConsistent s
        → EvictsFor ids requested s stats
    unfolding evict_loop
    evict_loop_lem [] requested s stats front enough small h =
        let empty : s.resident_bytes ≡ 0 =
          h.counted ∙ ap (λ (ids : List ℕ). total_bytes ids s.entries) front in
        let fit : ltb s.budget_bytes (u64 (s.resident_bytes + requested)) ≡ false =
          ground (arith, empty) in
        (
          s,
          stats,
          rw fit refl,
          record {
            consistent = h;
            fits = omega (arith, empty);
            budget = refl;
            dropped = [];
            oldest_first = refl;
            kept = λ id m. refl;
            needed = λ _. refl;
          },
        )
    evict_loop_lem (id ∷ rest) requested s stats front enough small h =
        elim (Bool-cases (ltb s.budget_bytes (s.resident_bytes + requested))) [
          | inr c ↦
              let fit : ltb s.budget_bytes (u64 (s.resident_bytes + requested)) ≡ false =
                ground arith in
              (
                s,
                stats,
                rw fit refl,
                record {
                  consistent = h;
                  fits = ground arith;
                  budget = refl;
                  dropped = [];
                  oldest_first = refl;
                  kept = λ id m. refl;
                  needed = λ _. refl;
                },
              )
          | inl c ↦
              let over : ltb s.budget_bytes (u64 (s.resident_bytes + requested)) ≡ true =
                ground arith in
              let (e, found) = present in
              let one = evicted id rest s stats e found front (omega arith) h in
              let ok_one = evicted-IsConsistent id rest s stats e found front (omega arith) h in
              let less = resident id rest s stats e found front (omega arith) h in
              let (t, stats', run, a) =
                evict_loop_lem rest requested one
                  (record stats { evictions = u64 (stats.evictions + 1) }) refl enough
                  (omega (arith, less)) ok_one in
              (
                t,
                stats',
                rw (over, evict_one_lem id rest s stats e found front (omega arith) h) run,
                record {
                  consistent = a.consistent;
                  fits = a.fits;
                  budget = a.budget;
                  dropped = id ∷ a.dropped;
                  oldest_first = front ∙ ap (λ (ids : List ℕ). id ∷ ids) a.oldest_first;
                  kept = λ k m.
                      a.kept k m
                      ∙ find-remove_other id k s.entries (
                          others id rest s stats e found front (omega arith) h k (
                            ap (λ (ids : List ℕ). member k ids) a.oldest_first
                            ∙ member-append k a.dropped t.order
                            ∙ ground (arith, m)));
                  needed = λ small'. absurd (ground arith);
                },
              )
        ]
      where
        present : (e : ClusterEntry C) × (find_entry id s.entries ≡ some e)
        present = elim (Option-cases (find_entry id s.entries)) [
          | inr found ↦ found
          | inl e ↦ absurd (
              ground (
                arith,
                ==_refl id,
                ap (λ (ids : List ℕ). member id ids) front,
                h.tracked id,
                ap is_some e,
              ))
        ]

    -- A request above the whole budget is refused and changes nothing.
    pub pre_evict_too_small :
        (requested : ℕ) (s : LruInner C) (stats : ClusterStoreStats)
        → s.budget_bytes < requested
        → pre_evict_for {E = E} {S = S} requested (s, stats)
          ≡ ((s, stats), err (budget_too_small s.budget_bytes requested))
    unfolding pre_evict_for
    pre_evict_too_small requested s stats large =
        let over : ltb s.budget_bytes requested ≡ true = ground arith in rw over refl

    -- Any other request is granted: the clusters that leave are the oldest, none leaves if there
    -- is room, the others keep their entries, and the bytes then fit the budget.
    pub pre_evict-IsEvicted :
        (requested : ℕ) (s : LruInner C) (stats : ClusterStoreStats)
        → requested ≤ s.budget_bytes
        → s.resident_bytes + requested < 2 ^ 64
        → IsConsistent s
        → (t : LruInner C) × (stats' : ClusterStoreStats) × (pre_evict_for {E = E} {S = S} requested
              (s, stats)
            ≡ ((t, stats'), ok tt))
          × IsEvicted requested s t
    unfolding pre_evict_for
    pre_evict-IsEvicted requested s stats enough small h =
        let within : ltb s.budget_bytes requested ≡ false = ground arith in
        let (t, stats', run, a) = evict_loop_lem s.order requested s stats refl enough small h in
        (t, stats', rw within run, a)
