-- ===== src/Gpu/Store/Invariant.antt =====
-- What the bookkeeping keeps: the queue names the entries, once each, and the bytes are counted.
use secure_vector_search.Prelude.{
  ℕ, ◌+◌, ◌^◌, ◌<◌, ◌≡◌, refl, ap, ap₂, ◌∙◌, arith, ◌==◌, ==_refl, ◌||◌, Bool, true, false,
  Bool-cases, inl, inr, List, [], ◌∷◌, ◌++◌, Option, some, none, Option-cases, u64,
}
use secure_vector_search.Gpu.Store.{
  ClusterEntry, LruInner, find_entry, remove_position, new_lru, touch, insert,
}
use secure_vector_search.Gpu.Store.Entries.{
  member, IsDistinct, member-append, member-remove_position, IsDistinct-remove_position,
  IsDistinct-append,
}

module _ {C : Type 0} where
  abbrev pub is_some : Option (ClusterEntry C) → Bool
  is_some none = false
  is_some (some _) = true

  abbrev pub size_of : Option (ClusterEntry C) → ℕ
  size_of none = 0
  size_of (some e) = e.bytes

  -- The bytes of the queued clusters.
  abbrev pub total_bytes : List ℕ → List (ℕ × ClusterEntry C) → ℕ
  total_bytes [] es = 0
  total_bytes (id ∷ ids) es = size_of (find_entry id es) + total_bytes ids es

  pub record IsConsistent (s : LruInner C) : Type 0 where
    pub distinct : IsDistinct s.order
    pub tracked : (id : ℕ) → member id s.order ≡ is_some (find_entry id s.entries)
    pub counted : s.resident_bytes ≡ total_bytes s.order s.entries

  pub total-append :
      (xs ys : List ℕ) (es : List (ℕ × ClusterEntry C))
      → total_bytes (xs ++ ys) es ≡ total_bytes xs es + total_bytes ys es
  total-append [] ys es = omega arith
  total-append (x ∷ xs) ys es = omega (arith, total-append xs ys es)

  -- Only the clusters of the queue count.
  pub total_congr :
      (ids : List ℕ) (es es' : List (ℕ × ClusterEntry C))
      → ((id : ℕ) → member id ids ≡ true → find_entry id es ≡ find_entry id es')
      → total_bytes ids es ≡ total_bytes ids es'
  total_congr [] es es' h = refl
  total_congr (x ∷ xs) es es' h =
      ap₂ ◌+◌ (ap size_of (h x (ground (arith, ==_refl x))))
        (total_congr xs es es' (λ id m. h id (ground (arith, m))))

  total-remove_position :
      (id : ℕ) (ids : List ℕ) (es : List (ℕ × ClusterEntry C))
      → member id ids ≡ true
      → total_bytes ids es ≡ total_bytes (remove_position id ids) es + size_of (find_entry id es)
  total-remove_position id [] es h = absurd (ground arith)
  total-remove_position id (x ∷ xs) es h = elim (Bool-cases (x == id)) [
    | inl e ↦ let same : x ≡ id = ground arith in rw (e, same) (omega arith)
    | inr e ↦ rw e (omega (arith, total-remove_position id xs es (ground arith)))
  ]

  -- An empty cache is consistent.
  pub new_lru-IsConsistent : (budget : ℕ) → IsConsistent (new_lru budget)
  unfolding new_lru
  new_lru-IsConsistent budget = record { distinct = tt; tracked = λ id. refl; counted = refl }

  -- A hit moves its cluster to the end of the queue.
  hit-IsConsistent :
      (s : LruInner C) (id : ℕ)
      → IsConsistent s
      → member id s.order ≡ true
      → IsConsistent (record s { order = remove_position id s.order ++ id ∷ [] })
  hit-IsConsistent s id h m = record {
    distinct =
        IsDistinct-append id (remove_position id s.order)
          (IsDistinct-remove_position id s.order h.distinct)
          (member-remove_position id id s.order h.distinct ∙ rw (==_refl id) refl);
    tracked = λ k. moved k ∙ h.tracked k;
    counted =
        h.counted
        ∙ total-remove_position id s.order s.entries m
        ∙ omega (arith, total-append (remove_position id s.order) (id ∷ []) s.entries);
  }
    where
      moved : (k : ℕ) → member k (remove_position id s.order ++ id ∷ []) ≡ member k s.order
      moved k = elim (Bool-cases (k == id)) [
        | inl e ↦
            let same : k ≡ id = ground arith in
            rw (member-append k (remove_position id s.order) (id ∷ []), same, m, ==_refl id)
              (ground arith)
        | inr e ↦
            let other : (id == k) ≡ false = ground arith in
            rw
              (
                member-append k (remove_position id s.order) (id ∷ []),
                member-remove_position id k s.order h.distinct,
                e,
                other,
              )
              (ground arith)
      ]

  pub touch-IsConsistent : (s : LruInner C) (id : ℕ) → IsConsistent s → IsConsistent (touch s id).1
  unfolding touch
  touch-IsConsistent s id h = elim (Option-cases (find_entry id s.entries)) [
    | inl e ↦ rw (touch, e) h
    | inr (entry, e) ↦ rw (touch, e) (hit-IsConsistent s id h (h.tracked id ∙ ap is_some e))
  ]

  -- An upload that does not overflow the counter of bytes.
  pub insert-IsConsistent :
      (device_bytes : C → ℕ) (id : ℕ) (payload : C) (s : LruInner C)
      → s.resident_bytes + device_bytes payload < 2 ^ 64
      → IsConsistent s
      → IsConsistent (insert device_bytes id payload s).1
  unfolding insert
  insert-IsConsistent device_bytes id payload s small h =
      elim (Option-cases (find_entry id s.entries)) [
        | inr (found, e) ↦ rw (insert, e) h
        | inl e ↦ rw (insert, e) (added e)
      ]
    where
      size_new :
          size_of (
            find_entry id
              ((id, record { payload = payload; bytes = device_bytes payload }) ∷ s.entries))
          ≡ device_bytes payload
      size_new = rw (==_refl id) refl

      fresh_other :
          member id s.order ≡ false → (k : ℕ) → member k s.order ≡ true → (id == k) ≡ false
      fresh_other fresh k m = elim (Bool-cases (id == k)) [
        | inl c ↦
            let same : id ≡ k = ground arith in
            absurd (ground (arith, ap (λ (x : ℕ). member x s.order) same))
        | inr c ↦ c
      ]

      track :
          (k : ℕ)
          → (member k s.order || member k (id ∷ []))
            ≡ is_some (
                find_entry k
                  ((id, record { payload = payload; bytes = device_bytes payload }) ∷ s.entries))
      track k = elim (Bool-cases (id == k)) [
        | inl c ↦ rw c (ground arith)
        | inr c ↦ rw c (ground (arith, h.tracked k))
      ]

      added :
          find_entry id s.entries ≡ none
          → IsConsistent (record s {
            entries = (id, record { payload = payload; bytes = device_bytes payload }) ∷ s.entries;
            order = s.order ++ id ∷ [];
            resident_bytes = u64 (s.resident_bytes + device_bytes payload);
          })
      added e =
          let fresh : member id s.order ≡ false = h.tracked id ∙ ap is_some e in
          record {
            distinct = IsDistinct-append id s.order h.distinct fresh;
            tracked = λ k. member-append k s.order (id ∷ []) ∙ track k;
            counted = omega (
              arith,
              h.counted,
              total-append s.order (id ∷ [])
                  ((id, record { payload = payload; bytes = device_bytes payload }) ∷ s.entries),
              total_congr s.order s.entries
                  ((id, record { payload = payload; bytes = device_bytes payload }) ∷ s.entries)
                  (λ k m. let other : (id == k) ≡ false = fresh_other fresh k m in rw other refl),
              size_new,
            );
          }
