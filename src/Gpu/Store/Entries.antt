-- ===== src/Gpu/Store/Entries.antt =====
-- Lists of identifiers, and lookups in the entries.
use secure_vector_search.Prelude.{
  ℕ, ◌≡◌, refl, ap, sym, arith, ◌==◌, if◌then◌else◌, ◌||◌, Bool, false, Bool-cases, inl, inr, List,
  [], ◌∷◌, ◌++◌, Option, some, none,
}
use secure_vector_search.Gpu.Store.{ClusterEntry, find_entry, remove_entry, remove_position}

abbrev pub member : ℕ → List ℕ → Bool
member id [] = false
member id (x ∷ xs) = (x == id) || member id xs

abbrev pub IsDistinct : List ℕ → Type 0
IsDistinct [] = Unit {0}
IsDistinct (x ∷ xs) = (member x xs ≡ false) × IsDistinct xs

-- The identifiers that are queued after a hit are those that were.
pub member-append :
    (id : ℕ) (xs ys : List ℕ) → member id (xs ++ ys) ≡ (member id xs || member id ys)
member-append id [] ys = refl
member-append id (x ∷ xs) ys = ground (arith, member-append id xs ys)

pub member-remove_position :
    (id k : ℕ) (xs : List ℕ)
    → IsDistinct xs
    → member k (remove_position id xs) ≡ (if k == id then false else member k xs)
member-remove_position id k [] h = ground arith
member-remove_position id k (x ∷ xs) h = elim (Bool-cases (x == id)) [
  | inl e ↦
      let same : x ≡ id = ground arith in
      rw (e, same)
        (elim (Bool-cases (k == id)) [
          | inl e' ↦ let same' : k ≡ id = ground arith in rw (e', same', sym same) h.0
          | inr e' ↦ let other : (id == k) ≡ false = ground arith in rw (e', other) refl
        ])
  | inr e ↦ rw e (elim (Bool-cases (k == id)) [
    | inl e' ↦
        let other : (x == k) ≡ false = ground arith in
        rw (other, member-remove_position id k xs h.1, e') refl
    | inr e' ↦ rw (member-remove_position id k xs h.1, e') refl
  ])
]

pub IsDistinct-remove_position :
    (id : ℕ) (xs : List ℕ) → IsDistinct xs → IsDistinct (remove_position id xs)
IsDistinct-remove_position id [] h = tt
IsDistinct-remove_position id (x ∷ xs) h = elim (Bool-cases (x == id)) [
  | inl e ↦ rw e h.1
  | inr e ↦
      rw e (rw (member-remove_position id x xs h.1, e) h.0, IsDistinct-remove_position id xs h.1)
]

pub IsDistinct-append :
    (id : ℕ) (xs : List ℕ) → IsDistinct xs → member id xs ≡ false → IsDistinct (xs ++ id ∷ [])
IsDistinct-append id [] h e = (refl, tt)
IsDistinct-append id (x ∷ xs) h e = (
  rw (member-append x xs (id ∷ [])) (ground (arith, h.0)),
  IsDistinct-append id xs h.1 (ground arith),
)

module _ {C : Type 0} where
  pub find-remove_same :
      (id : ℕ) (es : List (ℕ × ClusterEntry C)) → find_entry id (remove_entry id es) ≡ none
  find-remove_same id [] = refl
  find-remove_same id ((k, e) ∷ es) = elim (Bool-cases (k == id)) [
    | inl c ↦ rw c (find-remove_same id es)
    | inr c ↦ rw (c, c) (find-remove_same id es)
  ]

  pub find-remove_other :
      (id k : ℕ) (es : List (ℕ × ClusterEntry C))
      → (id == k) ≡ false
      → find_entry k (remove_entry id es) ≡ find_entry k es
  find-remove_other id k [] h = refl
  find-remove_other id k ((j, e) ∷ es) h = elim (Bool-cases (j == id)) [
    | inl c ↦
        let other : (j == k) ≡ false = ground arith in rw (c, other) (find-remove_other id k es h)
    | inr c ↦ rw c (
        ap (λ (o : Option (ClusterEntry C)). if j == k then some e else o)
          (find-remove_other id k es h))
  ]
