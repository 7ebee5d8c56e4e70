-- ===== src/Core/Cache/Tests.antt =====
-- Concrete headers.
use secure_vector_search.Prelude.{
  ℕ, ◌≡◌, ◌↔◌, refl, arith, Bool, true, ltb, ◌&&◌, List, [], ◌∷◌, ◌++◌, ok,
}
use secure_vector_search.Core.Cache.{magic, write_header, verify_header}
use secure_vector_search.Core.Cache.Bytes.{AreBytes}
use secure_vector_search.Core.Cache.Header.{header, verify_header_iff, verify-write}

abbrev parts : List (List ℕ)
parts = (101 ∷ 109 ∷ 118 ∷ 112 ∷ []) ∷ (42 ∷ []) ∷ []

verify-write_example :
    (bytes : List ℕ) × (write_header {E = Unit {0}} (λ bs file. ok (file ++ bs)) parts []
      ≡ ok bytes)
    × (verify_header (bytes ++ 9 ∷ []) parts ≡ true)
verify-write_example = verify-write parts (9 ∷ [])

-- The tag and the version are right, and the fingerprint is not that of the parts.
abbrev stale : List ℕ
stale = magic ++ 1 ∷ 0 ∷ 0 ∷ 0 ∷ 0 ∷ 0 ∷ 0 ∷ 0 ∷ 0 ∷ 0 ∷ 0 ∷ 7 ∷ []

abbrev all_bytes : List ℕ → Bool
all_bytes [] = true
all_bytes (b ∷ bs) = ltb b 256 && all_bytes bs

all_bytes-AreBytes : (bs : List ℕ) → all_bytes bs ≡ true → AreBytes bs
all_bytes-AreBytes [] h = tt
all_bytes-AreBytes (b ∷ bs) h = (ground arith, all_bytes-AreBytes bs (ground arith))

verify_header_iff_example :
    (verify_header stale parts ≡ true) ↔ ((rest : List ℕ) × (stale ≡ header parts ++ rest))
verify_header_iff_example = verify_header_iff stale parts (all_bytes-AreBytes stale refl)
