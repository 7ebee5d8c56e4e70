-- ===== src/Core/Cache/Header.antt =====
-- A header is accepted exactly when it is the one that would be written.
use secure_vector_search.Prelude.{
  drop-drop, take-append-drop, ℕ, zero, suc, ◌^◌, ◌<◌, ◌≡◌, ◌↔◌, refl, ap, ap₂, ◌∙◌, sym, arith,
  ◌==◌, ==_refl, leb, if◌then◌else◌, not, Bool, true, false, Bool-cases, inl, inr, List, [], ◌∷◌,
  ◌++◌, length, length-take, length-drop, take, drop, ok, wrapping_mul64, bit_xor,
}
use secure_vector_search.Core.Cache.{
  to_le_bytes, from_le_bytes, magic, version, header_bytes, mix_byte, mix_bytes, mix_parts,
  fingerprint64, write_header, same_bytes, check_header, verify_header,
}
use secure_vector_search.Core.Cache.Bytes.{
  AreBytes, from-to_le_bytes, to-from_le_bytes, same_bytes_eq,
}

mix_bytes-lt : (bs : List ℕ) (h : ℕ) → h < 2 ^ 64 → mix_bytes bs h < 2 ^ 64
unfolding mix_bytes mix_byte
mix_bytes-lt [] h hh = hh
mix_bytes-lt (b ∷ bs) h hh =
    mix_bytes-lt bs (wrapping_mul64 (bit_xor h b) 0x100000001b3) (omega arith)

mix_parts-lt : (parts : List (List ℕ)) (h : ℕ) → h < 2 ^ 64 → mix_parts parts h < 2 ^ 64
unfolding mix_parts
mix_parts-lt [] h hh = hh
mix_parts-lt (part ∷ parts) h hh =
    mix_parts-lt parts (mix_bytes part (mix_bytes (to_le_bytes 8 (length part)) h)) (
      mix_bytes-lt part (mix_bytes (to_le_bytes 8 (length part)) h)
        (mix_bytes-lt (to_le_bytes 8 (length part)) h hh))

-- The fingerprint is a 64-bit word.
pub fingerprint64-lt : (parts : List (List ℕ)) → fingerprint64 parts < 2 ^ 64
unfolding fingerprint64
fingerprint64-lt parts = mix_parts-lt parts 0xcbf29ce484222325 (omega arith)

-- The bytes that `write_header` appends.
abbrev pub header : List (List ℕ) → List ℕ
header parts = magic ++ to_le_bytes 4 version ++ to_le_bytes 8 (fingerprint64 parts)

take-append_exact : (xs ys : List ℕ) → take (length xs) (xs ++ ys) ≡ xs
take-append_exact [] ys = refl
take-append_exact (x ∷ xs) ys = ap (λ (zs : List ℕ). x ∷ zs) (take-append_exact xs ys)

AreBytes-take : (n : ℕ) (xs : List ℕ) → AreBytes xs → AreBytes (take n xs)
AreBytes-take zero xs h = tt
AreBytes-take (suc n) [] h = tt
AreBytes-take (suc n) (x ∷ xs) h = (h.0, AreBytes-take n xs h.1)

AreBytes-drop : (n : ℕ) (xs : List ℕ) → AreBytes xs → AreBytes (drop n xs)
AreBytes-drop zero xs h = h
AreBytes-drop (suc n) [] h = tt
AreBytes-drop (suc n) (x ∷ xs) h = AreBytes-drop n xs h.1

-- Bytes that read as a number are what that number is written as.
bytes_of :
    (w n : ℕ) (bs : List ℕ)
    → AreBytes bs
    → length bs ≡ w
    → from_le_bytes bs ≡ n
    → bs ≡ to_le_bytes w n
bytes_of w n bs h len e = sym (to-from_le_bytes bs h) ∙ ap₂ to_le_bytes len e

length-header : (parts : List (List ℕ)) → length (header parts) ≡ 20
length-header parts = refl

check-header : (parts : List (List ℕ)) → check_header (header parts) parts ≡ true
unfolding check_header
check-header parts =
    rw (from-to_le_bytes 8 (fingerprint64 parts) (fingerprint64-lt parts))
      (==_refl (fingerprint64 parts))

three_tests :
    (a b c : Bool)
    → (if not a then false else (if not b then false else c)) ≡ true
    → (a ≡ true) × (b ≡ true) × (c ≡ true)
three_tests true true true e = (refl, refl, refl)
three_tests true true false e = absurd (ground (arith, e))
three_tests true false c e = absurd (ground (arith, e))
three_tests false b c e = absurd (ground (arith, e))

-- An accepted buffer of 20 bytes is the header.
accepted_header :
    (buf : List ℕ) (parts : List (List ℕ))
    → AreBytes buf
    → length buf ≡ 20
    → check_header buf parts ≡ true
    → buf ≡ header parts
unfolding check_header
accepted_header buf parts h len e =
    let (ea, eb, ec) =
      three_tests (same_bytes (take 8 buf) magic) (from_le_bytes (take 4 (drop 8 buf)) == version)
        (from_le_bytes (drop 12 buf) == fingerprint64 parts) e in
    let tag : take 8 buf ≡ magic = same_bytes_eq (take 8 buf) magic ea in
    let middle : take 4 (drop 8 buf) ≡ to_le_bytes 4 version =
      bytes_of 4 version (take 4 (drop 8 buf))
        (AreBytes-take 4 (drop 8 buf) (AreBytes-drop 8 buf h))
        (omega (arith, length-take 4 (drop 8 buf), length-drop 8 buf)) (ground arith) in
    let last : drop 12 buf ≡ to_le_bytes 8 (fingerprint64 parts) =
      bytes_of 8 (fingerprint64 parts) (drop 12 buf) (AreBytes-drop 12 buf h)
        (omega (arith, length-drop 12 buf)) (ground arith) in
    sym (take-append-drop 8 buf)
    ∙ ap₂ ◌++◌ tag
        (sym (take-append-drop 4 (drop 8 buf)) ∙ ap₂ ◌++◌ middle (drop-drop 4 8 buf ∙ last))

-- A file is accepted exactly when it begins with the header of the expected parts; a file that is
-- too short is refused.
pub verify_header_iff :
    (file : List ℕ) (parts : List (List ℕ))
    → AreBytes file
    → (verify_header file parts ≡ true) ↔ ((rest : List ℕ) × (file ≡ header parts ++ rest))
unfolding verify_header
verify_header_iff file parts h = elim (Bool-cases (leb header_bytes (length file))) [
  | inl enough ↦
      rw (verify_header, enough)
        (
          (λ e.
              let buf = take header_bytes file in
              (
                drop header_bytes file,
                sym (take-append-drop header_bytes file)
                    ∙ ap (λ (xs : List ℕ). xs ++ drop header_bytes file)
                        (accepted_header buf parts (AreBytes-take header_bytes file h)
                          (ground (arith, length-take header_bytes file)) e),
              )),
          (λ (rest, e).
              ap (λ (xs : List ℕ). check_header (take 20 xs) parts) e
              ∙ ap (λ (xs : List ℕ). check_header xs parts) (take-append_exact (header parts) rest)
              ∙ check-header parts),
        )
  | inr short ↦
      rw (verify_header, short)
        ((λ e. absurd (ground (arith, e))), (λ (rest, e). absurd (ground (arith, ap length e))))
]

-- The header that is written to a file in memory is accepted, whatever follows it.
pub verify-write :
    (parts : List (List ℕ)) (rest : List ℕ)
    → (bytes : List ℕ) × (write_header {E = Unit {0}} (λ bs file. ok (file ++ bs)) parts []
        ≡ ok bytes)
      × (verify_header (bytes ++ rest) parts ≡ true)
unfolding write_header verify_header
verify-write parts rest =
    let long : leb header_bytes (length (header parts ++ rest)) ≡ true = ground arith in
    (
      header parts,
      refl,
      rw (verify_header, long)
          (ap (λ (xs : List ℕ). check_header xs parts) (take-append_exact (header parts) rest)
            ∙ check-header parts),
    )

-- A written header is accepted for the parts of its fingerprint only.
pub verify_header-header :
    (parts expected : List (List ℕ)) (rest : List ℕ)
    → verify_header (header parts ++ rest) expected
      ≡ (fingerprint64 parts == fingerprint64 expected)
unfolding verify_header check_header
verify_header-header parts expected rest =
    let long : leb header_bytes (length (header parts ++ rest)) ≡ true = ground arith in
    rw (verify_header, long)
      (ap (λ (xs : List ℕ). check_header xs expected) (take-append_exact (header parts) rest)
        ∙ ap (λ (h : ℕ). h == fingerprint64 expected)
            (from-to_le_bytes 8 (fingerprint64 parts) (fingerprint64-lt parts)))
