-- ===== src/Core/Cache.antt =====
-- scorer-core/src/cache.rs: the fingerprint of a cache, and its self-verifying header. A byte is a
-- number below 256.
pub mod Bytes
pub mod Header
mod Tests
use secure_vector_search.Prelude.{
  ℕ, zero, suc, ◌+◌, ◌*◌, ◌/◌, ◌%◌, ◌==◌, leb, if◌then◌else◌, not, ◌&&◌, Bool, true, false, List,
  [], ◌∷◌, ◌++◌, length, take, drop, Result, ok, err, and_then, bit_xor, wrapping_mul64,
}

-- `to_le_bytes` and `from_le_bytes`, by the number of bytes.
abbrev pub to_le_bytes : ℕ → ℕ → List ℕ
to_le_bytes zero n = []
to_le_bytes (suc w) n = n % 256 ∷ to_le_bytes w (n / 256)

abbrev pub from_le_bytes : List ℕ → ℕ
from_le_bytes [] = 0
from_le_bytes (b ∷ bs) = b + 256 * from_le_bytes bs

abbrev pub magic : List ℕ
magic = 0x89 ∷ 83 ∷ 86 ∷ 83 ∷ 99 ∷ 97 ∷ 99 ∷ 104 ∷ []

abbrev pub version : ℕ
version = 1

abbrev pub header_bytes : ℕ
header_bytes = 8 + 4 + 8

unfoldable pub mix_byte : ℕ → ℕ → ℕ
mix_byte h b = wrapping_mul64 (bit_xor h b) 0x100000001b3

unfoldable pub mix_bytes : List ℕ → ℕ → ℕ
mix_bytes [] h = h
mix_bytes (b ∷ bs) h = mix_bytes bs (mix_byte h b)

-- Each part is preceded by its length.
unfoldable pub mix_parts : List (List ℕ) → ℕ → ℕ
mix_parts [] h = h
mix_parts (part ∷ parts) h =
    mix_parts parts (mix_bytes part (mix_bytes (to_le_bytes 8 (length part)) h))

unfoldable pub fingerprint64 : List (List ℕ) → ℕ
fingerprint64 parts = mix_parts parts 0xcbf29ce484222325

-- `write_all` is that of the file.
unfoldable pub write_header {ℓ κ} :
    {W : Type ℓ} {E : Type κ} → (List ℕ → W → Result E W) → List (List ℕ) → W → Result E W
write_header write_all parts file = and_then (write_all magic file) (λ file1.
    and_then (write_all (to_le_bytes 4 version) file1)
      (λ file2. write_all (to_le_bytes 8 (fingerprint64 parts)) file2))

-- `==` on slices
abbrev pub same_bytes : List ℕ → List ℕ → Bool
same_bytes [] [] = true
same_bytes [] (y ∷ ys) = false
same_bytes (x ∷ xs) [] = false
same_bytes (x ∷ xs) (y ∷ ys) = (x == y) && same_bytes xs ys

-- `read_exact`: the bytes and what follows them, if there are enough.
abbrev pub read_exact : ℕ → List ℕ → Result (Unit {0}) (List ℕ × List ℕ)
read_exact n file = if leb n (length file) then ok (take n file, drop n file) else err tt

unfoldable pub check_header : List ℕ → List (List ℕ) → Bool
check_header buf expected =
    let found = from_le_bytes (take 4 (drop 8 buf)) in
    let hash = from_le_bytes (drop 12 buf) in
    if not (same_bytes (take 8 buf) magic)
    then false
    else (if not (found == version) then false else (hash == fingerprint64 expected))

unfoldable pub verify_header : List ℕ → List (List ℕ) → Bool
verify_header file expected = elim (read_exact header_bytes file) [
  | err _ ↦ false
  | ok (buf, _) ↦ check_header buf expected
]
