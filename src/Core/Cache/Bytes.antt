-- ===== src/Core/Cache/Bytes.antt =====
-- Little-endian bytes, read and written.
use native.Mathlib.Nat.{pow-suc}
use secure_vector_search.Prelude.{
  ℕ, zero, suc, ◌+◌, ◌*◌, ◌/◌, ◌%◌, ◌^◌, ◌<◌, ◌≡◌, refl, ap, ap₂, arith, true, List, [], ◌∷◌,
  length,
}
use secure_vector_search.Core.Cache.{to_le_bytes, from_le_bytes, same_bytes}

-- Every entry is a byte.
abbrev pub AreBytes : List ℕ → Type 0
AreBytes [] = Unit {0}
AreBytes (b ∷ bs) = (b < 256) × AreBytes bs

pub length-to_le_bytes : (w n : ℕ) → length (to_le_bytes w n) ≡ w
length-to_le_bytes zero n = refl
length-to_le_bytes (suc w) n = ap suc (length-to_le_bytes w (n / 256))

-- A number that fits is read back.
pub from-to_le_bytes : (w n : ℕ) → n < 256 ^ w → from_le_bytes (to_le_bytes w n) ≡ n
from-to_le_bytes zero n h = omega arith
from-to_le_bytes (suc w) n h =
    omega (arith, from-to_le_bytes w (n / 256) (omega (arith, pow-suc 256 w, h)))

-- Bytes are written back.
pub to-from_le_bytes : (bs : List ℕ) → AreBytes bs → to_le_bytes (length bs) (from_le_bytes bs) ≡ bs
to-from_le_bytes [] h = refl
to-from_le_bytes (b ∷ bs) h =
    let low : (b + 256 * from_le_bytes bs) % 256 ≡ b = omega (arith, h.0) in
    let high : (b + 256 * from_le_bytes bs) / 256 ≡ from_le_bytes bs = omega (arith, h.0) in
    rw (low, high) (ap (λ (cs : List ℕ). b ∷ cs) (to-from_le_bytes bs h.1))

pub same_bytes_eq : (xs ys : List ℕ) → same_bytes xs ys ≡ true → xs ≡ ys
same_bytes_eq [] [] h = refl
same_bytes_eq [] (y ∷ ys) h = absurd (ground (arith, h))
same_bytes_eq (x ∷ xs) [] h = absurd (ground (arith, h))
same_bytes_eq (x ∷ xs) (y ∷ ys) h = ap₂ ◌∷◌ (ground arith) (same_bytes_eq xs ys (ground arith))

pub same_bytes_refl : (xs : List ℕ) → same_bytes xs xs ≡ true
same_bytes_refl [] = refl
same_bytes_refl (x ∷ xs) = ground (arith, same_bytes_refl xs)
